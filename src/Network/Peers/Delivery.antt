-- ===== src/Network/Peers/Delivery.antt =====
-- What `send_remote` of src/network.rs leaves on a connection, `handle_connection` delivers.
use myrmidon.Base.{
  ℕ, ◌≤◌, ◌≡◌, sym, ap, ◌∙◌, some, List, [], ◌∷◌, ◌++◌, ok, same_text, length, get_elem?,
  length-append, All, arith,
}
use mathlib.Core.List.{append-nil}
use myrmidon.Deps.DashMap.{DashMap}
use myrmidon.Deps.BoundedMpsc.{BoundedMpsc}
use myrmidon.Deps.BufMut.{BufMut}
use myrmidon.Deps.Reader.{Reader}
use myrmidon.Supervisor.{Text}
use myrmidon.Network.{Bytes, protocol_version, user_message, Node, Conn, handle_connection}
use myrmidon.Network.Connection.{
  sent, delivered, Sendable, user_message_lem, handle_connection-sent,
}
use myrmidon.Network.Peers.{writing, Link}
use myrmidon.Network.Peers.Framing.{flat, Fits}
use myrmidon.Network.Peers.System.{Senders, Reach, Reach-IsOrdered}

pub length-sent :
    (b : BufMut) (limit : ℕ) (ms : List (ℕ × Bytes))
    → All (Fits limit) ms
    → length ms ≤ length (sent b ms)
unfolding sent
length-sent b limit [] a = omega arith
length-sent b limit ((pid, payload) ∷ ms) (f, a) = omega (
  arith,
  length-sent b limit ms a,
  length-append (user_message b pid payload) (sent b ms),
  ap length (user_message_lem b pid payload f.length_fits),
)

module _ (b : BufMut) (limit : ℕ) (q : BoundedMpsc) (n : DashMap Text same_text) where
  Sendable-Fits :
      (r : Reader) (node : Node) (most : ℕ) (ms : List (ℕ × Bytes))
      → limit ≤ most
      → All (Fits limit) ms
      → All (Sendable b r node most) ms
  Sendable-Fits r node most [] le a = tt
  Sendable-Fits r node most (m ∷ ms) le (f, a) = (
    record {
      pid_fits = f.pid_fits;
      length_fits = f.length_fits;
      allowed = omega (arith, f.allowed);
    },
    Sendable-Fits r node most ms le a,
  )

  -- In any state that calls of `send_remote` and the tasks of connections can reach, the bytes on an
  -- unbroken connection with nothing waiting are the version and the frames of some messages within
  -- the limits of their sender; and a node with limits as large that has got these bytes, in whatever
  -- pieces, and fuel for them, sends each message to its actor, in order and unchanged, and ends well.
  pub Reach-delivered :
      {s : Senders b limit q n} (i : ℕ) (l : Link q n) (r : Reader) (node : Node)
      (conn : Conn r node) (fuel : ℕ)
      → Reach b limit q n s
      → get_elem? s.pool.links i ≡ some l
      → l.writer ≡ writing
      → (q.state l.queue).items ≡ []
      → r.incoming conn.source ≡ l.wire
      → limit ≤ node.max_payload conn.state
      → length l.wire ≤ fuel
      → (messages : List (ℕ × Bytes)) × All (Fits limit) messages
        × (l.wire ≡ protocol_version ∷ sent b messages)
        × (after : r.Source) × (handle_connection r node fuel conn
            ≡ some (
              ok tt,
              record conn { state = delivered b r node conn.state messages; source = after },
            ))
  Reach-delivered i l r node conn fuel reached at w empty got le enough =
      let s = (Reach-IsOrdered b limit q n reached).pool_IsWf.framed i l at w in
      let wire : l.wire ≡ protocol_version ∷ sent b s.messages =
        sym (append-nil l.wire) ∙ ap (λ ms. l.wire ++ flat ms) (sym empty) ∙ s.framed in
      let (after, handled) =
        handle_connection-sent b r node s.messages fuel conn
          (omega (arith, length-sent b limit s.messages s.fit, ap length wire))
          (Sendable-Fits r node (node.max_payload conn.state) s.messages le s.fit) (got ∙ wire) in
      (s.messages, s.fit, wire, after, handled)
