-- ===== src/Network/Arrival.antt =====
-- What comes over a connection of src/network.rs, in the mailboxes of the runtime that serves it.
use myrmidon.Base.{
  ℕ, ◌+◌, ◌^◌, ◌<◌, ◌≤◌, ok, get_elem?, ◌≡◌, refl, sym, ap, ◌∙◌, inl, inr, true, some, List, [],
  ◌∷◌, ◌++◌, ◌==◌, length, if◌then◌else◌, same_text, arith, Bool-cases,
}
use mathlib.Core.List.{append-nil, append_assoc}
use myrmidon.Deps.BufMut.{BufMut}
use myrmidon.Deps.DashMap.{DashMap}
use myrmidon.Deps.Mpsc.{Mpsc}
use myrmidon.Deps.Reader.{Reader}
use myrmidon.Mailbox
use myrmidon.Mailbox.{Mailbox, fetch_add}
use myrmidon.Mailbox.Messages.{Bytes, Message, user}
use myrmidon.Mailbox.Contents.{pending_system, pending_user}
use myrmidon.Mailbox.Sending.{send_lem}
use myrmidon.Supervisor.{Pid, Text}
use myrmidon.Runtime
use myrmidon.Runtime.{box_at}
use myrmidon.Runtime.Invariant.{IsWf, send-IsWf}
use myrmidon.Runtime.Signals.{box_at-send}
use myrmidon.Network.{protocol_version, Conn, handle_connection}
use myrmidon.Network.Connection
use myrmidon.Network.Connection.{delivered}
use myrmidon.Deps.BoundedMpsc.{BoundedMpsc}
use myrmidon.Network.Peers.{writing, Link}
use myrmidon.Network.Peers.System.{Senders, Reach}
use myrmidon.Network.Peers.Delivery.{length-sent, Reach-delivered}
use myrmidon.Network.Serving.{Limited, serving}

-- The messages for one actor, in order.
abbrev pub messages_for : Pid → List (ℕ × Bytes) → List Message
messages_for q [] = []
messages_for q ((pid, payload) ∷ messages) =
    if pid == q then user payload ∷ messages_for q messages else messages_for q messages

module _ (c : Mpsc) (d : DashMap ℕ ◌==◌) (n : DashMap Text same_text) (Factory : Type 0)
    (b : BufMut) (r : Reader) where
  open_after :
      (m : Mailbox c) (payload : Bytes)
      → (c.state (Mailbox.send c m (user payload)).0.to_user).has_receiver
        ≡ (c.state m.to_user).has_receiver
  unfolding Mailbox.send
  open_after m payload = elim (Bool-cases (c.state m.to_user).has_receiver) [
    | inl e ↦ ground (arith, c.send_result m.to_user payload, c.state-send m.to_user payload)
    | inr e ↦ ground (arith, c.send_result m.to_user payload, c.state-send m.to_user payload)
  ]

  user_sent :
      (m : Mailbox c) (payload : Bytes)
      → m.counter + 1 < 2 ^ 64
      → (c.state m.to_user).has_receiver ≡ true
      → let after = (Mailbox.send c m (user payload)).0 in
        (pending_user c after ≡ pending_user c m ++ user payload ∷ [])
        × (pending_system c after ≡ pending_system c m)
        × (after.counter ≡ m.counter + 1)
        × ((c.state after.to_user).has_receiver ≡ true)
  unfolding fetch_add
  user_sent m payload room live =
      let (sent, sys, usr, counter) = send_lem c m (user payload) (omega (arith, room)) in
      (
        usr ∙ rw live refl,
        sys ∙ rw live refl,
        counter ∙ rw live (omega (arith, room)),
        open_after m payload ∙ live,
      )

  -- The mailbox of an actor that reads it, after messages that are delivered to a well-formed runtime
  -- and that its counter has room for: those for the actor wait behind its user messages, in order,
  -- and its system messages are as they were.
  pub box_at-delivered :
      (messages : List (ℕ × Bytes)) (l : Limited c d n Factory) (q : Pid) (i : ℕ) (m : Mailbox c)
      → IsWf l.runtime
      → box_at l.runtime q ≡ some (i, m)
      → (c.state m.to_user).has_receiver ≡ true
      → m.counter + length messages < 2 ^ 64
      → (m' : Mailbox c) × (box_at (delivered b r (serving c d n Factory) l messages).runtime q
          ≡ some (i, m'))
        × (pending_user c m' ≡ pending_user c m ++ messages_for q messages)
        × (pending_system c m' ≡ pending_system c m)
  unfolding delivered fetch_add
  box_at-delivered [] l q i m v at live room = (m, at, sym (append-nil _), refl)
  box_at-delivered ((pid, payload) ∷ messages) l q i m v at live room =
      let msg = user payload in
      let after = record l { runtime = (Runtime.send l.runtime pid msg).0 } in
      let v' = send-IsWf l.runtime pid msg v in
      let at' = box_at-send l.runtime pid q msg i m v at in
      elim (Bool-cases (pid == q)) [
        | inl same ↦
            let (usr, sys, counter, live') = user_sent m payload (omega (arith, room)) live in
            let (m', found, usr', sys') =
              box_at-delivered messages after q i (Mailbox.send c m msg).0 v' (at' ∙ rw same refl)
                live' (omega (arith, room, counter)) in
            rw same (
              m',
              found,
              usr'
                  ∙ ap (λ ms. ms ++ messages_for q messages) usr
                  ∙ append_assoc (pending_user c m) (msg ∷ []) (messages_for q messages),
              sys' ∙ sys,
            )
        | inr other ↦ rw other (
            box_at-delivered messages after q i m v' (at' ∙ rw other refl) live
              (omega (arith, room)))
      ]

  module _ (limit : ℕ) (q : BoundedMpsc) where
    -- In any state that calls of `send_remote` and the tasks of connections can reach, the bytes on an
    -- unbroken connection with nothing waiting are the version and the frames of some messages. When a
    -- well-formed runtime with limits as large as the sender's serves them, in whatever pieces, with
    -- fuel for them, an actor of it that has a mailbox, reads it and has a counter with room for as
    -- many messages as there are bytes finds the messages for it behind the user messages that
    -- waited, in order and unchanged, and its system messages as they were.
    pub Reach-arrives :
        {s : Senders b limit q n} (i : ℕ) (l : Link q n) (conn : Conn r (serving c d n Factory))
        (fuel : ℕ) (pid : Pid) (place : ℕ) (m : Mailbox c)
        → Reach b limit q n s
        → get_elem? s.pool.links i ≡ some l
        → l.writer ≡ writing
        → (q.state l.queue).items ≡ []
        → r.incoming conn.source ≡ l.wire
        → limit ≤ conn.state.network_max_payload
        → length l.wire ≤ fuel
        → IsWf conn.state.runtime
        → box_at conn.state.runtime pid ≡ some (place, m)
        → (c.state m.to_user).has_receiver ≡ true
        → m.counter + length l.wire < 2 ^ 64
        → (messages : List (ℕ × Bytes)) × (l.wire ≡ protocol_version ∷ Connection.sent b messages)
          × (after : Conn r (serving c d n Factory)) × (handle_connection r
                (serving c d n Factory)
                fuel
                conn
              ≡ some (ok tt, after))
          × (m' : Mailbox c) × (box_at after.state.runtime pid ≡ some (place, m'))
          × (pending_user c m' ≡ pending_user c m ++ messages_for pid messages)
          × (pending_system c m' ≡ pending_system c m)
    Reach-arrives i l conn fuel pid place m reached at w empty got le enough v found live room =
        let (messages, fit, wire, after, handled) =
          Reach-delivered b limit q n i l r (serving c d n Factory) conn fuel reached at w empty got
            le enough in
        let (m', arrived, usr, sys) =
          box_at-delivered messages conn.state pid place m v found live
            (omega (arith, room, length-sent b limit messages fit, ap length wire)) in
        (messages, wire, _, handled, m', arrived, usr, sys)
