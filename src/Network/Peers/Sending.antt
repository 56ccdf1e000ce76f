-- ===== src/Network/Peers/Sending.antt =====
-- A turn of `send_remote` of src/network.rs that is on a connection, as the pool and the caller see it.
use myrmidon.Base.{
  ℕ, ◌<◌, ◌≤◌, ◌≡◌, refl, sym, subst, inl, inr, true, false, some, none, List, [], ◌∷◌, ◌++◌, ◌==◌,
  ok, err, if◌then◌else◌, same_text, length, get_elem?, get_elem?-set, lt-length_of_get_elem?,
  arith, Bool-cases,
}
use myrmidon.Deps.DashMap.{DashMap}
use myrmidon.Deps.BoundedMpsc.{BoundedMpsc}
use myrmidon.Deps.BufMut.{BufMut}
use myrmidon.Deps.Reader.{ErrorKind}
use myrmidon.Supervisor.{Text}
use myrmidon.Network.{WriteOutcome, Bytes}
use myrmidon.Network.Peers.{looking, sending, returned, Call, Link, Pool, retry, turn}
use myrmidon.Network.Peers.Framing.{Leads}
use myrmidon.Network.Peers.Opening.{Sends, accepts, waits, is_gone, polled_link, polled_pool}
use myrmidon.Network.Peers.System.{Senders, Reach}
use myrmidon.Network.Peers.Progress.{turn-Sends}

module _ (b : BufMut) (limit : ℕ) {q : BoundedMpsc} {n : DashMap Text same_text} where
  -- The connection at a place has these frames in its channel and is as it was else, and so is every
  -- other connection.
  pub record Queues (p after : Pool q n) (i : ℕ) (l : Link q n) (items : List Bytes) : Type 0 where
    pub there : Link q n
    pub at : get_elem? after.links i ≡ some there
    pub queued : (q.state there.queue).items ≡ items
    pub same_addr : there.addr ≡ l.addr
    pub same_wire : there.wire ≡ l.wire
    pub same_writer : there.writer ≡ l.writer
    pub others : (j : ℕ) → (i == j) ≡ false → get_elem? after.links j ≡ get_elem? p.links j

  polled-Queues :
      (p : Pool q n) (i : ℕ) (l : Link q n) (msg : Bytes) (items : List Bytes)
      → get_elem? p.links i ≡ some l
      → (q.state (polled_link b limit l msg).queue).items ≡ items
      → Queues p (polled_pool b limit p i l msg) i l items
  polled-Queues p i l msg items at e = record {
    there = polled_link b limit l msg;
    at = ground (
      arith,
      get_elem?-set p.links i i (polled_link b limit l msg),
      lt-length_of_get_elem? p.links i l at,
    );
    queued = e;
    same_addr = refl;
    same_wire = refl;
    same_writer = refl;
    others = λ j ne. ground (arith, get_elem?-set p.links i j (polled_link b limit l msg));
  }

  abbrev pub SamePeers : Pool q n → Pool q n → Type 0
  SamePeers p after = (x : Text) → n.get after.peers x ≡ n.get p.peers x

  -- What a turn on the connection at a place comes to, by the state of its channel.
  pub data Settles (p : Pool q n) (call : Call) (i : ℕ) (l : Link q n) (r : Pool q n × Call)
      : Type 0 where
    hands_over :
        (q.state l.queue).has_receiver ≡ true
        → length (q.state l.queue).items < (q.state l.queue).capacity
        → Queues p r.0 i l ((q.state l.queue).items ++ call.msg ∷ [])
        → SamePeers p r.0
        → r.1 ≡ record call { stage = returned (ok tt) }
        → Settles p call i l r
    waits_for_room :
        (q.state l.queue).has_receiver ≡ true
        → (q.state l.queue).capacity ≤ length (q.state l.queue).items
        → Queues p r.0 i l (q.state l.queue).items
        → SamePeers p r.0
        → r.1 ≡ call
        → Settles p call i l r
    begins_again :
        (q.state l.queue).has_receiver ≡ false
        → call.retried ≡ false
        → Queues p r.0 i l (q.state l.queue).items
        → ((x : Text)
            → n.get r.0.peers x ≡ (if same_text call.addr x then none else n.get p.peers x))
        → r.1 ≡ record call { retried = true; stage = looking }
        → Settles p call i l r
    gives_up :
        (q.state l.queue).has_receiver ≡ false
        → call.retried ≡ true
        → Queues p r.0 i l (q.state l.queue).items
        → SamePeers p r.0
        → r.1 ≡ record call { stage = returned (err ErrorKind.connection_aborted) }
        → Settles p call i l r

  retry-Settles :
      (p : Pool q n) (call : Call) (i : ℕ) (l : Link q n)
      → get_elem? p.links i ≡ some l
      → (q.state l.queue).has_receiver ≡ false
      → (q.state (polled_link b limit l call.msg).queue).items ≡ (q.state l.queue).items
      → Settles p call i l (retry q n (polled_pool b limit p i l call.msg) call)
  unfolding retry
  retry-Settles p call i l at gone kept =
      let queues = polled-Queues p i l call.msg (q.state l.queue).items at kept in
      elim (Bool-cases call.retried) [
        | inl again ↦
            subst (Settles p call i l) (sym (gave_up again))
              (gives_up gone again queues (λ x. refl) refl)
        | inr first ↦ subst (Settles p call i l) (sym (went_back first)) (
            begins_again gone first
              (record {
                there = queues.there;
                at = queues.at;
                queued = queues.queued;
                same_addr = queues.same_addr;
                same_wire = queues.same_wire;
                same_writer = queues.same_writer;
                others = queues.others;
              })
              (λ x. n.get-remove p.peers call.addr x) refl)
      ]
    where
      after : Pool q n
      after = polled_pool b limit p i l call.msg

      gave_up :
          call.retried ≡ true
          → retry q n after call
            ≡ (after, record call { stage = returned (err ErrorKind.connection_aborted) })
      gave_up h = ground (arith, h)

      went_back :
          call.retried ≡ false
          → retry q n after call ≡ (
            record after { peers = n.remove p.peers call.addr },
            record call { retried = true; stage = looking },
          )
      went_back h = ground (arith, h)

  Sends-Settles :
      (p : Pool q n) (call : Call) (i : ℕ) (l : Link q n) (r : Pool q n × Call)
      → get_elem? p.links i ≡ some l
      → Sends b limit p call i l r
      → Settles p call i l r
  Sends-Settles p call i l r at (accepts alive room queued e) =
      subst (Settles p call i l) (sym e)
        (hands_over alive room (polled-Queues p i l call.msg _ at queued) (λ x. refl) refl)
  Sends-Settles p call i l r at (waits alive full queued e) =
      subst (Settles p call i l) (sym e)
        (waits_for_room alive full (polled-Queues p i l call.msg _ at queued) (λ x. refl) refl)
  Sends-Settles p call i l r at (is_gone gone queued e) =
      subst (Settles p call i l) (sym e) (retry-Settles p call i l at gone queued)

  -- A turn of a call that is on a connection, in any state that can be reached: the connection was
  -- opened to the address of the call. Its message goes to the end of the channel and the call is
  -- `Ok`; or the channel is full and the call waits; or the receiver is gone, and the call begins
  -- again, with the entry of its address alone out of the pool, or when it has begun again before it
  -- is over with `ConnectionAborted` and the pool has the entries that it had. No other connection
  -- changes, and on this one nothing but the channel, and that only by the message.
  pub turn-Settles :
      {s : Senders b limit q n} (j : ℕ) (call : Call) (i : ℕ)
      (connected version_written : WriteOutcome)
      → Reach b limit q n s
      → get_elem? s.calls j ≡ some call
      → call.stage ≡ sending i
      → (there : Leads s.pool.links i call.addr) × Settles s.pool call i there.link
          (turn q n s.pool call connected version_written)
  turn-Settles {s} j call i connected version_written r at e =
      let (there, sends) = turn-Sends b limit q n j call i connected version_written r at e in
      (there, Sends-Settles s.pool call i there.link _ there.at sends)
