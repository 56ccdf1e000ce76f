-- ===== src/Network/Peers/Progress.antt =====
-- How a call of `send_remote` of src/network.rs gets on, and how it ends.
use myrmidon.Base.{
  ℕ, ◌<◌, ◌≤◌, ◌≡◌, refl, sym, subst, ◌⊎◌, inl, inr, Bool, true, false, some, if◌then◌else◌, Result,
  ok, err, same_text, length, get_elem?, arith, Bool-cases, Option-cases,
}
use myrmidon.Deps.DashMap.{DashMap}
use myrmidon.Deps.BoundedMpsc.{BoundedMpsc}
use myrmidon.Deps.BufMut.{BufMut}
use myrmidon.Deps.Reader.{ErrorKind}
use myrmidon.Supervisor.{Text}
use myrmidon.Network.{WriteOutcome}
use myrmidon.Network.Peers.{
  Stage, looking, connecting, sending, returned, Call, Link, Pool, connect_peer, retry, send_to,
  turn, stage_of,
}
use myrmidon.Network.Peers.Framing.{Leads, IsCall}
use myrmidon.Network.Peers.Opening.{polled_pool, Sends, accepts, waits, is_gone, send_to-Sends}
use myrmidon.Network.Peers.System.{Senders, Reach, Reach-IsOrdered}

-- How many turns a call can take at most.
abbrev pub turns_left : Bool → Stage → ℕ
turns_left retried looking = if retried then 3 else 6
turns_left retried connecting = if retried then 2 else 5
turns_left retried (sending i) = if retried then 1 else 4
turns_left retried (returned r) = 0

abbrev pub left : Call → ℕ
left call = turns_left call.retried call.stage

module _ {q : BoundedMpsc} {n : DashMap Text same_text} where
  -- Whether a call's turn finds the channel of its connection full, with the receiver alive.
  pub record Waits (p : Pool q n) (call : Call) : Type 0 where
    pub place : ℕ
    pub link : Link q n
    pub on_it : call.stage ≡ sending place
    pub at : get_elem? p.links place ≡ some link
    pub alive : (q.state link.queue).has_receiver ≡ true
    pub full : (q.state link.queue).capacity ≤ length (q.state link.queue).items

module _ (b : BufMut) (limit : ℕ) (q : BoundedMpsc) (n : DashMap Text same_text) where
  connect_left :
      (p : Pool q n) (call : Call) (r : Result ℕ ErrorKind)
      → call.stage ≡ connecting
      → left (record call { stage = stage_of q n r }) < left call
  unfolding stage_of
  connect_left p call (ok i) e = ground (arith, e)
  connect_left p call (err k) e = ground (arith, e)

  retry_left :
      (p : Pool q n) (call : Call) (i : ℕ)
      → call.stage ≡ sending i
      → left (retry q n p call).1 < left call
  unfolding retry
  retry_left p call i e = elim (Bool-cases call.retried) [
    | inl again ↦ ground (arith, e, again)
    | inr first ↦ ground (arith, e, first)
  ]

  send_left :
      (p : Pool q n) (call : Call) (i : ℕ) (l : Link q n)
      → call.stage ≡ sending i
      → get_elem? p.links i ≡ some l
      → (left (send_to q n p call i l).1 < left call) ⊎ Waits p call
  send_left p call i l e at = elim (send_to-Sends b limit p call i l) [
    | accepts alive room items r ↦ inl (rw r (ground (arith, e)))
    | waits alive full items r ↦
        inr (record { place = i; link = l; on_it = e; at = at; alive = alive; full = full })
    | is_gone gone items r ↦ inl (rw r (retry_left (polled_pool b limit p i l call.msg) call i e))
  ]

  left_most : (call : Call) → left call ≤ 6
  left_most call = go call.stage call.retried
    where
      go : (s : Stage) (retried : Bool) → turns_left retried s ≤ 6
      go looking true = omega arith
      go looking false = omega arith
      go connecting true = omega arith
      go connecting false = omega arith
      go (sending i) true = omega arith
      go (sending i) false = omega arith
      go (returned r) retried = omega arith

  turn-sending :
      (p : Pool q n) (call : Call) (connected version_written : WriteOutcome) (i : ℕ) (l : Link q n)
      → call.stage ≡ sending i
      → get_elem? p.links i ≡ some l
      → turn q n p call connected version_written ≡ send_to q n p call i l
  unfolding turn
  turn-sending p call connected version_written i l e at = ground (arith, e, at)

  turn-connecting :
      (p : Pool q n) (call : Call) (connected version_written : WriteOutcome)
      → call.stage ≡ connecting
      → (turn q n p call connected version_written).1 ≡ record call {
        stage = stage_of q n (connect_peer q n p call.addr connected version_written).1;
      }
  unfolding turn
  turn-connecting p call connected version_written e = rw (e, turn) refl

  -- In any state that can be reached, with whatever the connect and the write of the version come to,
  -- a turn of a call brings it nearer to its end, unless it is over or the channel of its connection
  -- is full; a call has six turns at most when it begins, a look, a connect and a send, and these once
  -- more.
  pub turn-progress :
      {s : Senders b limit q n} (j : ℕ) (call : Call) (connected version_written : WriteOutcome)
      → Reach b limit q n s
      → get_elem? s.calls j ≡ some call
      → (left call ≤ 6)
        × ((left call ≡ 0)
            ⊎ (left (turn q n s.pool call connected version_written).1 < left call)
            ⊎ Waits s.pool call)
  unfolding turn
  turn-progress {s} j call connected version_written r at = (left_most call, go call.stage refl)
    where
      w : IsCall b limit s.pool call
      w = (Reach-IsOrdered b limit q n r).calls_IsCall j call at

      go :
          (st : Stage)
          → call.stage ≡ st
          → (left call ≡ 0)
            ⊎ (left (turn q n s.pool call connected version_written).1 < left call)
            ⊎ Waits s.pool call
      go looking e = inr (
          inl (elim (Option-cases (n.get s.pool.peers call.addr)) [
            | inl missing ↦ rw (e, missing, turn) (ground (arith, e))
            | inr (i, there) ↦ rw (e, there, turn) (ground (arith, e))
          ]))
      go connecting e = inr (
          inl (
            rw (turn-connecting s.pool call connected version_written e)
              (connect_left s.pool call _ e)))
      go (sending i) e =
          let target = w.target i e in
          inr (
            rw (turn-sending s.pool call connected version_written i target.link e target.at)
              (send_left s.pool call i target.link e target.at))
      go (returned o) e = inl (ground (arith, e))

  -- A turn of a call that is on a connection, in any state that can be reached: the connection was
  -- opened to the address of the call, and the message goes to the end of its channel and the call is
  -- `Ok`; or the channel is full and all stays; or the receiver is gone, and the call begins again
  -- without the entry of its address, or it is over with `ConnectionAborted` if it had begun again.
  pub turn-Sends :
      {s : Senders b limit q n} (j : ℕ) (call : Call) (i : ℕ)
      (connected version_written : WriteOutcome)
      → Reach b limit q n s
      → get_elem? s.calls j ≡ some call
      → call.stage ≡ sending i
      → (there : Leads s.pool.links i call.addr) × Sends b limit s.pool call i there.link
          (turn q n s.pool call connected version_written)
  turn-Sends {s} j call i connected version_written r at e =
      let there = ((Reach-IsOrdered b limit q n r).calls_IsCall j call at).target i e in
      (
        there,
        subst (Sends b limit s.pool call i there.link)
            (sym (turn-sending s.pool call connected version_written i there.link e there.at))
            (send_to-Sends b limit s.pool call i there.link),
      )
