-- ===== src/Python/Handler/Ending.antt =====
-- How the dedicated thread of src/py.rs ends once its actor is over.
use myrmidon.Base.{
  ℕ, zero, suc, ◌≡◌, refl, sym, ap, subst, ◌∙◌, inl, inr, true, false, none, some, List, [], ◌∷◌,
  All, arith, if◌then◌else◌, length, List-cases,
}
use myrmidon.Deps.Mpsc.{Mpsc, ready, polled, rest}
use myrmidon.Mailbox.{fetch_sub}
use myrmidon.Mailbox.Messages.{Message}
use myrmidon.Python.Handler.{
  Actor, with_tx, handle_inline, thread_ends, thread_receives, thread_round,
}
use myrmidon.Python.Handler.Inline.{
  round_receives, Seen, sees_all, IsForwarded, seen, seen_at_last, seen_inline,
}
use myrmidon.Python.Handler.Inline.Refine.{round_busy, handles_forwarded, inline_keeps}

module _ {c : Mpsc} where
  -- So many rounds of a thread, with the interpreter up, until it ends.
  pub thread_rounds : ℕ → ℕ × Actor c → ℕ × Actor c
  thread_rounds zero s = s
  thread_rounds (suc k) (threads, a) =
      if a.is_running then thread_rounds k (thread_round true true threads a) else (threads, a)

  -- A thread whose actor is over, with these messages left.
  pub record IsLeft (a : Actor c) (tx : c.Chan Message) : Type 0 where
    pub has_tx : a.tx ≡ some tx
    pub runs : a.is_running ≡ true
    pub dropped : (c.state tx).has_sender ≡ false
    pub forwarded : All IsForwarded (c.state tx).items

  last_round :
      (threads : ℕ) (a : Actor c) (tx : c.Chan Message)
      → IsLeft a tx
      → (c.state tx).items ≡ []
      → thread_round true true threads a ≡ thread_ends threads (with_tx a (c.poll_recv tx).1)
  unfolding thread_receives
  last_round threads a tx v e =
      let closed : (c.poll_recv tx).0 ≡ ready none =
        c.poll_recv_result tx ∙ ground (arith, e, v.dropped) in
      round_receives true threads a tx v.has_tx
      ∙ ap (thread_receives true threads (with_tx a (c.poll_recv tx).1)) closed

  -- What is left after the next message.
  next-IsLeft :
      (a : Actor c) (tx : c.Chan Message) (msg : Message) (more : List Message)
      → IsLeft a tx
      → (c.state tx).items ≡ msg ∷ more
      → let (polled, tx') = c.poll_recv tx in
        let after = handle_inline msg (with_tx a tx') in
        IsForwarded msg
        × IsLeft after tx'
        × ((c.state tx').items ≡ more)
        × (seen_at_last after tx' ≡ seen_at_last a tx)
  unfolding sees_all
  next-IsLeft a tx msg more v e =
      let tx' = (c.poll_recv tx).1 in
      let behind = with_tx a tx' in
      let after = c.state-poll_recv tx in
      let f = subst (All IsForwarded) e v.forwarded in
      let kept = inline_keeps msg behind in
      let left : (c.state tx').items ≡ more = ap (λ q. q.items) after ∙ ap rest e in
      (
        f.0,
        record {
          has_tx = kept.0;
          runs = kept.1 ∙ v.runs;
          dropped = ground (arith, after, v.dropped);
          forwarded = subst (All IsForwarded) (sym left) f.1;
        },
        left,
        ap (λ l. sees_all l (seen (handle_inline msg behind))) left
            ∙ ap (sees_all more) (seen_inline msg behind)
            ∙ sym (ap (λ l. sees_all l (seen a)) e),
      )

  one_round :
      (k threads : ℕ) (a : Actor c)
      → a.is_running ≡ true
      → thread_rounds (suc k) (threads, a) ≡ thread_rounds k (thread_round true true threads a)
  unfolding thread_rounds
  one_round k threads a e = rw e refl

  abbrev EndsAs : ℕ → Seen → ℕ × Actor c → Type 0
  EndsAs threads s (threads', after) =
      (after.is_running ≡ false) × (threads' ≡ fetch_sub threads) × (seen after ≡ s)

  -- Once its actor is over and the interpreter stays up, a dedicated thread with `k` messages left in
  -- its channel ends after `k + 1` rounds and is counted down; Python has seen all that it would have
  -- when the actor ended, every message left included.
  pub thread_rounds-ended :
      (k threads : ℕ) (a : Actor c) (tx : c.Chan Message)
      → IsLeft a tx
      → length (c.state tx).items ≡ k
      → let (threads', after) = thread_rounds (suc k) (threads, a) in
        (after.is_running ≡ false)
        × (threads' ≡ fetch_sub threads)
        × (seen after ≡ seen_at_last a tx)
  unfolding thread_rounds thread_ends sees_all
  thread_rounds-ended zero threads a tx v e = elim (List-cases (c.state tx).items) [
    | inr h ↦ absurd (ground (arith, h.eq, e))
    | inl empty ↦
        subst (EndsAs threads (seen_at_last a tx))
          (sym (one_round 0 threads a v.runs ∙ last_round threads a tx v empty))
          (refl, refl, ap (λ l. sees_all l (seen a)) (sym empty))
  ]
  thread_rounds-ended (suc k) threads a tx v e = elim (List-cases (c.state tx).items) [
    | inl empty ↦ absurd (ground (arith, empty, e))
    | inr h ↦
        let (f, v', left, same) = next-IsLeft a tx h.first h.rest v h.eq in
        let tx' = (c.poll_recv tx).1 in
        let a' = handle_inline h.first (with_tx a tx') in
        let step =
          round_busy threads a tx h.first h.rest v.has_tx h.eq
          ∙ handles_forwarded threads h.first (with_tx a tx') f in
        let (over, counted, seen_last) =
          thread_rounds-ended k threads a' tx' v'
            (ap length left ∙ ground (arith, e, ap length h.eq)) in
        subst (EndsAs threads (seen_at_last a tx))
          (sym (one_round (suc k) threads a v.runs ∙ ap (thread_rounds (suc k)) step))
          (over, counted, seen_last ∙ same)
  ]
