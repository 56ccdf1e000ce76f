-- ===== src/Python/Handler/Inline/Refine.antt =====
-- The dedicated thread of src/py.rs, event by event, refines the handler that does each message at once.
use myrmidon.Base.{
  subst, inl, inr, ℕ, ◌≡◌, refl, sym, ap, ◌∙◌, true, none, some, List, [], ◌∷◌, All, arith,
  List-cases,
}
use myrmidon.Deps.Mpsc.{Mpsc, pending, ready, rest}
use myrmidon.Mailbox.Messages.{exit, hot_swap, ping, pong, Message, user, system}
use myrmidon.Python.Handler.{
  Actor, with_tx, handle_inline, handle, thread_handles, thread_receives, thread_round,
}
use myrmidon.Python.Handler.Inline.{
  round_receives, sees_all, IsForwarded, a_user, a_swap, seen, seen_at_last, IsDedicated, Event,
  handles, goes_round, happen, handled_messages, seen_inline, Follows, handle-Follows,
}

module _ {c : Mpsc} where
  -- What a round comes to, by what the channel holds.
  round_idle :
      (threads : ℕ) (a : Actor c) (tx : c.Chan Message)
      → IsDedicated a tx
      → (c.state tx).items ≡ []
      → thread_round true true threads a ≡ (threads, with_tx a (c.poll_recv tx).1)
  unfolding thread_receives
  round_idle threads a tx v e =
      let nothing : (c.poll_recv tx).0 ≡ pending =
        c.poll_recv_result tx ∙ ground (arith, e, v.held) in
      round_receives true threads a tx v.has_tx
      ∙ ap (thread_receives true threads (with_tx a (c.poll_recv tx).1)) nothing

  pub round_busy :
      (threads : ℕ) (a : Actor c) (tx : c.Chan Message) (msg : Message) (more : List Message)
      → a.tx ≡ some tx
      → (c.state tx).items ≡ msg ∷ more
      → thread_round true true threads a
        ≡ thread_handles true threads msg (with_tx a (c.poll_recv tx).1)
  unfolding thread_receives
  round_busy threads a tx msg more at e =
      let next : (c.poll_recv tx).0 ≡ ready (some msg) =
        c.poll_recv_result tx ∙ ground (arith, e) in
      round_receives true threads a tx at
      ∙ ap (thread_receives true threads (with_tx a (c.poll_recv tx).1)) next

  pub handles_forwarded :
      (threads : ℕ) (msg : Message) (a : Actor c)
      → IsForwarded msg
      → thread_handles true threads msg a ≡ (threads, handle_inline msg a)
  unfolding thread_handles
  handles_forwarded threads msg a (a_user bytes) = refl
  handles_forwarded threads msg a (a_swap ptr) = refl

  pub inline_keeps :
      (msg : Message) (a : Actor c)
      → ((handle_inline msg a).tx ≡ a.tx) × ((handle_inline msg a).is_running ≡ a.is_running)
  unfolding handle_inline
  inline_keeps (user bytes) a = (refl, refl)
  inline_keeps (system (hot_swap ptr)) a = (refl, refl)
  inline_keeps (system (exit info)) a = (refl, refl)
  inline_keeps (system ping) a = (refl, refl)
  inline_keeps (system pong) a = (refl, refl)

  round-Follows :
      (threads : ℕ) (a : Actor c) (tx : c.Chan Message)
      → IsDedicated a tx
      → Follows (seen_at_last a tx) (thread_round true true threads a).1
  unfolding sees_all
  round-Follows threads a tx v = elim (List-cases (c.state tx).items) [
    | inl e ↦
        subst (λ r. Follows (seen_at_last a tx) r.1) (sym (round_idle threads a tx v e))
          (record {
            chan = (c.poll_recv tx).1;
            dedicated = record {
              has_tx = refl;
              runs = v.runs;
              receives = ground (arith, after, v.receives);
              held = ground (arith, after, v.held);
              forwarded = subst (λ q. All IsForwarded q.items) (sym after) (rw e tt);
            };
            agrees = ap (λ q. sees_all q.items (seen a)) after ∙ rw e refl;
          })
    | inr h ↦
        let f = subst (All IsForwarded) h.eq v.forwarded in
        let behind = with_tx a (c.poll_recv tx).1 in
        let kept = inline_keeps h.first behind in
        subst (λ r. Follows (seen_at_last a tx) r.1)
          (sym (
            round_busy threads a tx h.first h.rest v.has_tx h.eq
            ∙ handles_forwarded threads h.first behind f.0))
          (record {
            chan = (c.poll_recv tx).1;
            dedicated = record {
              has_tx = kept.0;
              runs = kept.1 ∙ v.runs;
              receives = ground (arith, after, v.receives);
              held = ground (arith, after, v.held);
              forwarded = subst (λ q. All IsForwarded q.items) (sym after) (rw h.eq f.1);
            };
            agrees =
                ap (λ q. sees_all q.items (seen (handle_inline h.first behind))) after
                ∙ rw h.eq (ap (sees_all h.rest) (seen_inline h.first behind));
          })
  ]
    where
      after : c.state (c.poll_recv tx).1 ≡ record (c.state tx) { items = rest (c.state tx).items }
      after = c.state-poll_recv tx

  happen-Follows :
      (es : List Event) (threads : ℕ) (a : Actor c) (tx : c.Chan Message)
      → IsDedicated a tx
      → Follows (sees_all (handled_messages es) (seen_at_last a tx)) (happen es (threads, a)).1
  unfolding happen sees_all
  happen-Follows [] threads a tx v = record { chan = tx; dedicated = v; agrees = refl }
  happen-Follows (handles msg ∷ es) threads a tx v =
      let next = handle-Follows msg a tx v in
      subst
        (λ s. Follows (sees_all (handled_messages es) s) (happen (handles msg ∷ es) (threads, a)).1)
        next.agrees
        (happen-Follows es threads (handle true 0 msg none a).1 next.chan next.dedicated)
  happen-Follows (goes_round ∷ es) threads a tx v =
      let next = round-Follows threads a tx v in
      let (threads', a') = thread_round true true threads a in
      subst
        (λ s. Follows (sees_all (handled_messages es) s) (happen (goes_round ∷ es) (threads, a)).1)
        next.agrees (happen-Follows es threads' a' next.chan next.dedicated)

  -- An actor with a dedicated thread refines the handler that does each message at once. While the
  -- interpreter is up, whatever the order of the handler's calls and of the rounds of the thread, the
  -- thread runs on, and what Python will have seen when it is through with its channel, the calls with
  -- their payloads and the behaviours that were in force and the behaviour at last, is what the
  -- messages in their order come to, from what it would have seen before.
  pub happen-refines :
      (es : List Event) (threads : ℕ) (a : Actor c) (tx : c.Chan Message)
      → IsDedicated a tx
      → let after = (happen es (threads, a)).1 in
        (tx' : c.Chan Message) × IsDedicated after tx'
        × (seen_at_last after tx' ≡ sees_all (handled_messages es) (seen_at_last a tx))
  happen-refines es threads a tx v =
      let f = happen-Follows es threads a tx v in (f.chan, f.dedicated, f.agrees)
