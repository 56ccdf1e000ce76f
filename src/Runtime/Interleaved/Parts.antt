-- ===== src/Runtime/Interleaved/Parts.antt =====
-- One part of an exit, as the other actors see it.
use myrmidon.Base.{
  ℕ, ◌^◌, ◌<◌, ◌≡◌, refl, sym, ap, ◌∙◌, inl, inr, true, false, Option, none, some, [], ◌∷◌, ◌==◌,
  same_text, arith, Option-cases, Bool-cases,
}
use myrmidon.Deps.DashMap.{DashMap}
use myrmidon.Deps.Mpsc.{Mpsc}
use myrmidon.Pid
use myrmidon.Pid.Invariant.{deallocate-IsWf}
use myrmidon.Pid.Validity.{deallocate-is_valid}
use myrmidon.Mailbox.Messages.{SystemMessage, Message, system, ExitInfo}
use myrmidon.Supervisor.{Pid, Text}
use myrmidon.Runtime.{Runtime, box_at, put_box, is_alive, send}
use myrmidon.Runtime.Exiting.{
  ExitStage, to_unmap, to_notify, to_notify_paths, to_deallocate, to_unlink, to_signal, over,
  exit_part,
}
use myrmidon.Runtime.Invariant.{
  IsWf, same_slots-IsWf, send_found, send_missing, send-IsWf, removed-IsWf, stop_parts, stop-IsWf,
}
use myrmidon.Runtime.Interleaved.{holds_slot, unmapped}

module _ {c : Mpsc} {d : DashMap ℕ ◌==◌} {n : DashMap Text same_text} {Factory : Type 0} where
  -- What a part of an exit may do to the others.
  pub record Moves (rt after : Runtime c d n Factory) (pid : Pid)
      (was now : Option (ExitInfo × ExitStage)) : Type 0 where
    pub wf : IsWf after
    pub back : holds_slot now ≡ true → holds_slot was ≡ true
    pub alive :
        (q : Pid)
        → (q ≡ pid → holds_slot was ≡ true → holds_slot now ≡ true)
        → q < 2 ^ 64
        → is_alive rt q ≡ true
        → is_alive after q ≡ true
    pub alive_before : (q : Pid) → q < 2 ^ 64 → is_alive after q ≡ true → is_alive rt q ≡ true
    pub freed : holds_slot was ≡ true → holds_slot now ≡ false → is_alive after pid ≡ false
    pub none_at : (q : Pid) → d.get rt.mailboxes q ≡ none → d.get after.mailboxes q ≡ none
    pub gone : unmapped now ≡ true → d.get after.mailboxes pid ≡ none

  pub send_keeps :
      (rt : Runtime c d n Factory) (pid : Pid) (msg : Message)
      → ((send rt pid msg).0.slab ≡ rt.slab) × ((send rt pid msg).0.mailboxes ≡ rt.mailboxes)
  unfolding put_box
  send_keeps rt pid msg = elim (Option-cases (box_at rt pid)) [
    | inl e ↦ rw (send_missing rt pid msg e) (refl, refl)
    | inr ((i, m), e) ↦ rw (send_found rt pid i m msg e) (refl, refl)
  ]

  pub quiet-Moves :
      (rt after : Runtime c d n Factory) (pid : Pid) (was now : Option (ExitInfo × ExitStage))
      → IsWf after
      → after.slab ≡ rt.slab
      → after.mailboxes ≡ rt.mailboxes
      → (holds_slot now ≡ true → holds_slot was ≡ true)
      → (holds_slot was ≡ true → holds_slot now ≡ true)
      → (unmapped now ≡ true → d.get rt.mailboxes pid ≡ none)
      → Moves rt after pid was now
  unfolding is_alive
  quiet-Moves rt after pid was now v slab mailboxes back on gone = record {
    wf = v;
    back = back;
    alive = λ q kept fits alive. rw slab alive;
    alive_before = λ q fits alive. ap (λ t. Pid.is_valid t q) (sym slab) ∙ alive;
    freed = λ h no. absurd (ground (arith, on h));
    none_at = λ q e. rw mailboxes e;
    gone = λ h. rw mailboxes (gone h);
  }

  pub exit_part-Moves :
      (rt : Runtime c d n Factory) (pid : Pid) (info : ExitInfo) (stage : ExitStage)
      → IsWf rt
      → pid < 2 ^ 64
      → (unmapped (some (info, stage)) ≡ true → d.get rt.mailboxes pid ≡ none)
      → Moves rt
          (exit_part pid info stage rt).0
          pid
          (some (info, stage))
          (some (info, (exit_part pid info stage rt).1))
  unfolding exit_part is_alive
  exit_part-Moves rt pid info to_unmap v small gone =
      let (slab, supervisor, len, mailboxes) = stop_parts rt pid in
      record {
        wf = stop-IsWf rt pid v;
        back = λ h. refl;
        alive = λ q kept fits alive. rw slab alive;
        alive_before = λ q fits alive. ap (λ t. Pid.is_valid t q) (sym slab) ∙ alive;
        freed = λ h no. absurd (ground arith);
        none_at = λ q e. rw mailboxes (ground (arith, d.get-remove rt.mailboxes pid q));
        gone = λ h. rw mailboxes (ground (arith, d.get-remove rt.mailboxes pid pid));
      }
  exit_part-Moves rt pid info to_notify v small gone =
      quiet-Moves rt _ pid _ _ (same_slots-IsWf rt _ v refl refl refl) refl refl (λ h. refl)
        (λ h. refl) (λ h. gone refl)
  exit_part-Moves rt pid info to_notify_paths v small gone =
      quiet-Moves rt _ pid _ _ (same_slots-IsWf rt _ v refl refl refl) refl refl (λ h. refl)
        (λ h. refl) (λ h. gone refl)
  exit_part-Moves rt pid info to_deallocate v small gone =
      let alive : (q : Pid)
          → (pid == q) ≡ false
          → q < 2 ^ 64
          → is_alive rt q ≡ true
          → is_alive (exit_part pid info to_deallocate rt).0 q ≡ true =
        λ q ne fits alive. ground (arith, (deallocate-is_valid rt.slab pid small).1 q) in
      let empty = gone refl in
      record {
        wf = removed-IsWf rt _ pid v (deallocate-IsWf rt.slab pid v.slab) alive refl (λ q.
            elim (Bool-cases (pid == q)) [
              | inl same ↦
                  let at : d.get rt.mailboxes q ≡ none =
                    ap (d.get rt.mailboxes) (ground arith) ∙ empty in
                  at ∙ rw same refl
              | inr other ↦ rw other refl
            ]);
        back = λ h. absurd (ground arith);
        alive = λ q kept fits h. alive q (ground (arith, kept)) fits h;
        alive_before = λ q fits h. ground (arith, (deallocate-is_valid rt.slab pid small).1 q);
        freed = λ h no. ground (arith, (deallocate-is_valid rt.slab pid small).1 pid);
        none_at = λ q e. e;
        gone = λ h. absurd (ground arith);
      }
  exit_part-Moves rt pid info to_unlink v small gone =
      quiet-Moves rt _ pid _ _ (same_slots-IsWf rt _ v refl refl refl) refl refl (λ h. h) (λ h. h)
        (λ h. absurd (ground arith))
  exit_part-Moves rt pid info (to_signal []) v small gone =
      quiet-Moves rt rt pid _ _ v refl refl (λ h. h) (λ h. h) (λ h. absurd (ground arith))
  exit_part-Moves rt pid info (to_signal (lp ∷ linked)) v small gone =
      let msg = system (SystemMessage.exit info) in
      let (slab, mailboxes) = send_keeps rt lp msg in
      quiet-Moves rt _ pid _ _ (send-IsWf rt lp msg v) slab mailboxes (λ h. h) (λ h. h)
        (λ h. absurd (ground arith))
  exit_part-Moves rt pid info over v small gone =
      quiet-Moves rt rt pid _ _ v refl refl (λ h. h) (λ h. h) (λ h. absurd (ground arith))
