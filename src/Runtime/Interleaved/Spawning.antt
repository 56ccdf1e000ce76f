-- ===== src/Runtime/Interleaved/Spawning.antt =====
-- A spawn among the exits that go on.
use myrmidon.Base.{
  ℕ, ◌^◌, ◌<◌, ◌≡◌, refl, sym, ap, subst, ◌∙◌, inl, inr, true, false, Option, none, some, [], ◌∷◌,
  ◌++◌, ◌==◌, same_text, get_elem?, arith, Option-cases, Bool-cases, List, length, push-cases,
  get_elem?-push, lt-length_of_get_elem?, get_elem?_inside,
}
use myrmidon.Deps.DashMap.{DashMap}
use myrmidon.Deps.Mpsc.{Mpsc}
use myrmidon.Mailbox.Messages.{ExitInfo}
use myrmidon.Supervisor.{Pid, Text}
use myrmidon.Runtime.{Runtime, box_at, is_alive}
use myrmidon.Runtime.Exiting.{
  ExitStage, to_unmap, to_notify, to_notify_paths, to_deallocate, to_unlink, to_signal, over,
}
use myrmidon.Runtime.Invariant.{Spawned}
use myrmidon.Runtime.Interleaved.{ActorTask, holds_slot, unmapped, System, IsOwned}

unmapped-holds_slot : (e : Option (ExitInfo × ExitStage)) → unmapped e ≡ true → holds_slot e ≡ true
unmapped-holds_slot none h = refl
unmapped-holds_slot (some (info, to_unmap)) h = refl
unmapped-holds_slot (some (info, to_notify)) h = refl
unmapped-holds_slot (some (info, to_notify_paths)) h = refl
unmapped-holds_slot (some (info, to_deallocate)) h = refl
unmapped-holds_slot (some (info, to_unlink)) h = h
unmapped-holds_slot (some (info, to_signal linked)) h = h
unmapped-holds_slot (some (info, over)) h = h

last_of : (ts : List ActorTask) (t : ActorTask) → get_elem? (ts ++ t ∷ []) (length ts) ≡ some t
last_of ts t = ground (arith, get_elem?-push ts t (length ts))

pushed :
    (ts : List ActorTask) (i : ℕ) (t u : ActorTask)
    → get_elem? ts i ≡ some u
    → get_elem? (ts ++ t ∷ []) i ≡ some u
pushed ts i t u at = ground (arith, get_elem?-push ts t i, lt-length_of_get_elem? ts i u at)

module _ {c : Mpsc} {d : DashMap ℕ ◌==◌} {n : DashMap Text same_text} {Factory : Type 0} where
  spawned-none :
      (rt after : Runtime c d n Factory) (pid q : Pid)
      → Spawned rt after pid
      → (pid == q) ≡ false
      → d.get rt.mailboxes q ≡ none
      → d.get after.mailboxes q ≡ none
  unfolding box_at
  spawned-none rt after pid q spawned other e = elim (Option-cases (d.get after.mailboxes q)) [
    | inl f ↦ f
    | inr (i, f) ↦ elim (Option-cases (get_elem? after.boxes i)) [
      | inl g ↦ absurd (get_elem?_inside after.boxes i (spawned.wf.bounded q i f) g)
      | inr (m, g) ↦ absurd (ground (arith, spawned.others q other))
    ]
  ]

  pub spawned-IsOwned :
      (s : System c d n Factory) (after : Runtime c d n Factory) (pid : Pid)
      → IsOwned c d n Factory s
      → Spawned s.runtime after pid
      → IsOwned c d n Factory
          (record { runtime = after; tasks = s.tasks ++ record { pid = pid; exiting = none } ∷ [] })
  spawned-IsOwned s after pid v spawned =
      let task : ActorTask = record { pid = pid; exiting = none } in
      let fresh : (j : ℕ) (u : ActorTask)
          → get_elem? s.tasks j ≡ some u
          → holds_slot u.exiting ≡ true
          → (pid == u.pid) ≡ false =
        λ j u e h. elim (Bool-cases (pid == u.pid)) [
          | inl same ↦
              let dead : is_alive s.runtime u.pid ≡ false =
                ap (is_alive s.runtime) (sym (ground arith)) ∙ spawned.was_dead in
              absurd (ground (arith, v.alive j u e h))
          | inr other ↦ other
        ] in
      record {
        wf = spawned.wf;
        alive = λ j u e h. elim (push-cases s.tasks j task u e) [
          | inl (here, same) ↦
              ap (λ t. is_alive after t.pid) same
              ∙ spawned.alive pid
              ∙ ground (arith, spawned.small)
          | inr before ↦ ground (arith, spawned.alive u.pid, v.alive j u before h)
        ];
        covered = λ q fits alive. elim (Bool-cases (pid == q)) [
          | inl same ↦ (length s.tasks, task, last_of s.tasks task, refl, ground arith)
          | inr other ↦
              let (i, t, at, holds, pid_is) =
                v.covered q fits (ground (arith, spawned.alive q, alive)) in
              (i, t, pushed s.tasks i task t at, holds, pid_is)
        ];
        small = λ j u e. elim (push-cases s.tasks j task u e) [
          | inl (here, same) ↦ subst (λ t. t.pid < 2 ^ 64) (sym same) spawned.small
          | inr before ↦ v.small j u before
        ];
        gone = λ j u e h. elim (push-cases s.tasks j task u e) [
          | inl (here, same) ↦
              let no : false ≡ true = sym (ap (λ t. unmapped t.exiting) same) ∙ h in
              absurd (ground arith)
          | inr before ↦
              spawned-none s.runtime after pid u.pid spawned
                (fresh j u before (unmapped-holds_slot u.exiting h)) (v.gone j u before h)
        ];
        once = λ j k t u e f h g same. elim (push-cases s.tasks j task t e) [
          | inl (here, is_new) ↦ elim (push-cases s.tasks k task u f) [
            | inl (there, is_new') ↦ sym here ∙ there
            | inr before ↦
                let eq : pid ≡ u.pid = sym (ap (λ t. t.pid) is_new) ∙ same in
                absurd (ground (arith, fresh k u before g, eq))
          ]
          | inr before ↦ elim (push-cases s.tasks k task u f) [
            | inl (there, is_new') ↦
                let eq : t.pid ≡ pid = same ∙ ap (λ t. t.pid) is_new' in
                absurd (ground (arith, fresh j t before h, eq))
            | inr before' ↦ v.once j k t u before before' h g same
          ]
        ];
      }
