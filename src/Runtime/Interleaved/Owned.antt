-- ===== src/Runtime/Interleaved/Owned.antt =====
-- Slots and senders of actors through every order of spawns, exits and calls.
use myrmidon.Base.{
  ℕ, ◌^◌, ◌<◌, ◌≡◌, refl, sym, ap, subst, ◌∙◌, inl, inr, true, false, Option, none, some, ◌==◌,
  same_text, get_elem?, set, arith, Option-cases, Bool-cases, set-cases, get_elem?-set,
  lt-length_of_get_elem?,
}
use myrmidon.Deps.DashMap.{DashMap}
use myrmidon.Deps.Mpsc.{Mpsc}
use myrmidon.Mailbox.Messages.{ExitInfo}
use myrmidon.Supervisor.{Pid, Text}
use myrmidon.Pid
use myrmidon.Runtime.{Runtime, new, box_at, put_box, is_alive, hot_swap}
use myrmidon.Runtime.Exiting.{ExitStage}
use myrmidon.Runtime.Invariant.{IsWf, new-IsWf, stop_parts, Spawned, spawn_actor-Spawned}
use myrmidon.Runtime.System.{
  Call, sends, swaps, stops, reads, supervises, names, observes, Call-IsWf,
}
use myrmidon.Runtime.Interleaved.{
  ActorTask, holds_slot, unmapped, System, Step, spawns, ends, exits, calls, Reach, start, later,
  IsOwned,
}
use myrmidon.Runtime.Interleaved.Parts.{Moves, send_keeps, quiet-Moves, exit_part-Moves}
use myrmidon.Runtime.Interleaved.Spawning.{spawned-IsOwned}

none_alive : (q : Pid) → Pid.is_valid Pid.new q ≡ false
unfolding Pid.is_valid Pid.new
none_alive q = ground arith

module _ {c : Mpsc} {d : DashMap ℕ ◌==◌} {n : DashMap Text same_text} {Factory : Type 0} where
  moved-IsOwned :
      (s : System c d n Factory) (after : Runtime c d n Factory) (i : ℕ) (pid : Pid)
      (was now : Option (ExitInfo × ExitStage))
      → IsOwned c d n Factory s
      → get_elem? s.tasks i ≡ some (record { pid = pid; exiting = was })
      → Moves s.runtime after pid was now
      → IsOwned c d n Factory
          (record { runtime = after; tasks = set s.tasks i (record { pid = pid; exiting = now }) })
  moved-IsOwned s after i pid was now v at moves =
      let task : ActorTask = record { pid = pid; exiting = now } in
      let old : ActorTask = record { pid = pid; exiting = was } in
      -- Who holds a slot did before, under the same identifier.
      let held : (j : ℕ) (u : ActorTask)
          → get_elem? (set s.tasks i task) j ≡ some u
          → holds_slot u.exiting ≡ true
          → (o : ActorTask) × (get_elem? s.tasks j ≡ some o)
            × (holds_slot o.exiting ≡ true)
            × (o.pid ≡ u.pid) =
        λ j u e h. elim (set-cases s.tasks i j task u e) [
          | inl (here, same) ↦ (
            old,
            ap (get_elem? s.tasks) (sym here) ∙ at,
            moves.back (ap (λ t. holds_slot t.exiting) (sym same) ∙ h),
            ap (λ t. t.pid) (sym same),
          )
          | inr (other, before) ↦ (u, before, h, refl)
        ] in
      record {
        wf = moves.wf;
        alive = λ j u e h. elim (set-cases s.tasks i j task u e) [
          | inl (here, same) ↦
              let now_holds : holds_slot now ≡ true =
                ap (λ t. holds_slot t.exiting) (sym same) ∙ h in
              ap (λ t. is_alive after t.pid) same
              ∙ moves.alive pid (λ e was_held. now_holds) (v.small i old at)
                  (v.alive i old at (moves.back now_holds))
          | inr (other, before) ↦
              moves.alive u.pid
                (λ e was_held.
                  absurd (ground (arith, v.once i j old u at before was_held h (sym e))))
                (v.small j u before) (v.alive j u before h)
        ];
        covered = λ q fits alive.
            let (j, u, at_u, held_u, pid_u) = v.covered q fits (moves.alive_before q fits alive) in
            elim (Bool-cases (i == j)) [
              | inl same ↦
                  let here : i ≡ j = ground arith in
                  let was_u : u ≡ old = ground (arith, at, at_u, here) in
                  let pid_q : pid ≡ q = sym (ap (λ t. t.pid) was_u) ∙ pid_u in
                  let was_held : holds_slot was ≡ true =
                    sym (ap (λ t. holds_slot t.exiting) was_u) ∙ held_u in
                  elim (Bool-cases (holds_slot now)) [
                    | inl on ↦ (
                      i,
                      task,
                      ground (
                        arith,
                        get_elem?-set s.tasks i i task,
                        lt-length_of_get_elem? s.tasks i old at,
                      ),
                      on,
                      pid_q,
                    )
                    | inr off ↦
                        let dead : is_alive after q ≡ false =
                          ap (is_alive after) (sym pid_q) ∙ moves.freed was_held off in
                        absurd (ground (arith, alive, dead))
                  ]
              | inr other ↦
                  (j, u, ground (arith, get_elem?-set s.tasks i j task, at_u), held_u, pid_u)
            ];
        small = λ j u e. elim (set-cases s.tasks i j task u e) [
          | inl (here, same) ↦ subst (λ t. t.pid < 2 ^ 64) (sym same) (v.small i old at)
          | inr (other, before) ↦ v.small j u before
        ];
        gone = λ j u e h. elim (set-cases s.tasks i j task u e) [
          | inl (here, same) ↦
              ap (λ t. d.get after.mailboxes t.pid) same
              ∙ moves.gone (ap (λ t. unmapped t.exiting) (sym same) ∙ h)
          | inr (other, before) ↦ moves.none_at u.pid (v.gone j u before h)
        ];
        once = λ j k t u e f h g same.
            let (o, at_o, held_o, pid_o) = held j t e h in
            let (p, at_p, held_p, pid_p) = held k u f g in
            v.once j k o p at_o at_p held_o held_p (pid_o ∙ same ∙ sym pid_p);
      }

  kept-IsOwned :
      (s : System c d n Factory) (after : Runtime c d n Factory)
      → IsOwned c d n Factory s
      → IsWf after
      → after.slab ≡ s.runtime.slab
      → ((q : Pid) → d.get s.runtime.mailboxes q ≡ none → d.get after.mailboxes q ≡ none)
      → IsOwned c d n Factory (record s { runtime = after })
  unfolding is_alive
  kept-IsOwned s after v wf slab none_at = record {
    wf = wf;
    alive = λ i t e h. rw slab (v.alive i t e h);
    covered = λ q fits alive. v.covered q fits (ap (λ t. Pid.is_valid t q) (sym slab) ∙ alive);
    small = v.small;
    gone = λ i t e h. none_at t.pid (v.gone i t e h);
    once = v.once;
  }

  Call-slab :
      {rt after : Runtime c d n Factory}
      → Call c d n Factory rt after
      → (after.slab ≡ rt.slab)
        × ((q : Pid) → d.get rt.mailboxes q ≡ none → d.get after.mailboxes q ≡ none)
  unfolding put_box hot_swap
  Call-slab {rt} (sends pid msg) =
      let (slab, mailboxes) = send_keeps rt pid msg in (slab, λ q e. rw mailboxes e)
  Call-slab {rt} (swaps pid handler_ptr) = elim (Option-cases (box_at rt pid)) [
    | inl e ↦ rw (e, hot_swap) (refl, λ q h. h)
    | inr ((i, m), e) ↦ rw (e, hot_swap) (refl, λ q h. h)
  ]
  Call-slab {rt} (stops pid) =
      let (slab, supervisor, len, mailboxes) = stop_parts rt pid in
      (slab, λ q e. rw mailboxes (ground (arith, d.get-remove rt.mailboxes pid q)))
  Call-slab (reads i m) = (refl, λ q e. e)
  Call-slab (supervises supervisor paths) = (refl, λ q e. e)
  Call-slab (names registry) = (refl, λ q e. e)
  Call-slab (observes observers) = (refl, λ q e. e)

  Step-IsOwned :
      {s after : System c d n Factory}
      → Step c d n Factory s after
      → IsOwned c d n Factory s
      → IsOwned c d n Factory after
  Step-IsOwned {s} (spawns after pid i room e) v =
      let (made, pid', eq, spawned) = spawn_actor-Spawned s.runtime v.wf room in
      let made_is : made ≡ after = ground arith in
      let pid_is : pid' ≡ pid = ground arith in
      spawned-IsOwned s after pid v (
        subst (λ p. Spawned s.runtime after p) pid_is
          (subst (λ a. Spawned s.runtime a pid') made_is spawned))
  Step-IsOwned {s} (ends i pid res at) v = moved-IsOwned s s.runtime i pid none _ v at (
      quiet-Moves s.runtime s.runtime pid none _ v.wf refl refl (λ h. refl) (λ h. refl)
        (λ h. absurd (ground arith)))
  Step-IsOwned {s} (exits i pid info stage at) v =
      moved-IsOwned s _ i pid _ _ v at
        (exit_part-Moves s.runtime pid info stage v.wf (v.small i _ at) (λ h. v.gone i _ at h))
  Step-IsOwned {s} (calls {after} call) v =
      let (slab, none_at) = Call-slab call in
      kept-IsOwned s after v (Call-IsWf c d n Factory call v.wf) slab none_at

  -- In every state that spawns, ends of actors, the parts of their exits and other calls can reach, in
  -- any order, the runtime is well formed, and the identifiers that are alive are those of the actors
  -- whose slot is not given back yet, each of one such actor: an exit gives back the slot of its own
  -- actor, and when all exits are over no identifier is alive. From the removal of its sender until
  -- its slot is given back the map has no sender for an actor.
  pub Reach-IsOwned : {s : System c d n Factory} → Reach c d n Factory s → IsOwned c d n Factory s
  unfolding is_alive new
  Reach-IsOwned start = record {
    wf = new-IsWf;
    alive = λ i t e h. absurd (ground arith);
    covered = λ q fits alive. absurd (ground (arith, none_alive q, alive));
    small = λ i t e. absurd (ground arith);
    gone = λ i t e h. absurd (ground arith);
    once = λ i j t u e f h g same. absurd (ground arith);
  }
  Reach-IsOwned (later r st) = Step-IsOwned st (Reach-IsOwned r)
