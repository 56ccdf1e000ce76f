-- ===== src/Runtime/Exiting.antt =====
-- The exit of an actor in src/lib.rs part by part, so that other calls can come between the parts.
use myrmidon.Base.{
  ℕ, zero, suc, ◌+◌, ◌≡◌, refl, ap, subst, ◌∙◌, none, List, [], ◌∷◌, ◌++◌, map, ◌==◌, ok, same_text,
  length, count, arith,
}
use mathlib.Core.List.{append-nil}
use myrmidon.Deps.DashMap.{DashMap}
use myrmidon.Deps.Mpsc.{Mpsc}
use myrmidon.Pid
use myrmidon.Mailbox.Messages.{SystemMessage, system, ExitInfo}
use myrmidon.Supervisor
use myrmidon.Supervisor.{Pid, Text, Supervisor, Task, peers, remove_links, attempt}
use myrmidon.Supervisor.Links.{linked-remove_links}
use myrmidon.Runtime.{Runtime, Restart, JoinResult, send, stop, signal, exit_actor, notify_paths}
use myrmidon.Runtime.Exit.{exit_info}

-- Before the part that takes the sender out of the map, and so on.
pub data ExitStage : Type 0 where
  to_unmap to_notify to_notify_paths to_deallocate to_unlink over : ExitStage
  to_signal : List Pid → ExitStage

parts : (k : ℕ) → suc (suc (suc (suc (suc (suc k))))) ≡ 6 + k
parts k = omega arith

nothing_linked : (l : List Pid) → ((x : Pid) → count x l ≡ 0) → l ≡ []
nothing_linked [] none_of = refl
nothing_linked (x ∷ l) none_of = ground (arith, none_of x)

module _ {c : Mpsc} {d : DashMap ℕ ◌==◌} {n : DashMap Text same_text} {Factory : Type 0} where
  -- The part at a stage, with the next stage and the restart tasks that it spawns.
  unfoldable pub exit_part :
      Pid
      → ExitInfo
      → ExitStage
      → Runtime c d n Factory
      → Runtime c d n Factory × ExitStage × List (Restart Factory)
  exit_part pid info to_unmap rt = (stop rt pid, to_notify, [])
  exit_part pid info to_notify rt =
      let (notified, tasks) = Supervisor.notify_exit d rt.supervisor pid in
      (record rt { supervisor = notified }, to_notify_paths, map (λ t. (none, t)) tasks)
  exit_part pid info to_notify_paths rt =
      let (paths, tasks) = notify_paths d n (n.iter rt.path_supervisors) pid rt.path_supervisors in
      (record rt { path_supervisors = paths }, to_deallocate, tasks)
  exit_part pid info to_deallocate rt =
      (record rt { slab = (Pid.deallocate rt.slab pid).0 }, to_unlink, [])
  exit_part pid info to_unlink rt =
      let (unlinked, linked) = Supervisor.linked_pids d rt.supervisor pid in
      (record rt { supervisor = unlinked }, to_signal linked, [])
  exit_part pid info (to_signal []) rt = (rt, over, [])
  exit_part pid info (to_signal (lp ∷ linked)) rt =
      ((send rt lp (system (SystemMessage.exit info))).0, to_signal linked, [])
  exit_part pid info over rt = (rt, over, [])

  -- So many parts with nothing between them.
  unfoldable pub exit_parts :
      ℕ
      → Pid
      → ExitInfo
      → ExitStage
      → Runtime c d n Factory
      → Runtime c d n Factory × ExitStage × List (Restart Factory)
  unfolding exit_part
  exit_parts zero pid info stage rt = (rt, stage, [])
  exit_parts (suc k) pid info stage rt =
      let (after, next, tasks) = exit_part pid info stage rt in
      let (last, end, more) = exit_parts k pid info next after in (last, end, tasks ++ more)

  signals_parts :
      (linked : List Pid) (rt : Runtime c d n Factory) (pid : Pid) (info : ExitInfo)
      → exit_parts (suc (length linked)) pid info (to_signal linked) rt
        ≡ (signal linked info rt, over, [])
  unfolding exit_parts signal
  signals_parts [] rt pid info = refl
  signals_parts (lp ∷ linked) rt pid info =
      ap (λ x. (x.0, x.1, x.2))
        (signals_parts linked (send rt lp (system (SystemMessage.exit info))).0 pid info)

  -- The exit of an actor part by part, with nothing between the parts, is `exit_actor`: the same
  -- runtime and the same restart tasks, after five parts, one for each link and one more.
  pub exit_parts_lem :
      (rt : Runtime c d n Factory) (pid : Pid) (res : JoinResult)
      → let links = (Supervisor.notify_exit d (stop rt pid).supervisor pid).0.links in
        let (after, tasks) = exit_actor rt pid res in
        exit_parts (6 + length (peers d links pid)) pid (exit_info pid res) to_unmap rt
        ≡ (after, over, tasks)
  unfolding exit_parts exit_actor Supervisor.linked_pids
  exit_parts_lem rt pid res =
      let after = stop rt pid in
      let (notified, tasks) = Supervisor.notify_exit d after.supervisor pid in
      let (paths, more) =
        notify_paths d n (n.iter after.path_supervisors) pid after.path_supervisors in
      let unlinked = record after {
        supervisor = (Supervisor.linked_pids d notified pid).0;
        path_supervisors = paths;
        slab = (Pid.deallocate after.slab pid).0;
      } in
      subst
        (λ k.
          exit_parts k pid (exit_info pid res) to_unmap rt
          ≡ ((exit_actor rt pid res).0, over, (exit_actor rt pid res).1))
        (parts (length (peers d notified.links pid)))
        (ap (λ x. (x.0, x.1, map (λ t. (none, t)) tasks ++ (more ++ x.2)))
            (signals_parts (peers d notified.links pid) unlinked pid (exit_info pid res))
          ∙ ap (λ l. (signal (peers d notified.links pid) (exit_info pid res) unlinked, over, l))
              (ap (λ l. map (λ t. (none, t)) tasks ++ l) (append-nil more)))

  -- The signals that are left to send once the links are taken go to the peers of the actor; when a
  -- restart task of the actor succeeds before that, there are none, whatever was linked to it.
  pub exit_part-attempt :
      (rt : Runtime c d n Factory) (t : Task Factory) (new_pid : Pid) (info : ExitInfo)
      → let restarted = record rt { supervisor = (attempt d rt.supervisor t (ok new_pid)).0 } in
        ((exit_part t.orig_pid info to_unlink rt).1
          ≡ to_signal (peers d rt.supervisor.links t.orig_pid))
        × ((exit_part t.orig_pid info to_unlink restarted).1 ≡ to_signal [])
  unfolding exit_part attempt Supervisor.linked_pids
  exit_part-attempt rt t new_pid info = (
    refl,
    ap to_signal (
        nothing_linked _
          (λ x. ground (arith, linked-remove_links d rt.supervisor.links t.orig_pid t.orig_pid x))),
  )
