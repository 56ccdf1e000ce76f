-- ===== src/Runtime/Exit.antt =====
-- The exit of an actor in src/lib.rs, whole.
use myrmidon.Base.{
  ℕ, ◌%◌, ◌^◌, ◌<◌, ◌≡◌, refl, ap, ◌∙◌, inl, inr, true, false, not, ◌&&◌, none, some, ◌++◌, ◌==◌,
  if◌then◌else◌, err, same_text, replicate, count, arith, Option-cases, get_elem?-set,
}
use myrmidon.Deps.DashMap.{DashMap}
use myrmidon.Deps.Mpsc.{Mpsc}
use myrmidon.Pid
use myrmidon.Pid.Invariant.{deallocate-IsWf}
use myrmidon.Pid.Validity.{deallocate-is_valid}
use myrmidon.Mailbox.{Mailbox}
use myrmidon.Mailbox.Messages.{SystemMessage, Message, system, ExitInfo}
use myrmidon.Mailbox.Contents.{pending_system, pending_user}
use myrmidon.Supervisor
use myrmidon.Supervisor.{Pid, Text, peers, remove_links}
use myrmidon.Supervisor.Restart.{notify_exit-Exit}
use myrmidon.Runtime.{
  Runtime, JoinResult, exit_reason, box_at, send, stop, closed, signal, exit_actor, is_alive,
  notify_paths,
}
use myrmidon.Runtime.Invariant.{IsWf, found, send_missing, removed-IsWf, stop_parts, stop-IsWf}
use myrmidon.Runtime.Signals.{
  signalled, signalled_lem, box_at-signal, box_at-signal_absent, signal_keeps, signal-IsWf,
}

abbrev pub exit_info : Pid → JoinResult → ExitInfo
exit_info pid res = record {
  from = pid;
  reason = (exit_reason res).0;
  metadata = (exit_reason res).1;
}

module _ {c : Mpsc} {d : DashMap ℕ ◌==◌} {n : DashMap Text same_text} {Factory : Type 0} where
  -- The runtime before the exit signals.
  before_signals : Runtime c d n Factory → Pid → Runtime c d n Factory
  before_signals rt pid =
      let removed = stop rt pid in
      record removed {
        supervisor =
            (Supervisor.linked_pids d (Supervisor.notify_exit d removed.supervisor pid).0 pid).0;
        path_supervisors =
            (notify_paths d n (n.iter removed.path_supervisors) pid removed.path_supervisors).0;
        slab = (Pid.deallocate removed.slab pid).0;
      }

  exit_splits :
      (rt : Runtime c d n Factory) (pid : Pid) (res : JoinResult)
      → (exit_actor rt pid res).0
        ≡ signal (peers d rt.supervisor.links pid) (exit_info pid res) (before_signals rt pid)
  unfolding exit_actor before_signals Supervisor.linked_pids
  exit_splits rt pid res =
      let (slab, supervisor, len, mailboxes) = stop_parts rt pid in
      let (exit, children, links, errors) = notify_exit-Exit d (stop rt pid).supervisor pid in
      ap (λ l. signal (peers d l pid) (exit_info pid res) (before_signals rt pid))
        (links ∙ ap (λ s. s.links) supervisor)

  before_signals-IsWf :
      (rt : Runtime c d n Factory) (pid : Pid)
      → pid < 2 ^ 64
      → IsWf rt
      → IsWf (before_signals rt pid)
  unfolding before_signals is_alive
  before_signals-IsWf rt pid small v =
      let v' = stop-IsWf rt pid v in
      let (slab, supervisor, len, mailboxes) = stop_parts rt pid in
      removed-IsWf (stop rt pid) (before_signals rt pid) pid v'
        (deallocate-IsWf (stop rt pid).slab pid v'.slab)
        (λ q ne fits alive. ground (arith, (deallocate-is_valid (stop rt pid).slab pid small).1 q))
        refl (λ q. rw mailboxes (ground (arith, d.get-remove rt.mailboxes pid q)))

  -- A mailbox other than the one of the actor that exits is as it was.
  box_at-stop :
      (rt : Runtime c d n Factory) (pid q : Pid)
      → IsWf rt
      → box_at (stop rt pid) q ≡ (if pid == q then none else box_at rt q)
  unfolding stop box_at
  box_at-stop rt pid q v =
      let at = d.get-remove rt.mailboxes pid q in
      elim (Option-cases (box_at rt pid)) [
        | inl e ↦ rw (e, stop) (ground (arith, at))
        | inr ((i, m), e) ↦
            let (f, g) = found rt pid i m e in
            rw (e, stop)
              (elim (Option-cases (d.get rt.mailboxes q)) [
                | inl none_at ↦ ground (arith, at)
                | inr (j, h) ↦
                    ground (arith, at, v.separate pid q j, get_elem?-set rt.boxes i j (closed c m))
              ])
      ]

  box_at-before :
      (rt : Runtime c d n Factory) (pid q : Pid)
      → IsWf rt
      → box_at (before_signals rt pid) q ≡ (if pid == q then none else box_at rt q)
  unfolding before_signals box_at
  box_at-before rt pid q v = box_at-stop rt pid q v

  alive_before :
      (rt : Runtime c d n Factory) (pid q : Pid)
      → pid < 2 ^ 64
      → Pid.is_valid (before_signals rt pid).slab q ≡ (is_alive rt q && not (pid == q % 2 ^ 64))
  unfolding before_signals is_alive
  alive_before rt pid q small =
      let (slab, supervisor, len, mailboxes) = stop_parts rt pid in
      rw slab ((deallocate-is_valid rt.slab pid small).1 q)

  -- On a well-formed runtime, the exit of an actor, with an identifier below 2 ^ 64, makes it the
  -- one that is alive no more (an identifier counts by its 64 low bits); what is sent to it comes
  -- back, and the runtime is well formed again.
  pub exit_actor-is_alive :
      (rt : Runtime c d n Factory) (pid q : Pid) (res : JoinResult) (msg : Message)
      → IsWf rt
      → pid < 2 ^ 64
      → let after = (exit_actor rt pid res).0 in
        IsWf after
        × (is_alive after q ≡ (is_alive rt q && not (pid == q % 2 ^ 64)))
        × ((send after pid msg).1 ≡ err msg)
  unfolding is_alive
  exit_actor-is_alive rt pid q res msg v small =
      let (removed_slab, removed_supervisor, len, mailboxes) = stop_parts rt pid in
      let w = before_signals-IsWf rt pid small v in
      let linked = peers d rt.supervisor.links pid in
      let info = exit_info pid res in
      let (slab, supervisor) = signal_keeps linked info (before_signals rt pid) in
      let gone : box_at (signal linked info (before_signals rt pid)) pid ≡ none =
        box_at-signal_absent linked info (before_signals rt pid) pid w
          (box_at-before rt pid pid v ∙ ground arith) in
      rw (exit_splits rt pid res) (
        signal-IsWf linked info (before_signals rt pid) w,
        ap (λ t. Pid.is_valid t q) slab ∙ alive_before rt pid q small,
        ap (λ r. r.1) (send_missing (signal linked info (before_signals rt pid)) pid msg gone),
      )

  -- On a well-formed runtime an exit reaches every other actor that has a mailbox, still reads it
  -- and has a counter below 2 ^ 64: one exit signal for each link, with the identifier, reason and
  -- metadata of the exit, behind the system messages that waited; its user messages are as they
  -- were. An actor without a link gets none.
  pub exit_actor-signals :
      (rt : Runtime c d n Factory) (pid q : Pid) (res : JoinResult) (i : ℕ) (m : Mailbox c)
      → IsWf rt
      → pid < 2 ^ 64
      → (pid == q) ≡ false
      → box_at rt q ≡ some (i, m)
      → m.counter < 2 ^ 64
      → (c.state m.to_sys).has_receiver ≡ true
      → (m' : Mailbox c) × (box_at (exit_actor rt pid res).0 q ≡ some (i, m'))
        × (pending_system c m'
            ≡ pending_system c m
              ++ replicate
                  (count q (peers d rt.supervisor.links pid))
                  (system (SystemMessage.exit (exit_info pid res))))
        × (pending_user c m' ≡ pending_user c m)
  exit_actor-signals rt pid q res i m v small ne e fits live =
      let k = count q (peers d rt.supervisor.links pid) in
      let msg = SystemMessage.exit (exit_info pid res) in
      let (sys, usr, counter) = signalled_lem c k msg m fits live in
      (
        signalled c k (system msg) m,
        rw (exit_splits rt pid res) (
            box_at-signal (peers d rt.supervisor.links pid) (exit_info pid res)
              (before_signals rt pid) q i m (before_signals-IsWf rt pid small v)
              (box_at-before rt pid q v ∙ rw ne e)),
        sys,
        usr,
      )
