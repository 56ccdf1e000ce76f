-- ===== src/Supervisor/Attempts.antt =====
-- A restart task of src/supervisor.rs, whole: at most three attempts, and what they leave.
use myrmidon.Base.{
  ◌&&◌, ℕ, zero, suc, ◌+◌, ◌≤◌, ◌≡◌, refl, sym, ap, ◌∙◌, true, false, not, Option, none, some, List,
  [], ◌∷◌, ◌++◌, ◌==◌, if◌then◌else◌, arith, Result, ok, err, leb, length,
}
use myrmidon.Deps.DashMap.{DashMap}
use myrmidon.Supervisor.{
  Pid, Text, ChildSpec, restart_one, Task, Supervisor, is_some, remove_links, watch, notify_exit,
  start_task, attempt, failed, finish, run_task, contains_child, saturating_double,
}
use mathlib.Core.List.{append-nil, append_assoc}
use myrmidon.Supervisor.Restart.{is_restarting, restarts_one}

-- What the answers of a factory come to, with so many attempts left: the errors of the attempts that
-- failed, and the actor of the first that did not.
pub verdict : ℕ → List (Result Pid Text) → List Text × Option Pid
verdict zero answers = ([], none)
verdict (suc left) [] = ([], none)
verdict (suc left) (ok new_pid ∷ answers) = ([], some new_pid)
verdict (suc left) (err e ∷ answers) =
    let (errors, result) = verdict left answers in (e ∷ errors, result)

module _ (d : DashMap ℕ ◌==◌) {Factory : Type 0} where
  -- The actor that exited has left the links and is restarting no more.
  abbrev pub Dropped : Supervisor d Factory → Supervisor d Factory → Pid → Type 0
  Dropped s after pid =
      (q : Pid)
      → (is_restarting d after q ≡ (not (pid == q) && is_restarting d s q))
        × (after.links ≡ remove_links d s.links pid)

  finish_lem :
      (s : Supervisor d Factory) (pid : Pid) (children : d.Map (ChildSpec Factory))
      → Dropped s (finish d s pid children) pid
        × ((q : Pid)
            → d.get (finish d s pid children).children q
              ≡ (if pid == q then none else d.get children q))
        × ((finish d s pid children).errors ≡ s.errors)
  unfolding finish
  finish_lem s pid children = (
    λ q. (ground (arith, d.get-remove s.restarting pid q), refl),
    λ q. d.get-remove children pid q,
    refl,
  )

  -- The children after a restart: the actor that exited is none, the new one has its spec.
  abbrev pub replaced :
      Supervisor d Factory → Pid → ChildSpec Factory → Option Pid → Pid → Option (ChildSpec Factory)
  replaced s pid spec none q = if pid == q then none else d.get s.children q
  replaced s pid spec (some new_pid) q =
      if pid == q then none else (if new_pid == q then some spec else d.get s.children q)

  abbrev pub Ended :
      Supervisor d Factory
      → Task Factory
      → Supervisor d Factory × Option (Task Factory)
      → List Text × Option Pid
      → Type 0
  Ended s t r v =
      (r.1 ≡ none)
      × (r.0.errors ≡ s.errors ++ v.0)
      × Dropped s r.0 t.orig_pid
      × ((q : Pid) → d.get r.0.children q ≡ replaced s t.orig_pid t.spec v.1 q)

  module _ (s : Supervisor d Factory) (t : Task Factory) (e : Text)
      (answers : List (Result Pid Text)) where
    abbrev reported : Supervisor d Factory
    reported = record s { errors = s.errors ++ e ∷ [] }

    abbrev again : Task Factory
    again = record t { attempts = t.attempts + 1; backoff_ms = saturating_double t.backoff_ms }

    gives_up :
        leb 3 (t.attempts + 1) ≡ true
        → run_task d s t (err e ∷ answers) ≡ (finish d reported t.orig_pid s.children, none)
    unfolding run_task attempt failed
    gives_up last = ground arith

    goes_on :
        leb 3 (t.attempts + 1) ≡ false
        → run_task d s t (err e ∷ answers) ≡ run_task d reported again answers
    unfolding run_task attempt failed
    goes_on more = ground arith

  run_lem :
      (left : ℕ) (s : Supervisor d Factory) (t : Task Factory) (answers : List (Result Pid Text))
      → t.attempts + suc left ≡ 3
      → suc left ≤ length answers
      → Ended s t (run_task d s t answers) (verdict (suc left) answers)
  unfolding run_task verdict attempt finish
  run_lem left s t [] h lt = elim lt [ ]
  run_lem left s t (ok new_pid ∷ answers) h lt = (
    refl,
    sym (append-nil s.errors),
    λ q. (ground (arith, d.get-remove s.restarting t.orig_pid q), refl),
    λ q. ground (
      arith,
      d.get-remove (d.insert s.children new_pid t.spec) t.orig_pid q,
      d.get-insert s.children new_pid t.spec q,
    ),
  )
  run_lem zero s t (err e ∷ answers) h lt =
      let last : leb 3 (t.attempts + 1) ≡ true = ground arith in
      let (dropped, children, errors) = finish_lem (reported s t e answers) t.orig_pid s.children in
      rw (gives_up s t e answers last) (refl, errors, dropped, children)
  run_lem (suc left) s t (err e ∷ answers) h lt =
      let more : leb 3 (t.attempts + 1) ≡ false = ground arith in
      let (none_left, errors, dropped, children) =
        run_lem left (reported s t e answers) (again s t e answers) answers (ground arith)
          (ground arith) in
      rw (goes_on s t e answers more)
        (none_left, errors ∙ append_assoc s.errors (e ∷ []) _, dropped, children)

  -- A restart task whose factory gives at least three answers ends, whatever they are. Its errors
  -- are those of the attempts before the first that succeeds, in order, at most three. The actor
  -- that exited leaves the links, the marks and, last, the children; the actor that succeeded, if
  -- any, has its spec.
  pub run_task-Ended :
      (s : Supervisor d Factory) (pid : Pid) (spec : ChildSpec Factory)
      (answers : List (Result Pid Text))
      → 3 ≤ length answers
      → Ended s
          (start_task d pid spec)
          (run_task d s (start_task d pid spec) answers)
          (verdict 3 answers)
  unfolding start_task
  run_task-Ended s pid spec answers lt = run_lem 2 s (start_task d pid spec) answers refl lt

  -- A watched actor that is idle and whose factory answers its own pid, as the factory of `watch`
  -- does, is a child no more after its exit and the one attempt of its task.
  pub watch-lost :
      (s : Supervisor d Factory) (same_pid : Pid → Factory) (pid : Pid)
      → is_restarting d s pid ≡ false
      → let watched = watch d s same_pid pid in
        let spec : ChildSpec Factory = record { factory = same_pid pid; strategy = restart_one } in
        let (after, spawned) = notify_exit d watched pid in
        (contains_child d watched pid ≡ true)
        × (spawned ≡ start_task d pid spec ∷ [])
        × (contains_child d (attempt d after (start_task d pid spec) (ok pid)).0 pid ≡ false)
  unfolding watch contains_child attempt start_task
  watch-lost s same_pid pid idle =
      let spec : ChildSpec Factory = record { factory = same_pid pid; strategy = restart_one } in
      let watched = watch d s same_pid pid in
      let known : d.get watched.children pid ≡ some spec =
        ground (arith, d.get-insert s.children pid spec pid) in
      let (tasks, marks) = restarts_one d watched pid spec idle known refl in
      let after = (notify_exit d watched pid).0 in
      let children = d.insert after.children pid spec in
      let (dropped, left, errors) = finish_lem after pid children in
      (ground arith, tasks, ap is_some (left pid) ∙ ground arith)
