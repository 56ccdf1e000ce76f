-- ===== src/Supervisor/Tests.antt =====
-- Runs of src/supervisor.rs over association lists, and its theorems at concrete supervisors.
use myrmidon.Base.{
  ℕ, count, ◌≡◌, refl, inr, true, false, List, [], ◌∷◌, map, ◌==◌, ==_iff, Result, ok, err, arith,
}
use myrmidon.Deps.DashMap.{DashMap, assoc_map}
use myrmidon.Supervisor.{
  ChildSpec, restart_one, restart_all, Supervisor, new, add_child, remove_child, unlink, watch,
  link, push_link, linked_pids, unwatch, contains_child, child_pids, children_count, start_task,
  notify_exit, attempt, run_task,
}
use myrmidon.Supervisor.Links.{linked}
use myrmidon.Supervisor.System.{World, Step, Reach, Reach-IsSymmetric, push_link-linked_pids}
use myrmidon.Supervisor.Restart.{Exit, notify_exit-Exit, notify_exit_debounced}
use myrmidon.Supervisor.Attempts.{Ended, verdict, run_task-Ended, watch-lost}

program : Unit {0}
unfolding new add_child remove_child unlink watch link push_link linked_pids unwatch contains_child
    child_pids children_count notify_exit attempt run_task
program = tt

abbrev d : DashMap ℕ ◌==◌
d = assoc_map ℕ ◌==◌ ==_iff

abbrev spec_one : ChildSpec ℕ
spec_one = record { factory = 0; strategy = restart_one }

abbrev spec_all : ChildSpec ℕ
spec_all = record { factory = 0; strategy = restart_all }

-- Two children, the first restarts all, and three links of which one is double.
abbrev family : Supervisor d ℕ
family = record {
  children = (1, spec_all) ∷ (2, spec_one) ∷ [];
  errors = [];
  links = (1, 2 ∷ 2 ∷ 3 ∷ []) ∷ (2, 1 ∷ 1 ∷ []) ∷ (3, 1 ∷ []) ∷ [];
  restarting = [];
}

exit_signals :
    (map (λ t. t.orig_pid) (notify_exit d family 1).1 ≡ 1 ∷ 2 ∷ [])
    × ((linked_pids d family 1).1 ≡ 2 ∷ 2 ∷ 3 ∷ [])
    × (children_count d (remove_child d family 2) ≡ 1)
    × (child_pids d (unwatch d family 1) ≡ 2 ∷ [])
unfolding program
exit_signals = (refl, refl, refl, refl)

abbrev calm : World d ℕ
calm = record { sup = new d; tasks = [] }

abbrev two_linked : World d ℕ
two_linked = record calm { sup = link d (new d) 1 2 }

linked-Reach : Reach d ℕ two_linked
linked-Reach = Reach.later {v = calm} Reach.start (Step.links 1 2)

not_linked : linked d two_linked.sup.links 1 3 ≡ 0
unfolding program
not_linked = refl

push_link-linked_pids_example :
    let half = push_link d two_linked.sup 1 3 in
    let overlapped = push_link d (linked_pids d half 1).0 3 1 in
    let whole = (linked_pids d (link d two_linked.sup 1 3) 1).0 in
    (count 3 (linked_pids d half 1).1 ≡ 1)
    × (linked d overlapped.links 1 3 ≡ 0)
    × (linked d overlapped.links 3 1 ≡ 1)
    × (linked d whole.links 1 3 ≡ 0)
    × (linked d whole.links 3 1 ≡ 0)
push_link-linked_pids_example =
    push_link-linked_pids d ℕ two_linked.sup 1 3 refl (Reach-IsSymmetric d ℕ linked-Reach)
      not_linked

notify_exit-Exit_example :
    Exit d family 1 (notify_exit d family 1)
    × ((notify_exit d family 1).0.children ≡ family.children)
    × ((notify_exit d family 1).0.links ≡ family.links)
    × ((notify_exit d family 1).0.errors ≡ family.errors)
notify_exit-Exit_example = notify_exit-Exit d family 1

notify_exit_debounced_example : (notify_exit d (notify_exit d family 1).0 2).1 ≡ []
unfolding program
notify_exit_debounced_example =
    notify_exit_debounced d family 1 2 (inr (spec_all, refl, refl, refl, refl))

-- One failure, then an actor.
abbrev answers : List (Result ℕ (List ℕ))
answers = err (7 ∷ []) ∷ ok 9 ∷ err [] ∷ []

run_task-Ended_example :
    Ended d family
      (start_task d 2 spec_one)
      (run_task d family (start_task d 2 spec_one) answers)
      (verdict 3 answers)
run_task-Ended_example = run_task-Ended d family 2 spec_one answers (omega arith)

watch-lost_example :
    let watched = watch d family (λ p. p) 5 in
    let spec : ChildSpec ℕ = record { factory = 5; strategy = restart_one } in
    let (after, spawned) = notify_exit d watched 5 in
    (contains_child d watched 5 ≡ true)
    × (spawned ≡ start_task d 5 spec ∷ [])
    × (contains_child d (attempt d after (start_task d 5 spec) (ok 5)).0 5 ≡ false)
watch-lost_example = watch-lost d family (λ p. p) 5 refl
