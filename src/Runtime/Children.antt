-- ===== src/Runtime/Children.antt =====
-- The calls of src/lib.rs on its supervisor and its registry that pass straight on, and `wait`.
use mathlib.Core.Option
use myrmidon.Base.{ℕ, Option, none, some, List, [], ◌∷◌, ◌==◌, if◌then◌else◌, same_text}
use myrmidon.Deps.DashMap.{DashMap}
use myrmidon.Deps.Mpsc.{Mpsc}
use myrmidon.Registry
use myrmidon.Supervisor
use myrmidon.Supervisor.{Pid, Text, ChildSpec, RestartStrategy}
use myrmidon.Runtime.{Runtime, is_alive, spawn_observed_handler}
use myrmidon.Runtime.Names.{register}

module _ {c : Mpsc} {d : DashMap ℕ ◌==◌} {n : DashMap Text same_text} {Factory : Type 0} where
  unfoldable pub list_children : Runtime c d n Factory → Text → List (Text × Pid)
  list_children rt prefix = Registry.list_children n rt.registry prefix

  unfoldable pub supervise :
      Runtime c d n Factory → Pid → Factory → RestartStrategy → Runtime c d n Factory
  supervise rt pid factory strategy = record rt {
    supervisor =
        Supervisor.add_child d rt.supervisor pid
          (record { factory = factory; strategy = strategy });
  }

  unfoldable pub link : Runtime c d n Factory → Pid → Pid → Runtime c d n Factory
  link rt a b = record rt { supervisor = Supervisor.link d rt.supervisor a b }

  unfoldable pub unlink : Runtime c d n Factory → Pid → Pid → Runtime c d n Factory
  unlink rt a b = record rt { supervisor = Supervisor.unlink d rt.supervisor a b }

  unfoldable pub spawn_with_path_observed :
      Runtime c d n Factory → Text → Option (Runtime c d n Factory × Pid × ℕ)
  spawn_with_path_observed rt path =
      Option.map (λ (after, pid, i). (register after path pid, pid, i)) (spawn_observed_handler rt)

  -- `wait`, with the runtime at each look; `none` says that the actor was alive at all of them.
  unfoldable pub wait : Pid → List (Runtime c d n Factory) → Option (Unit {0})
  wait pid [] = none
  wait pid (rt ∷ looks) = let later = wait pid looks in if is_alive rt pid then later else some tt
