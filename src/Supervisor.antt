-- ===== src/Supervisor.antt =====
-- src/supervisor.rs: children with a strategy for their restart, links between actors, and the
-- tasks that restart. A map call is one step. A restart task is a value that each attempt steps; what
-- a factory answers is an argument, since factories are the caller's code.
use mathlib.Core.Option
use myrmidon.Base.{
  ℕ, zero, suc, ◌+◌, ◌-◌, ◌*◌, ◌^◌, Bool, true, false, not, Option, none, some, List, [], ◌∷◌, ◌++◌,
  map, ◌==◌, leb, if◌then◌else◌, Result, ok, err, length, keep,
}
use myrmidon.Deps.DashMap.{DashMap}
use Prim.Native.Nat.{min}
pub mod Links
pub mod Restart
pub mod Attempts
pub mod System
mod Tests

abbrev pub Pid : Type 0
Pid = ℕ

abbrev pub Text : Type 0
Text = List ℕ

pub data RestartStrategy : Type 0 where
  restart_one restart_all : RestartStrategy

-- `factory` names the closure.
pub record ChildSpec (Factory : Type 0) : Type 0 where
  pub factory : Factory
  pub strategy : RestartStrategy

-- The closure's loop state: the child that exited, its spec, the attempts made, the next pause.
pub record Task (Factory : Type 0) : Type 0 where
  pub orig_pid : Pid
  pub spec : ChildSpec Factory
  pub attempts : ℕ
  pub backoff_ms : ℕ

pub record Supervisor (d : DashMap ℕ ◌==◌) (Factory : Type 0) : Type 0 where
  pub children : d.Map (ChildSpec Factory)
  pub errors : List Text
  pub links : d.Map (List Pid)
  pub restarting : d.Map (Unit {0})

abbrev pub max_attempts : ℕ
max_attempts = 3

-- `backoff_ms.saturating_mul(2)` on `u64`.
abbrev pub saturating_double : ℕ → ℕ
saturating_double n = min (n * 2) (2 ^ 64 - 1)

abbrev pub is_some {ℓ} : {A : Type ℓ} → Option A → Bool
is_some none = false
is_some (some a) = true

module _ (d : DashMap ℕ ◌==◌) where
  abbrev pub peers : d.Map (List Pid) → Pid → List Pid
  peers links a = elim (d.get links a) [ none ↦ [] | some l ↦ l ]

  -- `get_mut(&a)`, then `retain(|&p| p != b)`.
  pub retain_peers : d.Map (List Pid) → Pid → Pid → d.Map (List Pid)
  retain_peers links a b = elim (d.get links a) [
    | none ↦ links
    | some l ↦ d.insert links a (keep (λ p. not (p == b)) l)
  ]

  -- `entry(a).or_insert_with(Vec::new).push(b)`
  pub push_peer : d.Map (List Pid) → Pid → Pid → d.Map (List Pid)
  push_peer links a b = d.insert links a (peers links a ++ b ∷ [])

  -- The loop over the peers of an actor that is gone.
  pub forget : List Pid → Pid → d.Map (List Pid) → d.Map (List Pid)
  forget [] pid links = links
  forget (peer ∷ more) pid links = forget more pid (retain_peers links peer pid)

  -- The link part of `linked_pids`, of `cleanup_links_internal` and of the restart tasks.
  pub remove_links : d.Map (List Pid) → Pid → d.Map (List Pid)
  remove_links links pid = elim (d.get links pid) [
    | none ↦ d.remove links pid
    | some linked_peers ↦ forget linked_peers pid (d.remove links pid)
  ]

  module _ {Factory : Type 0} where
    unfoldable pub new : Supervisor d Factory
    new = record { children = d.new; errors = []; links = d.new; restarting = d.new }

    unfoldable pub add_child : Supervisor d Factory → Pid → ChildSpec Factory → Supervisor d Factory
    add_child s pid spec = record s { children = d.insert s.children pid spec }

    unfoldable pub remove_child : Supervisor d Factory → Pid → Supervisor d Factory
    unfolding remove_links
    remove_child s pid = record s {
      children = d.remove s.children pid;
      restarting = d.remove s.restarting pid;
      links = remove_links s.links pid;
    }

    unfoldable pub unlink : Supervisor d Factory → Pid → Pid → Supervisor d Factory
    unfolding retain_peers
    unlink s a b = record s { links = retain_peers (retain_peers s.links a b) b a }

    -- `same_pid` is the closure that `watch` makes: it answers `pid`.
    unfoldable pub watch : Supervisor d Factory → (Pid → Factory) → Pid → Supervisor d Factory
    watch s same_pid pid = record s {
      children =
          d.insert s.children pid (record { factory = same_pid pid; strategy = restart_one });
    }

    -- One of the two statements of `link`, each a call of the map of its own.
    unfoldable pub push_link : Supervisor d Factory → Pid → Pid → Supervisor d Factory
    unfolding push_peer
    push_link s a b = record s { links = push_peer s.links a b }

    -- With nothing between the two.
    unfoldable pub link : Supervisor d Factory → Pid → Pid → Supervisor d Factory
    unfolding push_link
    link s a b = push_link (push_link s a b) b a

    unfoldable pub linked_pids : Supervisor d Factory → Pid → Supervisor d Factory × List Pid
    unfolding remove_links
    linked_pids s pid = (record s { links = remove_links s.links pid }, peers s.links pid)

    unfoldable pub unwatch : Supervisor d Factory → Pid → Supervisor d Factory
    unwatch s pid = record s {
      children = d.remove s.children pid;
      restarting = d.remove s.restarting pid;
    }

    unfoldable pub contains_child : Supervisor d Factory → Pid → Bool
    contains_child s pid = is_some (d.get s.children pid)

    unfoldable pub child_pids : Supervisor d Factory → List Pid
    child_pids s = map (λ kv. kv.0) (d.iter s.children)

    unfoldable pub children_count : Supervisor d Factory → ℕ
    children_count s = length (d.iter s.children)

    -- The loop that marks the whole group.
    mark : List (Pid × ChildSpec Factory) → d.Map (Unit {0}) → d.Map (Unit {0})
    mark [] restarting = restarting
    mark ((p, _) ∷ all) restarting = mark all (d.insert restarting p tt)

    pub start_task : Pid → ChildSpec Factory → Task Factory
    start_task pid spec = record { orig_pid = pid; spec = spec; attempts = 0; backoff_ms = 100 }

    -- The supervisor that the call leaves, and the tasks that it spawns.
    by_strategy :
        Supervisor d Factory
        → Pid
        → ChildSpec Factory
        → RestartStrategy
        → Supervisor d Factory × List (Task Factory)
    by_strategy s pid spec restart_all =
        let all = d.iter s.children in
        (record s { restarting = mark all s.restarting }, map (λ kv. start_task kv.0 kv.1) all)
    by_strategy s pid spec restart_one = (s, start_task pid spec ∷ [])

    unfoldable pub notify_exit :
        Supervisor d Factory → Pid → Supervisor d Factory × List (Task Factory)
    unfolding by_strategy start_task mark
    notify_exit s pid = elim (d.get s.restarting pid) [
      | some _ ↦ (s, [])
      | none ↦
          let marked = record s { restarting = d.insert s.restarting pid tt } in
          elim (d.get s.children pid) [
            | none ↦ (record marked { restarting = d.remove marked.restarting pid }, [])
            | some spec ↦ by_strategy marked pid spec spec.strategy
          ]
    ]

    -- The end of a task, on success and after the last failure.
    finish : Supervisor d Factory → Pid → d.Map (ChildSpec Factory) → Supervisor d Factory
    finish s pid children = record s {
      children = d.remove children pid;
      links = remove_links s.links pid;
      restarting = d.remove s.restarting pid;
    }

    failed :
        Supervisor d Factory → Task Factory → Text → Supervisor d Factory × Option (Task Factory)
    failed s t e =
        let s' = record s { errors = s.errors ++ e ∷ [] } in
        if leb max_attempts (t.attempts + 1) then (finish s' t.orig_pid s'.children, none) else (
          s',
          some
              (record t { attempts = t.attempts + 1; backoff_ms = saturating_double t.backoff_ms }),
        )

    -- One round of the loop of a restart task, with the answer of the factory. A task that goes on
    -- sleeps for `t.backoff_ms` first.
    unfoldable pub attempt :
        Supervisor d Factory
        → Task Factory
        → Result Pid Text
        → Supervisor d Factory × Option (Task Factory)
    unfolding failed finish
    attempt s t (ok new_pid) = (finish s t.orig_pid (d.insert s.children new_pid t.spec), none)
    attempt s t (err e) = failed s t e

    -- A task left to itself, over the answers that its factory gives.
    unfoldable pub run_task :
        Supervisor d Factory
        → Task Factory
        → List (Result Pid Text)
        → Supervisor d Factory × Option (Task Factory)
    unfolding attempt
    run_task s t [] = (s, some t)
    run_task s t (answer ∷ answers) =
        let (s', goes_on) = attempt s t answer in
        elim goes_on [ none ↦ (s', none) | some t' ↦ run_task s' t' answers ]
