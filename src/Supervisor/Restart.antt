-- ===== src/Supervisor/Restart.antt =====
-- `notify_exit` of src/supervisor.rs and its restart tasks.
use myrmidon.Base.{
  ◌||◌, ℕ, ◌≡◌, refl, ap, ◌∙◌, ◌⊎◌, inl, inr, Bool, true, false, none, some, List, [], ◌∷◌, map,
  ◌==◌, find, arith, Option-cases, Bool-cases, subst,
}
use myrmidon.Deps.DashMap.{DashMap}
use myrmidon.Supervisor.{
  Pid, ChildSpec, RestartStrategy, restart_one, restart_all, Task, Supervisor, is_some, notify_exit,
  by_strategy, start_task, mark, contains_child,
}

strategy-cases : (r : RestartStrategy) → (r ≡ restart_one) ⊎ (r ≡ restart_all)
strategy-cases restart_one = inl refl
strategy-cases restart_all = inr refl

module _ (d : DashMap ℕ ◌==◌) {Factory : Type 0} where
  abbrev pub is_restarting : Supervisor d Factory → Pid → Bool
  is_restarting s pid = is_some (d.get s.restarting pid)

  -- Whether an entry has the key.
  abbrev pub has_key : Pid → List (Pid × ChildSpec Factory) → Bool
  has_key p m = is_some (find ◌==◌ p m)

  mark_lem :
      (all : List (Pid × ChildSpec Factory)) (m : d.Map (Unit {0})) (p : Pid)
      → is_some (d.get (mark d all m) p) ≡ (has_key p all || is_some (d.get m p))
  unfolding mark
  mark_lem [] m p = refl
  mark_lem ((q, spec) ∷ all) m p =
      ground (arith, mark_lem all (d.insert m q tt) p, d.get-insert m q tt p)

  module _ (s : Supervisor d Factory) (pid : Pid) where
    exit_again : {u : Unit {0}} → d.get s.restarting pid ≡ some u → notify_exit d s pid ≡ (s, [])
    unfolding notify_exit
    exit_again e = ground arith

    exit_unknown :
        d.get s.restarting pid ≡ none
        → d.get s.children pid ≡ none
        → notify_exit d s pid
          ≡ (record s { restarting = d.remove (d.insert s.restarting pid tt) pid }, [])
    unfolding notify_exit
    exit_unknown e f = ground arith

    exit_known :
        {spec : ChildSpec Factory}
        → d.get s.restarting pid ≡ none
        → d.get s.children pid ≡ some spec
        → notify_exit d s pid
          ≡ by_strategy d
              (record s { restarting = d.insert s.restarting pid tt })
              pid
              spec
              spec.strategy
    unfolding notify_exit
    exit_known e f = ground arith

  notify_exit_keeps :
      (s : Supervisor d Factory) (pid : Pid)
      → let after = (notify_exit d s pid).0 in
        (after.children ≡ s.children) × (after.links ≡ s.links) × (after.errors ≡ s.errors)
  unfolding notify_exit
  notify_exit_keeps s pid = (ground arith, ground arith, ground arith)

  not_restarting :
      (s : Supervisor d Factory) (pid : Pid)
      → is_restarting s pid ≡ false
      → d.get s.restarting pid ≡ none
  not_restarting s pid h = ground arith

  ignored :
      (s : Supervisor d Factory) (pid : Pid)
      → (is_restarting s pid ≡ true) ⊎ (d.get s.children pid ≡ none)
      → ((notify_exit d s pid).1 ≡ [])
        × ((p : Pid) → is_restarting (notify_exit d s pid).0 p ≡ is_restarting s p)
  ignored s pid h = elim (Option-cases (d.get s.restarting pid)) [
    | inr (u, e) ↦ rw (exit_again s pid e) (refl, λ p. refl)
    | inl e ↦ elim h [
      | inl busy ↦ absurd (ground arith)
      | inr f ↦ rw (exit_unknown s pid e f) (
        refl,
        λ p. ground (
          arith,
          d.get-remove (d.insert s.restarting pid tt) pid p,
          d.get-insert s.restarting pid tt p,
        ),
      )
    ]
  ]

  module _ (s : Supervisor d Factory) (pid : Pid) (spec : ChildSpec Factory)
      (idle : is_restarting s pid ≡ false) (known : d.get s.children pid ≡ some spec) where
    pub restarts_one :
        spec.strategy ≡ restart_one
        → ((notify_exit d s pid).1 ≡ start_task d pid spec ∷ [])
          × ((p : Pid) → is_restarting (notify_exit d s pid).0 p ≡ (pid == p || is_restarting s p))
    unfolding by_strategy
    restarts_one e =
        rw (exit_known s pid (not_restarting s pid idle) known, e)
          (refl, λ p. ground (arith, d.get-insert s.restarting pid tt p))

    restarts_all :
        spec.strategy ≡ restart_all
        → ((notify_exit d s pid).1 ≡ map (λ kv. start_task d kv.0 kv.1) (d.iter s.children))
          × ((p : Pid)
              → is_restarting (notify_exit d s pid).0 p
                ≡ (contains_child d s p || is_restarting s p))
    unfolding by_strategy contains_child
    restarts_all e =
        rw (exit_known s pid (not_restarting s pid idle) known, e)
          (
            refl,
            λ p. ground (
              arith,
              mark_lem (d.iter s.children) (d.insert s.restarting pid tt) p,
              d.get-insert s.restarting pid tt p,
              d.find-iter s.children p,
            ),
          )

  -- What an exit signal comes to, with the supervisor after it and the tasks that it spawns.
  pub data Exit (s : Supervisor d Factory) (pid : Pid)
      (r : Supervisor d Factory × List (Task Factory)) : Type 0 where
    nothing :
        (is_restarting s pid ≡ true) ⊎ (d.get s.children pid ≡ none)
        → r.1 ≡ []
        → ((p : Pid) → is_restarting r.0 p ≡ is_restarting s p)
        → Exit s pid r
    one :
        (spec : ChildSpec Factory)
        → is_restarting s pid ≡ false
        → d.get s.children pid ≡ some spec
        → spec.strategy ≡ restart_one
        → r.1 ≡ start_task d pid spec ∷ []
        → ((p : Pid) → is_restarting r.0 p ≡ (pid == p || is_restarting s p))
        → Exit s pid r
    group :
        (spec : ChildSpec Factory)
        → is_restarting s pid ≡ false
        → d.get s.children pid ≡ some spec
        → spec.strategy ≡ restart_all
        → r.1 ≡ map (λ kv. start_task d kv.0 kv.1) (d.iter s.children)
        → ((p : Pid) → is_restarting r.0 p ≡ (contains_child d s p || is_restarting s p))
        → Exit s pid r

  Exit-cases : (s : Supervisor d Factory) (pid : Pid) → Exit s pid (notify_exit d s pid)
  Exit-cases s pid = elim (Bool-cases (is_restarting s pid)) [
    | inl busy ↦ let (e, marks) = ignored s pid (inl busy) in nothing (inl busy) e marks
    | inr idle ↦ elim (Option-cases (d.get s.children pid)) [
      | inl f ↦ let (e, marks) = ignored s pid (inr f) in nothing (inr f) e marks
      | inr (spec, known) ↦ elim (strategy-cases spec.strategy) [
        | inl h ↦
            let (e, marks) = restarts_one s pid spec idle known h in one spec idle known h e marks
        | inr h ↦
            let (e, marks) = restarts_all s pid spec idle known h in group spec idle known h e marks
      ]
    ]
  ]

  -- What `notify_exit` does is told by the marks and by the child's spec, and it leaves children,
  -- links and errors alone. A restart in progress, or no spec: nothing is spawned and the marks stay.
  -- Else, with the strategy for one: one task, and the child is marked. With the strategy for all: a
  -- task for each child, and all are marked, those too whose restart was in progress already.
  pub notify_exit-Exit :
      (s : Supervisor d Factory) (pid : Pid)
      → Exit s pid (notify_exit d s pid)
        × ((notify_exit d s pid).0.children ≡ s.children)
        × ((notify_exit d s pid).0.links ≡ s.links)
        × ((notify_exit d s pid).0.errors ≡ s.errors)
  notify_exit-Exit s pid =
      let (children, links, errors) = notify_exit_keeps s pid in
      (Exit-cases s pid, children, links, errors)

  settled :
      (s : Supervisor d Factory) (pid : Pid)
      → let after = (notify_exit d s pid).0 in
        (is_restarting after pid ≡ true) ⊎ (d.get after.children pid ≡ none)
  unfolding contains_child
  settled s pid = elim (Bool-cases (is_restarting s pid)) [
    | inl busy ↦ inl ((ignored s pid (inl busy)).1 pid ∙ busy)
    | inr idle ↦ elim (Option-cases (d.get s.children pid)) [
      | inl f ↦ inr (ap (λ m. d.get m pid) (notify_exit_keeps s pid).0 ∙ f)
      | inr (spec, known) ↦ elim (strategy-cases spec.strategy) [
        | inl e ↦ inl ((restarts_one s pid spec idle known e).1 pid ∙ ground arith)
        | inr e ↦ inl ((restarts_all s pid spec idle known e).1 pid ∙ ground arith)
      ]
    ]
  ]

  -- A second exit signal of the same actor spawns nothing: the first either marked it or found no
  -- child; nor does, after a restart of all, the signal of any child.
  pub notify_exit_debounced :
      (s : Supervisor d Factory) (pid q : Pid)
      → ((pid == q) ≡ true)
        ⊎ ((spec : ChildSpec Factory) × (is_restarting s pid ≡ false)
            × (d.get s.children pid ≡ some spec)
            × (spec.strategy ≡ restart_all)
            × (contains_child d s q ≡ true))
      → (notify_exit d (notify_exit d s pid).0 q).1 ≡ []
  unfolding contains_child
  notify_exit_debounced s pid q (inl same) =
      let e : pid ≡ q = ground arith in
      subst (λ p. (notify_exit d (notify_exit d s pid).0 p).1 ≡ []) e
        (ignored (notify_exit d s pid).0 pid (settled s pid)).0
  notify_exit_debounced s pid q (inr (spec, idle, known, e, child)) =
      (ignored (notify_exit d s pid).0 q
        (inl ((restarts_all s pid spec idle known e).1 q ∙ ground arith))).0
