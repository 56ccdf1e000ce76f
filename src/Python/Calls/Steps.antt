-- ===== src/Python/Calls/Steps.antt =====
-- The calls of src/py.rs are steps of the runtime.
use myrmidon.Base.{
  ℕ, ◌≡◌, refl, sym, subst, All, ◌++◌, Option-cases, ◌⊎◌, inl, inr, Bool, true, false, none, some,
  List, [], ◌∷◌, map, ◌==◌, ok, same_text,
}
use myrmidon.Deps.DashMap.{DashMap}
use myrmidon.Deps.Mpsc.{Mpsc}
use myrmidon.Mailbox.Messages.{user}
use myrmidon.Supervisor.{Pid, Text}
use myrmidon.Runtime.{Runtime, is_alive}
use myrmidon.Runtime.Names.{
  register, unregister, watch_path, create_path_supervisor, remove_path_supervisor,
  path_supervisor_watch, path_supervise_with_factory,
}
use myrmidon.Runtime.Children.{link, unlink, supervise, wait}
use myrmidon.Runtime.System.{Call, sends, swaps, stops, supervises, names, calls, Reach, later}
use myrmidon.Python.Supervising.{
  PyFactory, same_pid, FactoryCall, parse_strategy, initial_pid, Result-cases, watch,
  supervise_with_factory, py_path_supervise_with_factory,
}
use myrmidon.Python.Calls.{
  PyCall, py_register, py_register_path, py_unregister, py_unregister_path, py_resolve, py_whereis,
  py_whereis_path, py_list_children, py_list_children_direct, py_watch_path,
  py_create_path_supervisor, py_remove_path_supervisor, py_path_supervisor_children,
  py_path_supervisor_watch, py_stop, py_is_alive, py_mailbox_size, py_get_messages, py_hot_swap,
  py_send, py_children_count, py_child_pids, py_link, py_unlink, py_watch, py_supervise,
  py_path_supervise, method, module_function, join,
}

module _ {c : Mpsc} {d : DashMap ℕ ◌==◌} {n : DashMap Text same_text} where
  -- A method is a step of the runtime, or leaves it.
  data Steps (rt : Runtime c d n PyFactory) (after : Runtime c d n PyFactory) : Type 0 where
    stays : after ≡ rt → Steps rt after
    steps : Call c d n PyFactory rt after → Steps rt after

  create-Steps :
      (rt : Runtime c d n PyFactory) (path : Text) → Steps rt (create_path_supervisor rt path)
  unfolding create_path_supervisor
  create-Steps rt path = elim (Option-cases (n.get rt.path_supervisors path)) [
    | inl e ↦ rw (e, create_path_supervisor) (steps (supervises rt.supervisor _))
    | inr (s, e) ↦ rw (e, create_path_supervisor) (stays refl)
  ]

  path_watch-Steps :
      (rt : Runtime c d n PyFactory) (path : Text) (pid : Pid)
      → Steps rt (path_supervisor_watch rt same_pid path pid)
  unfolding path_supervisor_watch
  path_watch-Steps rt path pid = elim (Option-cases (n.get rt.path_supervisors path)) [
    | inl e ↦ rw (e, path_supervisor_watch) (steps (supervises _ rt.path_supervisors))
    | inr (s, e) ↦ rw (e, path_supervisor_watch) (steps (supervises rt.supervisor _))
  ]

  watch-Steps :
      (rt : Runtime c d n PyFactory) (pid : Pid) (strategy : Text)
      → Steps rt (watch rt pid strategy).0
  unfolding watch
  watch-Steps rt pid strategy = elim (Option-cases (parse_strategy strategy)) [
    | inl e ↦ rw (e, watch) (stays refl)
    | inr (strat, e) ↦ rw (e, watch) (steps (supervises _ rt.path_supervisors))
  ]

  supervise-Steps :
      (rt : Runtime c d n PyFactory) (pid : Pid) (callable : ℕ) (first_call : FactoryCall)
      (strategy : Text)
      → Steps rt (supervise_with_factory rt pid callable first_call strategy).0
  unfolding supervise_with_factory supervise
  supervise-Steps rt pid callable first_call strategy =
      elim (Option-cases (parse_strategy strategy)) [
        | inl e ↦ rw (e, supervise_with_factory) (stays refl)
        | inr (strat, e) ↦ elim (Result-cases (initial_pid first_call)) [
          | inr (x, f) ↦ rw (e, f, supervise_with_factory) (stays refl)
          | inl (made, f) ↦
              rw (e, f, supervise_with_factory) (steps (supervises _ rt.path_supervisors))
        ]
      ]

  path_supervise-Steps :
      (rt : Runtime c d n PyFactory) (path : Text) (pid : Pid) (callable : ℕ)
      (first_call : FactoryCall) (strategy : Text)
      → Steps rt (py_path_supervise_with_factory rt path pid callable first_call strategy).0
  unfolding py_path_supervise_with_factory path_supervise_with_factory
  path_supervise-Steps rt path pid callable first_call strategy =
      elim (Option-cases (parse_strategy strategy)) [
        | inl e ↦ rw (e, py_path_supervise_with_factory) (stays refl)
        | inr (strat, e) ↦ elim (Result-cases (initial_pid first_call)) [
          | inr (x, f) ↦ rw (e, f, py_path_supervise_with_factory) (stays refl)
          | inl (made, f) ↦
              rw (e, f, py_path_supervise_with_factory) (steps (supervises rt.supervisor _))
        ]
      ]

  method-Steps : (rt : Runtime c d n PyFactory) (call : PyCall) → Steps rt (method rt call).0
  unfolding method register unregister watch_path remove_path_supervisor link unlink
  method-Steps rt (py_register name pid) = steps (names _)
  method-Steps rt (py_register_path path pid) = steps (names _)
  method-Steps rt (py_unregister name) = steps (names _)
  method-Steps rt (py_unregister_path path) = steps (names _)
  method-Steps rt (py_resolve name) = stays refl
  method-Steps rt (py_whereis name) = stays refl
  method-Steps rt (py_whereis_path path) = stays refl
  method-Steps rt (py_list_children prefix) = stays refl
  method-Steps rt (py_list_children_direct prefix) = stays refl
  method-Steps rt (py_watch_path prefix) = steps (supervises _ rt.path_supervisors)
  method-Steps rt (py_create_path_supervisor path) = create-Steps rt path
  method-Steps rt (py_remove_path_supervisor path) = steps (supervises rt.supervisor _)
  method-Steps rt (py_path_supervisor_children path) = stays refl
  method-Steps rt (py_path_supervisor_watch path pid) = path_watch-Steps rt path pid
  method-Steps rt (py_stop pid) = steps (stops pid)
  method-Steps rt (py_is_alive pid) = stays refl
  method-Steps rt (py_mailbox_size pid) = stays refl
  method-Steps rt (py_get_messages pid) = stays refl
  method-Steps rt (py_hot_swap pid ptr) = steps (swaps pid ptr)
  method-Steps rt (py_send pid bytes) = steps (sends pid (user bytes))
  method-Steps rt py_children_count = stays refl
  method-Steps rt py_child_pids = stays refl
  method-Steps rt (py_link a b) = steps (supervises _ rt.path_supervisors)
  method-Steps rt (py_unlink a b) = steps (supervises _ rt.path_supervisors)
  method-Steps rt (py_watch pid strategy) = watch-Steps rt pid strategy
  method-Steps rt (py_supervise pid callable first_call strategy) =
      supervise-Steps rt pid callable first_call strategy
  method-Steps rt (py_path_supervise path pid callable first_call strategy) =
      path_supervise-Steps rt path pid callable first_call strategy

  function_same :
      (rt : Runtime c d n PyFactory) (call : PyCall)
      → (module_function rt call ≡ none) ⊎ (module_function rt call ≡ some (method rt call))
  unfolding method module_function
  function_same rt (py_register name pid) = inl refl
  function_same rt (py_register_path path pid) = inr refl
  function_same rt (py_unregister name) = inl refl
  function_same rt (py_unregister_path path) = inr refl
  function_same rt (py_resolve name) = inl refl
  function_same rt (py_whereis name) = inl refl
  function_same rt (py_whereis_path path) = inr refl
  function_same rt (py_list_children prefix) = inr refl
  function_same rt (py_list_children_direct prefix) = inr refl
  function_same rt (py_watch_path prefix) = inr refl
  function_same rt (py_create_path_supervisor path) = inr refl
  function_same rt (py_remove_path_supervisor path) = inr refl
  function_same rt (py_path_supervisor_children path) = inr refl
  function_same rt (py_path_supervisor_watch path pid) = inr refl
  function_same rt (py_stop pid) = inl refl
  function_same rt (py_is_alive pid) = inl refl
  function_same rt (py_mailbox_size pid) = inl refl
  function_same rt (py_get_messages pid) = inl refl
  function_same rt (py_hot_swap pid ptr) = inl refl
  function_same rt (py_send pid bytes) = inl refl
  function_same rt py_children_count = inl refl
  function_same rt py_child_pids = inl refl
  function_same rt (py_link a b) = inl refl
  function_same rt (py_unlink a b) = inl refl
  function_same rt (py_watch pid strategy) = inl refl
  function_same rt (py_supervise pid callable first_call strategy) = inl refl
  function_same rt (py_path_supervise path pid callable first_call strategy) = inl refl

  -- Every method of `PyRuntime` that passes on to the runtime leaves one that can be reached by the
  -- runtime's own steps, so what holds in all of these holds behind Python too; and the module's
  -- function for a call, where there is one, does and gives the same as the method.
  pub method-Reach :
      (rt : Runtime c d n PyFactory) (call : PyCall)
      → Reach c d n PyFactory rt
      → Reach c d n PyFactory (method rt call).0
        × ((module_function rt call ≡ none) ⊎ (module_function rt call ≡ some (method rt call)))
  method-Reach rt call r = (
    elim (method-Steps rt call) [
      | stays e ↦ subst (Reach c d n PyFactory) (sym e) r
      | steps call_step ↦ later r (calls call_step)
    ],
    function_same rt call,
  )

  -- `join` gives `Ok` at the first look at which the actor is not alive, when no signal was raised
  -- before, and with such a look it gives a result.
  pub join_lem :
      (pid : Pid) (before behind : List (Bool × Runtime c d n PyFactory))
      (rt : Runtime c d n PyFactory)
      → All (λ look. (look.0 ≡ false) × (is_alive look.1 pid ≡ true)) before
      → is_alive rt pid ≡ false
      → (join pid (before ++ (false, rt) ∷ behind) ≡ some (ok tt))
        × (join pid before ≡ none)
        × (wait pid (map (λ look. look.1) (before ++ (false, rt) ∷ behind)) ≡ some tt)
  unfolding join wait
  join_lem pid [] behind rt a dead = (rw dead refl, refl, rw dead refl)
  join_lem pid ((signalled, at) ∷ before) behind rt ((quiet, alive), a) dead =
      let (joined, on, waited) = join_lem pid before behind rt a dead in
      (rw (quiet, alive) joined, rw (quiet, alive) on, rw alive waited)
