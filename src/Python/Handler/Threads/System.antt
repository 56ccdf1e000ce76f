-- ===== src/Python/Handler/Threads/System.antt =====
-- The counter `RELEASE_GIL_THREADS` of src/py.rs under spawns, messages, threads and the pool in any order.
use myrmidon.Base.{
  ℕ, ◌^◌, ◌<◌, ◌≡◌, refl, sym, ◌∙◌, inl, inr, Bool, true, Option, none, some, List, [], arith,
  get_elem?, set, Option-cases,
}
use myrmidon.Deps.Mpsc.{Mpsc}
use myrmidon.Mailbox.Messages.{Message}
use myrmidon.Python.Handler.{
  PoolTask, execute, swap, Actor, Handlers, called, swapped, handle, thread_round, handler_dropped,
  pool_task, pool_take, spawn_py_handler,
}
use myrmidon.Python.Handler.Threads.{
  running, running-set, IsLimited, handle_keeps, round-Counts, with_thread, round-IsLimited,
  place-IsLimited, spawn-IsLimited,
}

module _ {c : Mpsc} where
  abbrev pub handled_at : Handlers c → ℕ → Option (c.Chan PoolTask) × Actor c → Handlers c
  handled_at h i (pool, a) = record h { gil_worker_pool = pool; actors = set h.actors i a }

  -- A spawn, a call of a handler, a round of a thread, the end of an actor, or a task of the pool.
  pub data Step (most : ℕ) (h : Handlers c) : Handlers c → Type 0 where
    spawns :
        (strict : Bool) (callable : ℕ) (release_gil : Option Bool)
        → Step most h (spawn_py_handler most strict h callable release_gil).0
    handles :
        (up : Bool) (i : ℕ) (msg : Message) (a : Actor c)
        → get_elem? h.actors i ≡ some a
        → Step most h (handled_at h i (handle up i msg h.gil_worker_pool a))
    goes_round :
        (up up_then : Bool) (i : ℕ) (a : Actor c)
        → get_elem? h.actors i ≡ some a
        → a.is_running ≡ true
        → Step most h (with_thread h i (thread_round up up_then h.release_gil_threads a))
    drops :
        (i : ℕ) (a : Actor c)
        → get_elem? h.actors i ≡ some a
        → Step most h (record h { actors = set h.actors i (handler_dropped a) })
    takes : Step most h (pool_take h).1
    works : (task : PoolTask) → Step most h (record h { actors = pool_task task h.actors })

  pub data Reach (most : ℕ) : Handlers c → Type 0 where
    start : Reach most (record { release_gil_threads = 0; gil_worker_pool = none; actors = [] })
    later : {h after : Handlers c} → Reach most h → Step most h after → Reach most after

  take-IsLimited : (most : ℕ) (h : Handlers c) → IsLimited most h → IsLimited most (pool_take h).1
  unfolding pool_take
  take-IsLimited most h v = elim (Option-cases h.gil_worker_pool) [
    | inl e ↦ rw (e, pool_take) v
    | inr (pool, e) ↦ rw (e, pool_take) (record { counted = v.counted; within = v.within })
  ]

  task-running :
      (task : PoolTask) (actors : List (Actor c)) → running (pool_task task actors) ≡ running actors
  unfolding pool_task
  task-running (execute place bytes) actors = elim (Option-cases (get_elem? actors place)) [
    | inl e ↦ ground (arith, e)
    | inr (a, e) ↦ ground (arith, e, running-set actors place a (called a bytes) e)
  ]
  task-running (swap place ptr) actors = elim (Option-cases (get_elem? actors place)) [
    | inl e ↦ ground (arith, e)
    | inr (a, e) ↦ ground (arith, e, running-set actors place a (swapped a ptr) e)
  ]

  Step-IsLimited :
      {most : ℕ} {h after : Handlers c}
      → most < 2 ^ 64
      → Step most h after
      → IsLimited most h
      → IsLimited most after
  Step-IsLimited {most} {h} small (spawns strict callable release_gil) v =
      spawn-IsLimited most strict h callable release_gil small v
  Step-IsLimited {most} {h} small (handles up i msg a at) v =
      let r = handle up i msg h.gil_worker_pool a in
      place-IsLimited most h r.0 i a r.1 at (handle_keeps up i msg h.gil_worker_pool a) v
  Step-IsLimited {most} {h} small (goes_round up up_then i a at e) v =
      round-IsLimited most h i a (thread_round up up_then h.release_gil_threads a) small at e
        (round-Counts up up_then h.release_gil_threads a e) v
  Step-IsLimited {most} {h} small (drops i a at) v =
      place-IsLimited most h h.gil_worker_pool i a (handler_dropped a) at refl v
  Step-IsLimited {most} {h} small takes v = take-IsLimited most h v
  Step-IsLimited {most} {h} small (works task) v =
      let same = task-running task h.actors in
      record { counted = v.counted ∙ sym same; within = omega (arith, v.within, same) }

  -- With a limit that is not changed, in any state that spawns, calls of handlers, rounds of the threads,
  -- ends of actors and tasks of the pool can reach, in any order, the counter is the number of
  -- dedicated threads that run, and these are no more than the limit.
  pub Reach-IsLimited :
      {most : ℕ} {h : Handlers c} → most < 2 ^ 64 → Reach most h → IsLimited most h
  Reach-IsLimited small start = record { counted = refl; within = omega arith }
  Reach-IsLimited small (later r st) = Step-IsLimited small st (Reach-IsLimited small r)
