-- ===== src/Python/Handler/Threads.antt =====
-- `RELEASE_GIL_THREADS` of src/py.rs: how many dedicated threads there are, and how they end.
pub mod System
use mathlib.Core.Option
use myrmidon.Base.{
  ℕ, zero, suc, ◌+◌, ◌-◌, ◌%◌, ◌^◌, ◌≤◌, ◌<◌, ◌≡◌, refl, sym, ap, subst, ◌∙◌, ◌⊎◌, inl, inr, Bool,
  true, false, Option, none, some, List, [], ◌∷◌, ◌++◌, All, arith, leb, leb→le, if◌then◌else◌,
  length, get_elem?, set, ok, err, Bool-cases, Option-cases, List-cases,
}
use myrmidon.Deps.Mpsc.{Mpsc, Queue, Poll, pending, ready, polled, rest}
use myrmidon.Mailbox.{fetch_add, fetch_sub}
use myrmidon.Mailbox.Messages.{
  Bytes, SystemMessage, exit, hot_swap, ping, pong, Message, user, system,
}
use myrmidon.Python.Handler.{
  PoolTask, execute, swap, Actor, Handlers, called, swapped, with_tx, handle_inline, handle_pooled,
  handle, forward, thread_ends, thread_handles, thread_receives, thread_round, handler_dropped,
  pool_task, pool_take, spawn_py_handler, spawn_released, without_thread, new_actor, with_actor,
  unwrap_or_false, pool_of,
}
use myrmidon.Python.Handler.Inline.{round_receives}

module _ {c : Mpsc} where
  -- How many dedicated threads run.
  abbrev pub running : List (Actor c) → ℕ
  running [] = 0
  running (a ∷ actors) = (if a.is_running then 1 else 0) + running actors

  abbrev pub runs : Actor c → ℕ
  runs a = if a.is_running then 1 else 0

  running-append : (xs ys : List (Actor c)) → running (xs ++ ys) ≡ running xs + running ys
  running-append [] ys = omega arith
  running-append (x ∷ xs) ys = omega (arith, running-append xs ys)

  pub running-set :
      (xs : List (Actor c)) (i : ℕ) (a a' : Actor c)
      → get_elem? xs i ≡ some a
      → running (set xs i a') + runs a ≡ running xs + runs a'
  running-set [] i a a' at = absurd (ground arith)
  running-set (x ∷ xs) zero a a' at =
      let same : x ≡ a = ground arith in
      subst (λ y. running (set (x ∷ xs) 0 a') + runs y ≡ running (x ∷ xs) + runs a') same
        (omega arith)
  running-set (x ∷ xs) (suc i) a a' at = omega (arith, running-set xs i a a' at)

  -- The counter is the number of threads that run, within the limit.
  pub record IsLimited (max_threads : ℕ) (h : Handlers c) : Type 0 where
    pub counted : h.release_gil_threads ≡ running h.actors
    pub within : running h.actors ≤ max_threads

  inline_keeps : (msg : Message) (a : Actor c) → (handle_inline msg a).is_running ≡ a.is_running
  unfolding handle_inline
  inline_keeps (user bytes) a = refl
  inline_keeps (system (hot_swap ptr)) a = refl
  inline_keeps (system (exit info)) a = refl
  inline_keeps (system ping) a = refl
  inline_keeps (system pong) a = refl

  pooled_keeps :
      (place : ℕ) (task : PoolTask) (msg : Message) (pool : Option (c.Chan PoolTask)) (a : Actor c)
      → (handle_pooled place task msg pool a).1.is_running ≡ a.is_running
  unfolding handle_pooled
  pooled_keeps place task msg none a = inline_keeps msg a
  pooled_keeps place task msg (some pool) a = refl

  forward_keeps :
      (place : ℕ) (task : PoolTask) (msg : Message) (pool : Option (c.Chan PoolTask)) (a : Actor c)
      → (forward place task msg pool a).1.is_running ≡ a.is_running
  unfolding forward
  forward_keeps place task msg pool a = elim (Option-cases a.tx) [
    | inr (tx, e) ↦ ground (arith, e)
    | inl e ↦ elim (Bool-cases a.release_gil) [
      | inl releases ↦ ground (arith, e, releases, pooled_keeps place task msg pool a)
      | inr holds ↦ ground (arith, e, holds, inline_keeps msg a)
    ]
  ]

  pub handle_keeps :
      (up : Bool) (place : ℕ) (msg : Message) (pool : Option (c.Chan PoolTask)) (a : Actor c)
      → (handle up place msg pool a).1.is_running ≡ a.is_running
  unfolding handle
  handle_keeps false place msg pool a = refl
  handle_keeps true place (user bytes) pool a = forward_keeps place _ _ pool a
  handle_keeps true place (system (hot_swap ptr)) pool a = forward_keeps place _ _ pool a
  handle_keeps true place (system (exit info)) pool a = refl
  handle_keeps true place (system ping) pool a = refl
  handle_keeps true place (system pong) pool a = refl

  -- The thread of a round runs on with the counter as it was, or has ended and is counted down.
  pub Counts : ℕ → ℕ × Actor c → Type 0
  Counts threads (threads', a) =
      ((threads' ≡ threads) × (a.is_running ≡ true))
      ⊎ ((threads' ≡ fetch_sub threads) × (a.is_running ≡ false))

  handles-Counts :
      (up : Bool) (threads : ℕ) (msg : Message) (a : Actor c)
      → a.is_running ≡ true
      → Counts threads (thread_handles up threads msg a)
  unfolding thread_handles thread_ends Counts
  handles-Counts up threads (user bytes) a e = ground (arith, e, inline_keeps (user bytes) a)
  handles-Counts up threads (system (hot_swap ptr)) a e =
      ground (arith, e, inline_keeps (system (hot_swap ptr)) a)
  handles-Counts up threads (system (exit info)) a e = inr (refl, refl)
  handles-Counts up threads (system ping) a e = ground (arith, e, inline_keeps (system ping) a)
  handles-Counts up threads (system pong) a e = ground (arith, e, inline_keeps (system pong) a)

  receives-Counts :
      (up : Bool) (threads : ℕ) (a : Actor c) (p : Poll (Option Message))
      → a.is_running ≡ true
      → Counts threads (thread_receives up threads a p)
  unfolding thread_receives thread_ends Counts
  receives-Counts up threads a pending e = inl (refl, e)
  receives-Counts up threads a (ready none) e = inr (refl, refl)
  receives-Counts up threads a (ready (some msg)) e = handles-Counts up threads msg a e

  pub round-Counts :
      (up up_then : Bool) (threads : ℕ) (a : Actor c)
      → a.is_running ≡ true
      → Counts threads (thread_round up up_then threads a)
  unfolding thread_round thread_ends Counts
  round-Counts false up_then threads a e = inr (refl, refl)
  round-Counts true up_then threads a e = elim (Option-cases a.tx) [
    | inl none_there ↦
        let still : thread_round true up_then threads a ≡ (threads, a) =
          ground (arith, none_there) in
        subst (Counts threads) (sym still) (inl (refl, e))
    | inr (tx, there) ↦
        subst (Counts threads) (sym (round_receives up_then threads a tx there))
          (receives-Counts up_then threads (with_tx a (c.poll_recv tx).1) (c.poll_recv tx).0 e)
  ]

  -- An actor changes in place and so does the counter.
  abbrev pub with_thread : Handlers c → ℕ → ℕ × Actor c → Handlers c
  with_thread h i (threads, a) = record h {
    release_gil_threads = threads;
    actors = set h.actors i a;
  }

  pub round-IsLimited :
      (most : ℕ) (h : Handlers c) (i : ℕ) (a : Actor c) (r : ℕ × Actor c)
      → most < 2 ^ 64
      → get_elem? h.actors i ≡ some a
      → a.is_running ≡ true
      → Counts h.release_gil_threads r
      → IsLimited most h
      → IsLimited most (with_thread h i r)
  unfolding Counts fetch_sub
  round-IsLimited most h i a r small at e (inl (same, runs_on)) v = record {
    counted = ground (arith, same, v.counted, running-set h.actors i a r.1 at, e, runs_on);
    within = ground (arith, v.within, running-set h.actors i a r.1 at, e, runs_on);
  }
  round-IsLimited most h i a r small at e (inr (less, over)) v = record {
    counted = ground (arith, less, v.counted, v.within, running-set h.actors i a r.1 at, e, over);
    within = ground (arith, v.within, running-set h.actors i a r.1 at, e, over);
  }

  pub place-IsLimited :
      (most : ℕ) (h : Handlers c) (pool : Option (c.Chan PoolTask)) (i : ℕ) (a a' : Actor c)
      → get_elem? h.actors i ≡ some a
      → a'.is_running ≡ a.is_running
      → IsLimited most h
      → IsLimited most (record h { gil_worker_pool = pool; actors = set h.actors i a' })
  place-IsLimited most h pool i a a' at same v =
      let kept : running (set h.actors i a') ≡ running h.actors =
        ground (arith, running-set h.actors i a a' at, same) in
      record { counted = v.counted ∙ sym kept; within = omega (arith, v.within, kept) }

  pushed-IsLimited :
      (most : ℕ) (h : Handlers c) (threads : ℕ) (pool : Option (c.Chan PoolTask)) (a : Actor c)
      → threads ≡ running h.actors + runs a
      → threads ≤ most
      → IsLimited most (record {
        release_gil_threads = threads;
        gil_worker_pool = pool;
        actors = h.actors ++ a ∷ [];
      })
  pushed-IsLimited most h threads pool a e le = record {
    counted = omega (arith, e, running-append h.actors (a ∷ []));
    within = omega (arith, e, le, running-append h.actors (a ∷ []));
  }

  without-IsLimited :
      (most : ℕ) (strict : Bool) (h : Handlers c) (callable : ℕ)
      → IsLimited most h
      → IsLimited most (without_thread strict h callable).0
  unfolding without_thread
  without-IsLimited most true h callable v = v
  without-IsLimited most false h callable v =
      pushed-IsLimited most h h.release_gil_threads _ _ (omega (arith, v.counted))
        (omega (arith, v.counted, v.within))

  released-IsLimited :
      (most : ℕ) (strict : Bool) (h : Handlers c) (callable : ℕ)
      → most < 2 ^ 64
      → IsLimited most h
      → IsLimited most (spawn_released most strict h callable).0
  unfolding spawn_released fetch_add fetch_sub
  released-IsLimited most strict h callable small v =
      elim (Bool-cases (leb most h.release_gil_threads)) [
        | inl full ↦
            let back : fetch_sub (fetch_add h.release_gil_threads) ≡ h.release_gil_threads =
              omega (arith, v.counted, v.within) in
            rw (full, spawn_released)
              (without-IsLimited most strict _ callable
                (record { counted = back ∙ v.counted; within = v.within }))
        | inr room ↦
            rw (room, spawn_released)
              (pushed-IsLimited most h (fetch_add h.release_gil_threads) h.gil_worker_pool _
                (ground (arith, v.counted, room)) (ground (arith, v.counted, room)))
      ]

  pub spawn-IsLimited :
      (most : ℕ) (strict : Bool) (h : Handlers c) (callable : ℕ) (release_gil : Option Bool)
      → most < 2 ^ 64
      → IsLimited most h
      → IsLimited most (spawn_py_handler most strict h callable release_gil).0
  unfolding spawn_py_handler
  spawn-IsLimited most strict h callable release_gil small v =
      elim (Bool-cases (unwrap_or_false release_gil)) [
        | inr holds ↦ rw holds (
            pushed-IsLimited most h h.release_gil_threads h.gil_worker_pool _
              (omega (arith, v.counted)) (omega (arith, v.counted, v.within)))
        | inl releases ↦ rw releases (released-IsLimited most strict h callable small v)
      ]
