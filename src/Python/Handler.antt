-- ===== src/Python/Handler.antt =====
-- `spawn_py_handler` of src/py.rs: the handler of a push actor, the dedicated thread that calls Python
-- for it, and the pool of threads. A callable is known by its pointer. The channels of the package
-- crossbeam are unbounded ones, for which `recv_timeout` times out where a poll is pending. Whether
-- the interpreter is up is an argument.
pub mod Inline
pub mod Threads
pub mod Ending
use mathlib.Core.Option
use myrmidon.Base.{
  ℕ, ◌+◌, ◌%◌, ◌^◌, Bool, true, false, not, Option, none, some, List, [], ◌∷◌, ◌++◌, leb,
  if◌then◌else◌, Result, ok, err, length, get_elem?, set,
}
use myrmidon.Deps.Mpsc.{Mpsc, Poll, pending, ready}
use myrmidon.Mailbox.{fetch_add, fetch_sub}
use myrmidon.Mailbox.Messages.{
  Text, Bytes, SystemMessage, exit, hot_swap, ping, pong, Message, user, system,
}

-- The task's first argument is the place of the actor whose behaviour it is about.
pub data PoolTask : Type 0 where
  execute : ℕ → Bytes → PoolTask
  swap : ℕ → ℕ → PoolTask

-- A push actor: its behaviour, whether it was to release the GIL, the channel to its dedicated thread
-- if it has one, whether that thread runs, and the calls into Python so far, oldest first.
pub record Actor (c : Mpsc) : Type 0 where
  pub behavior : ℕ
  pub release_gil : Bool
  pub tx : Option (c.Chan Message)
  pub is_running : Bool
  pub calls : List (ℕ × Bytes)

-- `RELEASE_GIL_THREADS`, `GIL_WORKER_POOL`, and the actors by their places.
pub record Handlers (c : Mpsc) : Type 0 where
  pub release_gil_threads : ℕ
  pub gil_worker_pool : Option (c.Chan PoolTask)
  pub actors : List (Actor c)

abbrev pub default_max_release_gil_threads : ℕ
default_max_release_gil_threads = 256

abbrev pub default_gil_pool_size : ℕ
default_gil_pool_size = 8

abbrev pub limit_exceeded : Text
limit_exceeded =
    b'r' ∷ b'e' ∷ b'l' ∷ b'e' ∷ b'a' ∷ b's' ∷ b'e' ∷ b'_' ∷ b'g' ∷ b'i' ∷ b'l' ∷ b' ' ∷ b't' ∷ b'h'
    ∷ b'r' ∷ b'e' ∷ b'a' ∷ b'd' ∷ b' ' ∷ b'l' ∷ b'i' ∷ b'm' ∷ b'i' ∷ b't' ∷ b' ' ∷ b'e' ∷ b'x'
    ∷ b'c' ∷ b'e' ∷ b'e' ∷ b'd' ∷ b'e' ∷ b'd' ∷ []

abbrev pub unwrap_or_false : Option Bool → Bool
unwrap_or_false none = false
unwrap_or_false (some b) = b

-- `get_or_init`
abbrev pub pool_of : (c : Mpsc) → Option (c.Chan PoolTask) → c.Chan PoolTask
pool_of c none = c.unbounded_channel
pool_of c (some pool) = pool

module _ {c : Mpsc} where
  -- `cb.call1((pybytes,))`; an exception is printed.
  abbrev pub called : Actor c → Bytes → Actor c
  called a bytes = record a { calls = a.calls ++ (a.behavior, bytes) ∷ [] }

  -- `*behavior.write() = new_obj`
  abbrev pub swapped : Actor c → ℕ → Actor c
  swapped a ptr = record a { behavior = ptr }

  abbrev pub with_tx : Actor c → c.Chan Message → Actor c
  with_tx a tx = record a { tx = some tx }

  -- The handler's last resort, and its whole work for an actor that does not release the GIL.
  pub handle_inline : Message → Actor c → Actor c
  handle_inline (user bytes) a = called a bytes
  handle_inline (system (hot_swap ptr)) a = swapped a ptr
  handle_inline (system (exit _)) a = a
  handle_inline (system ping) a = a
  handle_inline (system pong) a = a

  -- With no dedicated thread: to the pool if there is one.
  pub handle_pooled :
      ℕ
      → PoolTask
      → Message
      → Option (c.Chan PoolTask)
      → Actor c
      → Option (c.Chan PoolTask) × Actor c
  handle_pooled place task msg none a = (none, handle_inline msg a)
  handle_pooled place task msg (some pool) a = (some (c.send pool task).1, a)

  -- A message for Python, with the task that it would be for the pool.
  pub forward :
      ℕ
      → PoolTask
      → Message
      → Option (c.Chan PoolTask)
      → Actor c
      → Option (c.Chan PoolTask) × Actor c
  forward place task msg pool a = elim a.tx [
    | some tx ↦ (pool, with_tx a (c.send tx msg).1)
    | none ↦
        if a.release_gil then handle_pooled place task msg pool a else (pool, handle_inline msg a)
  ]

  -- One call of the handler. On an exit it drops the clone of the sender that this call has; the
  -- handler keeps its own.
  pub handle :
      Bool → ℕ → Message → Option (c.Chan PoolTask) → Actor c → Option (c.Chan PoolTask) × Actor c
  handle false place msg pool a = (pool, a)
  handle true place (user bytes) pool a = forward place (execute place bytes) (user bytes) pool a
  handle true place (system (hot_swap ptr)) pool a =
      forward place (swap place ptr) (system (hot_swap ptr)) pool a
  handle true place (system (exit info)) pool a = (pool, a)
  handle true place (system ping) pool a = (pool, a)
  handle true place (system pong) pool a = (pool, a)

  -- The thread counts itself down and ends, which drops its receiver.
  pub thread_ends : ℕ → Actor c → ℕ × Actor c
  thread_ends threads a =
      (fetch_sub threads, record a { is_running = false; tx = Option.map c.drop_receiver a.tx })

  pub thread_handles : Bool → ℕ → Message → Actor c → ℕ × Actor c
  thread_handles up threads (system (exit info)) a = thread_ends threads a
  thread_handles up threads msg a = (threads, if up then handle_inline msg a else a)

  -- The `match` on what `recv_timeout` gave.
  pub thread_receives : Bool → ℕ → Actor c → Poll (Option Message) → ℕ × Actor c
  thread_receives up threads a pending = (threads, a)
  thread_receives up threads a (ready none) = thread_ends threads a
  thread_receives up threads a (ready (some msg)) = thread_handles up threads msg a

  -- One round of the loop of a dedicated thread, with whether the interpreter is up at its beginning
  -- and behind the receive.
  pub thread_round : Bool → Bool → ℕ → Actor c → ℕ × Actor c
  thread_round false up_then threads a = thread_ends threads a
  thread_round true up_then threads a = elim a.tx [
    | none ↦ (threads, a)
    | some tx ↦
        let (polled, after) = c.poll_recv tx in
        thread_receives up_then threads (with_tx a after) polled
  ]

  -- The actor is over and its handler is dropped, with the sender.
  abbrev pub handler_dropped : Actor c → Actor c
  handler_dropped a = record a { tx = Option.map c.drop_senders a.tx }

  -- A worker of the pool does the task that it took.
  pub pool_task : PoolTask → List (Actor c) → List (Actor c)
  pool_task (execute place bytes) actors = elim (get_elem? actors place) [
    | none ↦ actors
    | some a ↦ set actors place (called a bytes)
  ]
  pool_task (swap place ptr) actors = elim (get_elem? actors place) [
    | none ↦ actors
    | some a ↦ set actors place (swapped a ptr)
  ]

  -- A worker takes a task when there is one. What it took it does later, in its own time.
  pub pool_take : Handlers c → Option PoolTask × Handlers c
  pool_take h = elim h.gil_worker_pool [
    | none ↦ (none, h)
    | some pool ↦
        let (task, after) = c.try_recv pool in (task, record h { gil_worker_pool = some after })
  ]

  abbrev pub new_actor : ℕ → Bool → Option (c.Chan Message) → Bool → Actor c
  new_actor callable release tx running = record {
    behavior = callable;
    release_gil = release;
    tx = tx;
    is_running = running;
    calls = [];
  }

  abbrev pub with_actor : Handlers c → Actor c → Handlers c
  with_actor h a = record h { actors = h.actors ++ a ∷ [] }

  -- Past the limit, when the counter is back: an error, or the pool.
  pub without_thread : Bool → Handlers c → ℕ → Handlers c × Result ℕ Text
  without_thread true h callable = (h, err limit_exceeded)
  without_thread false h callable = (
    with_actor (record h { gil_worker_pool = some (pool_of c h.gil_worker_pool) })
        (new_actor callable true none false),
    ok (length h.actors),
  )

  pub spawn_released : ℕ → Bool → Handlers c → ℕ → Handlers c × Result ℕ Text
  spawn_released max_threads strict h callable =
      let prev = h.release_gil_threads in
      let counted = record h { release_gil_threads = fetch_add prev } in
      if leb max_threads prev
      then without_thread strict (record h { release_gil_threads = fetch_sub (fetch_add prev) })
          callable
      else (
        with_actor counted (new_actor callable true (some c.unbounded_channel) true),
        ok (length h.actors),
      )

  -- Before the actor itself is spawned: the counter, the thread or the pool, and the handler. The
  -- number is the place of the actor.
  pub spawn_py_handler : ℕ → Bool → Handlers c → ℕ → Option Bool → Handlers c × Result ℕ Text
  spawn_py_handler max_threads strict h callable release_gil =
      if unwrap_or_false release_gil
      then spawn_released max_threads strict h callable
      else (with_actor h (new_actor callable false none false), ok (length h.actors))
