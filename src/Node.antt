-- ===== src/Node.antt =====
-- src/node.rs: the binding for Node. A callable of JavaScript is known by a number; pointers to boxed
-- callables are places in a store. The calls give and take the `i64` of the Rust side; what napi makes
-- of one on its way to JavaScript and back is a parameter, in Node/Numbers.
use mathlib.Core.Option
use myrmidon.Base.{
  ℕ, ◌+◌, ◌-◌, ◌%◌, ◌^◌, Bool, true, false, Option, none, some, List, [], ◌∷◌, ◌++◌, map, ◌==◌, ltb,
  if◌then◌else◌, Result, ok, err, same_text, length, get_elem?, set,
}
use myrmidon.Deps.DashMap.{DashMap}
use myrmidon.Deps.JsNumber.{ℤ, pos, negsuc}
use myrmidon.Deps.Mpsc.{Mpsc, Poll, pending, ready}
use myrmidon.Mailbox
use myrmidon.Mailbox.{Mailbox}
use myrmidon.Mailbox.Messages.{
  Text, Bytes, ExitReason, normal, panic, timeout, killed, oom, other, ExitInfo, SystemMessage,
  exit, hot_swap, ping, pong, Message, user, system,
}
use myrmidon.Supervisor
use myrmidon.Supervisor.{Pid, ChildSpec, RestartStrategy, restart_one, restart_all}
use myrmidon.Runtime
use myrmidon.Runtime.{Runtime, is_alive}
use myrmidon.Runtime.Names
use myrmidon.Runtime.Observers.{get_observed_messages}
use myrmidon.Python.Supervising.{parse_strategy}
use myrmidon.Python.Messages.{exit_name, hot_swap_name, ping_name, pong_name}
pub mod Numbers
pub mod Swapping
mod Tests

-- `p as i64` and `p as u64`.
unfoldable pub as_i64 : ℕ → ℤ
as_i64 p = if ltb p (2 ^ 63) then pos p else negsuc (2 ^ 64 - 1 - p)

unfoldable pub as_u64 : ℤ → ℕ
as_u64 (pos n) = n % 2 ^ 64
as_u64 (negsuc n) = 2 ^ 64 - 1 - n % 2 ^ 64

abbrev pub as_u32 : ℕ → ℕ
as_u32 n = n % 2 ^ 32

pub record JsSystemMessage : Type 0 where
  pub type_name : Text
  pub target_pid : Option ℤ
  pub reason : Option Text
  pub metadata : Option Text

pub record WrappedMessage : Type 0 where
  pub bytes : Option Bytes
  pub system_message : Option JsSystemMessage

unfoldable pub reason_of : ExitReason → Option Text
reason_of normal = some (b'n' ∷ b'o' ∷ b'r' ∷ b'm' ∷ b'a' ∷ b'l' ∷ [])
reason_of panic = some (b'p' ∷ b'a' ∷ b'n' ∷ b'i' ∷ b'c' ∷ [])
reason_of timeout = some (b't' ∷ b'i' ∷ b'm' ∷ b'e' ∷ b'o' ∷ b'u' ∷ b't' ∷ [])
reason_of killed = some (b'k' ∷ b'i' ∷ b'l' ∷ b'l' ∷ b'e' ∷ b'd' ∷ [])
reason_of oom = some (b'o' ∷ b'o' ∷ b'm' ∷ [])
reason_of (other s) = some s

abbrev pub wrapped_system : Text → Option ℤ → Option Text → Option Text → WrappedMessage
wrapped_system name target reason metadata = record {
  bytes = none;
  system_message =
      some (record { type_name = name; target_pid = target; reason = reason; metadata = metadata });
}

-- `WrappedMessage::from`
unfoldable pub wrapped : Message → WrappedMessage
wrapped (user b) = record { bytes = some b; system_message = none }
wrapped (system (exit info)) =
    wrapped_system exit_name (some (as_i64 info.from)) (reason_of info.reason) info.metadata
wrapped (system (hot_swap _)) = wrapped_system hot_swap_name none none none
wrapped (system ping) = wrapped_system ping_name none none none
wrapped (system pong) = wrapped_system pong_name none none none

-- `unwrap_or(100)` of a budget.
abbrev pub budget_or_default : Option ℕ → ℕ
budget_or_default none = 100
budget_or_default (some b) = b

-- The boxed callables by their pointers, those that were unboxed gone.
abbrev pub Boxes : Type 0
Boxes = List (Option ℕ)

abbrev pub into_raw : Boxes → ℕ → Boxes × ℕ
into_raw boxes tsfn = (boxes ++ some tsfn ∷ [], length boxes)

-- What a pointer leads to, unless it was unboxed before or never made.
abbrev pub boxed_at : Boxes → ℕ → Option ℕ
boxed_at boxes ptr = elim (get_elem? boxes ptr) [ none ↦ none | some b ↦ b ]

-- The handler of an actor that was spawned: the callable in force, and the calls so far.
pub record JsHandler : Type 0 where
  pub behavior : ℕ
  pub calls : List (ℕ × Message)

-- A call of the handler; `none` is the use of a box that is not there.
pub js_handle : Boxes → JsHandler → Message → Option (Boxes × JsHandler)
js_handle boxes h (system (hot_swap ptr)) = elim (boxed_at boxes ptr) [
  | none ↦ none
  | some tsfn ↦ some (set boxes ptr none, record h { behavior = tsfn })
]
js_handle boxes h (user b) = some (boxes, record h { calls = h.calls ++ (h.behavior, user b) ∷ [] })
js_handle boxes h (system (exit info)) =
    some (boxes, record h { calls = h.calls ++ (h.behavior, system (exit info)) ∷ [] })
js_handle boxes h (system ping) =
    some (boxes, record h { calls = h.calls ++ (h.behavior, system ping) ∷ [] })
js_handle boxes h (system pong) =
    some (boxes, record h { calls = h.calls ++ (h.behavior, system pong) ∷ [] })

-- `JsMailbox.recv`: without a timeout it is awaited, with one it gives nothing when the time is up.
pub js_recv : (c : Mpsc) → Bool → Mailbox c → Poll (Option WrappedMessage) × Mailbox c
js_recv c time_is_up m =
    let (polled, after) = Mailbox.recv c m in
    elim polled [
      | ready none ↦ (ready none, after)
      | ready (some msg) ↦ (ready (some (wrapped msg)), after)
      | pending ↦ (if time_is_up then ready none else pending, after)
    ]

module _ {c : Mpsc} {d : DashMap ℕ ◌==◌} {n : DashMap Text same_text} {Factory : Type 0} where
  unfoldable pub register : Runtime c d n Factory → Text → ℤ → Runtime c d n Factory
  register rt name pid = Runtime.Names.register rt name (as_u64 pid)

  unfoldable pub resolve : Runtime c d n Factory → Text → Option ℤ
  resolve rt name = Option.map as_i64 (Runtime.Names.resolve rt name)

  -- `is_ok()`
  js_sent :
      {E : Type 0} → Runtime c d n Factory × Result (Unit {0}) E → Runtime c d n Factory × Bool
  js_sent (rt, ok _) = (rt, true)
  js_sent (rt, err _) = (rt, false)

  unfoldable pub js_send : Runtime c d n Factory → ℤ → Bytes → Runtime c d n Factory × Bool
  unfolding js_sent
  js_send rt pid b = js_sent (Runtime.send rt (as_u64 pid) (user b))

  unfoldable pub js_send_named : Runtime c d n Factory → Text → Bytes → Runtime c d n Factory × Bool
  unfolding js_sent
  js_send_named rt name b = js_sent (Runtime.Names.send_named rt name (user b))

  unfoldable pub js_stop : Runtime c d n Factory → ℤ → Runtime c d n Factory
  js_stop rt pid = Runtime.stop rt (as_u64 pid)

  unfoldable pub js_is_alive : Runtime c d n Factory → ℤ → Bool
  js_is_alive rt pid = is_alive rt (as_u64 pid)

  -- The loop of `join`, with the runtime at each look; `none` says that the actor was always alive.
  pub js_join : ℤ → List (Runtime c d n Factory) → Option (Unit {0})
  js_join pid [] = none
  js_join pid (rt ∷ looks) =
      let later = js_join pid looks in if is_alive rt (as_u64 pid) then later else some tt

  unfoldable pub js_children_count : Runtime c d n Factory → ℕ
  js_children_count rt = as_u32 (Supervisor.children_count d rt.supervisor)

  unfoldable pub js_child_pids : Runtime c d n Factory → List ℤ
  js_child_pids rt = map as_i64 (Supervisor.child_pids d rt.supervisor)

  -- The pointer of the boxed callable goes to the actor, if it has a mailbox.
  unfoldable pub js_hot_swap : Runtime c d n Factory → Boxes → ℤ → ℕ → Runtime c d n Factory × Boxes
  js_hot_swap rt boxes pid tsfn =
      let (boxed, ptr) = into_raw boxes tsfn in (Runtime.hot_swap rt (as_u64 pid) ptr, boxed)

  unfoldable pub js_get_messages : Runtime c d n Factory → ℤ → List WrappedMessage
  js_get_messages rt pid = elim (get_observed_messages rt (as_u64 pid)) [
    | none ↦ []
    | some msgs ↦ map wrapped msgs
  ]

  -- `same_pid` is the factory that answers the identifier.
  unfoldable pub js_watch :
      Runtime c d n Factory
      → (Pid → Factory)
      → ℤ
      → Text
      → Runtime c d n Factory × Result (Unit {0}) (Unit {0})
  js_watch rt same_pid pid strategy = elim (parse_strategy strategy) [
    | none ↦ (rt, err tt)
    | some strat ↦ (
      record rt {
        supervisor =
            Supervisor.add_child d rt.supervisor (as_u64 pid)
              (record { factory = same_pid (as_u64 pid); strategy = strat });
      },
      ok tt,
    )
  ]
