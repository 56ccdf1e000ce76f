-- ===== src/Runtime/Handlers.antt =====
-- The ways to spawn an actor in src/lib.rs, and the loop of a handler with a budget.
use myrmidon.Base.{
  ℕ, zero, suc, ◌+◌, ◌*◌, ◌<◌, ◌≡◌, inl, inr, Bool, true, false, Option, none, some, List, ◌==◌,
  leb, if◌then◌else◌, same_text, arith, Bool-cases,
}
use Prim.Native.Nat.{max}
use myrmidon.Deps.DashMap.{DashMap}
use myrmidon.Deps.Mpsc.{Mpsc, pending, ready}
use myrmidon.Mailbox
use myrmidon.Mailbox.{Mailbox}
use myrmidon.Mailbox.Messages.{Message}
use myrmidon.Supervisor.{Pid, Text}
use myrmidon.Runtime.{Runtime, Restart, JoinResult, spawn_actor, spawn_observed_handler, exit_actor}

-- The counter of a handler's loop behind a message, and whether the loop yields then.
unfoldable pub next_processed : ℕ → ℕ → ℕ × Bool
next_processed budget processed =
    if leb budget (processed + 1) then (0, true) else (processed + 1, false)

-- What one poll of the loop comes to. The handler is the caller's code and is given the message.
pub data HandlerRound : Type 0 where
  waits ended : HandlerRound
  handles : Message → ℕ → Bool → HandlerRound

unfoldable pub handler_round : (c : Mpsc) → ℕ → ℕ → Mailbox c → HandlerRound × Mailbox c
handler_round c budget processed m =
    let (received, after) = Mailbox.recv c m in
    elim received [
      | pending ↦ (waits, after)
      | ready none ↦ (ended, after)
      | ready (some msg) ↦
          let (processed', yields) = next_processed budget processed in
          (handles msg processed' yields, after)
    ]

module _ (c : Mpsc) (d : DashMap ℕ ◌==◌) (n : DashMap Text same_text) (Factory : Type 0) where
  -- A way to spawn: what is done at once, and what the spawned task does when the actor has ended. The
  -- budget is used by the loop of a handler alone.
  pub record Spawning : Type 0 where
    pub at_once : Runtime c d n Factory → Option (Runtime c d n Factory × Pid × ℕ)
    pub at_end :
        Runtime c d n Factory → Pid → JoinResult → Runtime c d n Factory × List (Restart Factory)

  abbrev pub spawn_actor_with_budget : ℕ → Spawning
  spawn_actor_with_budget budget = record { at_once = spawn_actor; at_end = exit_actor }

  abbrev pub spawn_handler_with_budget : ℕ → Spawning
  spawn_handler_with_budget budget = record { at_once = spawn_actor; at_end = exit_actor }

  abbrev pub observed_spawning : ℕ → Spawning
  observed_spawning budget = record { at_once = spawn_observed_handler; at_end = exit_actor }

-- The counter, and how often the loop has yielded, after so many messages.
pub handled : ℕ → ℕ → ℕ × ℕ
handled budget zero = (0, 0)
handled budget (suc k) =
    let (processed, yields) = handled budget k in
    let (processed', yielded) = next_processed budget processed in
    (processed', if yielded then yields + 1 else yields)

-- A handler yields once for every `budget` messages, or for every message when that is 0: the yields
-- account for all messages but those counted since the last, which are fewer.
pub handled_lem :
    (budget k : ℕ)
    → ((handled budget k).0 + (handled budget k).1 * max 1 budget ≡ k)
      × ((handled budget k).0 < max 1 budget)
unfolding handled next_processed
handled_lem budget zero = (omega arith, omega arith)
handled_lem budget (suc k) =
    let (sum, less) = handled_lem budget k in
    elim (Bool-cases (leb budget ((handled budget k).0 + 1))) [
      | inl full ↦ rw (full, handled) (grind (arith, sum, less), omega arith)
      | inr room ↦ rw (room, handled) (grind (arith, sum), ground (arith, less))
    ]
