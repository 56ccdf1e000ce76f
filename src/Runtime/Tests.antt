-- ===== src/Runtime/Tests.antt =====
-- Runs of the runtime of src/lib.rs over lists, and its theorems at a concrete runtime.
use myrmidon.Base.{
  ◌+◌, false, ◌≢◌, ◌⊎◌, ℕ, zero, suc, ◌%◌, ◌^◌, ◌<◌, ◌≡◌, refl, inr, true, not, ◌&&◌, none, some,
  [], ◌∷◌, ◌++◌, ◌==◌, ==_iff, ok, err, same_text, same_text_iff, replicate, count, arith, length,
}
use myrmidon.Deps.DashMap.{DashMap, assoc_map}
use myrmidon.Deps.Mpsc.{Mpsc, list_channel}
use myrmidon.Pid
use myrmidon.Pid.{SlabAllocator}
use myrmidon.Pid.Invariant
use myrmidon.Pid.Invariant.{vacancy, generation_at}
use myrmidon.Mailbox
use myrmidon.Mailbox.{Mailbox}
use myrmidon.Mailbox.Messages.{SystemMessage, user, system}
use myrmidon.Mailbox.Contents.{pending_system, pending_user}
use myrmidon.Supervisor
use myrmidon.Supervisor.{Supervisor, is_some, Pid, Text, peers}
use myrmidon.Runtime.{
  Runtime, JoinResult, new, box_at, send, stop, hot_swap, spawn_actor, exit_actor, is_alive,
  mailbox_size, put_box,
}
use myrmidon.Runtime.Invariant.{IsWf, new-IsWf, Spawned, spawn_actor-Spawned}
use myrmidon.Runtime.Names.{send_named, resolve, name_not_found}
use myrmidon.Runtime.Timers.{Timers, schedule, cancel_timer, is_pending, cancel_timer_lem}
use myrmidon.Runtime.Timers
use myrmidon.Registry
use myrmidon.Runtime.System.{Call, Step, Reach}
use myrmidon.Runtime.Exit.{exit_info, exit_actor-is_alive, exit_actor-signals}
use myrmidon.Runtime.Interleaved
use myrmidon.Runtime.Interleaved.{IsOwned}
use myrmidon.Runtime.Interleaved.Owned.{Reach-IsOwned}
use myrmidon.Runtime.Exiting.{
  ExitStage, to_unmap, to_unlink, to_signal, exit_part, exit_part-attempt,
}

program : Unit {0}
unfolding Pid.make_pid Pid.split_pid Pid.new Pid.allocate Pid.deallocate Pid.is_valid
    Mailbox.channel Mailbox.send Mailbox.len Supervisor.new Supervisor.notify_exit
    Supervisor.linked_pids Supervisor.contains_child new send stop hot_swap spawn_actor exit_actor
    is_alive mailbox_size box_at put_box
program = tt

abbrev c : Mpsc
c = list_channel

abbrev d : DashMap ℕ ◌==◌
d = assoc_map ℕ ◌==◌ ==_iff

abbrev n : DashMap Text same_text
n = assoc_map Text same_text same_text_iff

abbrev first : Pid
first = 0x1_0000_0000

abbrev second : Pid
second = 0x1_0000_0001

abbrev slab : SlabAllocator
slab = record {
  entries =
      record { generation = 1; occupied = true } ∷ record { generation = 1; occupied = true } ∷ [];
  free_list = [];
}

abbrev waiting : Mailbox c
waiting = record {
  to_user = record { items = (7 ∷ []) ∷ []; has_sender = true; has_receiver = true };
  to_sys = record { items = []; has_sender = true; has_receiver = true };
  stash = [];
  counter = 1;
}

-- Two actors, linked; a user message waits for each.
abbrev pair : Runtime c d n ℕ
pair = record {
  slab = slab;
  boxes = waiting ∷ waiting ∷ [];
  mailboxes = (first, 0) ∷ (second, 1) ∷ [];
  supervisor = record {
    children = [];
    errors = [];
    links = (first, second ∷ []) ∷ (second, first ∷ []) ∷ [];
    restarting = [];
  };
  observers = [];
  registry = record { names = [] };
  path_supervisors = [];
}

exits :
    let after = (exit_actor pair first JoinResult.returned).0 in
    (mailbox_size after second ≡ some 1)
    × (mailbox_size after first ≡ none)
    × (is_alive after second ≡ true)
unfolding program
exits = (refl, refl, refl)

slab-IsWf : Pid.Invariant.IsWf slab
slab-IsWf = record { counted = λ i. counted i; small = λ i. small i; fits = omega arith }
  where
    counted : (i : ℕ) → count i slab.free_list ≡ vacancy slab.entries i
    counted zero = refl
    counted (suc zero) = refl
    counted (suc (suc i)) = ground arith

    small : (i : ℕ) → generation_at slab.entries i < 2 ^ 32
    small zero = omega arith
    small (suc zero) = omega arith
    small (suc (suc i)) = omega arith

first_alive : is_alive pair first ≡ true
unfolding program
first_alive = refl

second_alive : is_alive pair second ≡ true
unfolding program
second_alive = refl

pair-IsWf : IsWf pair
pair-IsWf = record {
  slab = slab-IsWf;
  alive = λ q i e. ground (arith, e, first_alive, second_alive);
  small = λ q i e. ground arith;
  bounded = λ q i e. ground arith;
  separate = λ p q i e f. ground arith;
}

second_box : box_at pair second ≡ some (1, waiting)
unfolding program
second_box = refl

exit_actor-is_alive_example :
    let after = (exit_actor pair first JoinResult.returned).0 in
    IsWf after
    × (is_alive after second ≡ (is_alive pair second && not (first == second % 2 ^ 64)))
    × ((send after first (user [])).1 ≡ err (user []))
exit_actor-is_alive_example =
    exit_actor-is_alive pair first second JoinResult.returned (user []) pair-IsWf (omega arith)

exit_actor-signals_example :
    (m' : Mailbox c) × (box_at (exit_actor pair first JoinResult.returned).0 second ≡ some (1, m'))
    × (pending_system c m'
        ≡ pending_system c waiting
          ++ replicate
              (count second (peers d pair.supervisor.links first))
              (system (SystemMessage.exit (exit_info first JoinResult.returned))))
    × (pending_user c m' ≡ pending_user c waiting)
exit_actor-signals_example =
    exit_actor-signals pair first second JoinResult.returned 1 waiting pair-IsWf (omega arith) refl
      second_box (omega arith) refl

-- The restart of the first actor.
abbrev restart_first : Supervisor.Task ℕ
restart_first = record {
  orig_pid = first;
  spec = record { factory = 0; strategy = Supervisor.RestartStrategy.restart_one };
  attempts = 0;
  backoff_ms = 100;
}

exit_part-attempt_example :
    let restarted = record pair {
      supervisor = (Supervisor.attempt d pair.supervisor restart_first (ok 7)).0;
    } in
    let info = exit_info first JoinResult.returned in
    ((exit_part first info to_unlink pair).1 ≡ to_signal (second ∷ []))
    × ((exit_part first info to_unlink restarted).1 ≡ to_signal [])
exit_part-attempt_example =
    exit_part-attempt pair restart_first 7 (exit_info first JoinResult.returned)

abbrev blank : Runtime c d n ℕ
blank = new c d n ℕ

blank_room : (blank.slab.free_list ≢ []) ⊎ (length blank.slab.entries < 2 ^ 32)
unfolding program
blank_room = inr (omega arith)

-- One actor is spawned, gets a message and exits.
abbrev spawned :
    (after : Runtime c d n ℕ) × (pid : Pid) × (spawn_actor blank
      ≡ some (after, pid, length blank.boxes))
    × Spawned blank after pid
spawned = spawn_actor-Spawned blank new-IsWf blank_room

abbrev ended : Runtime c d n ℕ
ended = (exit_actor (send spawned.0 spawned.1 (user [])).0 spawned.1 JoinResult.returned).0

ended-Reach : Reach c d n ℕ ended
ended-Reach =
    Reach.later
      (Reach.later
        (Reach.later {rt = blank} Reach.start
          (Step.spawns spawned.0 spawned.1 (length blank.boxes) blank_room spawned.2))
        (Step.calls (Call.sends spawned.1 (user []))))
      (Step.exits spawned.1 JoinResult.returned spawned.3.small)

-- One actor is spawned, returns, and the first two parts of its exit are done, with a message for it
-- between them.
abbrev live : Interleaved.System c d n ℕ
live = record { runtime = spawned.0; tasks = record { pid = spawned.1; exiting = none } ∷ [] }

abbrev stage_of_exit : Interleaved.System c d n ℕ → ExitStage → Interleaved.System c d n ℕ
stage_of_exit s stage = record s {
  tasks =
      record { pid = spawned.1; exiting = some (exit_info spawned.1 JoinResult.returned, stage) }
      ∷ [];
}

abbrev unmapped_actor : Interleaved.System c d n ℕ
unmapped_actor =
    stage_of_exit (record live { runtime = stop spawned.0 spawned.1 }) ExitStage.to_notify

live-Reach : Interleaved.Reach c d n ℕ live
live-Reach =
    Interleaved.Reach.later Interleaved.Reach.start
      (Interleaved.Step.spawns spawned.0 spawned.1 (length blank.boxes) blank_room spawned.2)

unmapped_actor-Reach : Interleaved.Reach c d n ℕ unmapped_actor
unfolding exit_part
unmapped_actor-Reach =
    Interleaved.Reach.later
      (Interleaved.Reach.later {s = live} live-Reach
        (Interleaved.Step.ends 0 spawned.1 JoinResult.returned refl))
      (Interleaved.Step.exits 0 spawned.1 (exit_info spawned.1 JoinResult.returned) to_unmap refl)

Reach-IsOwned_example :
    IsOwned c d n ℕ
      (record unmapped_actor { runtime = (send unmapped_actor.runtime spawned.1 (user [])).0 })
Reach-IsOwned_example = Reach-IsOwned (
    Interleaved.Reach.later unmapped_actor-Reach
      (Interleaved.Step.calls (Call.sends spawned.1 (user []))))

hello : Text
hello = b'h' ∷ b'i' ∷ []

unnamed : (send_named pair hello (user [])).1 ≡ err (name_not_found hello)
unfolding program send_named resolve Registry.resolve
unnamed = refl

abbrev observing : Runtime c d n ℕ
observing = record pair { observers = (first, user [] ∷ user (1 ∷ []) ∷ []) ∷ [] }

-- Two timers, of which the second repeats.
abbrev idle_timers : Timers c d n ℕ
idle_timers = record { runtime = pair; timers = []; timer_counter = 0; tasks = [] }

abbrev one_timer : Timers c d n ℕ
one_timer = (schedule c d n ℕ idle_timers first (user []) false).0

abbrev two_timers : Timers c d n ℕ
two_timers = (schedule c d n ℕ one_timer second (user []) true).0

counter_fits : one_timer.timer_counter + 1 < 2 ^ 64
unfolding schedule
counter_fits = omega arith

two_timers-Reach : Timers.Reach c d n ℕ two_timers
two_timers-Reach =
    Timers.Reach.later {s = one_timer}
      (Timers.Reach.later {s = idle_timers} (Timers.Reach.start pair)
        (Timers.Step.schedules first (user []) false (omega arith)))
      (Timers.Step.schedules second (user []) true counter_fits)

cancel_timer_lem_example :
    ((cancel_timer c d n ℕ two_timers 1).1 ≡ is_pending 1 two_timers.tasks)
    × (is_pending 2 (cancel_timer c d n ℕ two_timers 1).0.tasks
        ≡ (not (1 == 2) && is_pending 2 two_timers.tasks))
    × ((cancel_timer c d n ℕ (cancel_timer c d n ℕ two_timers 1).0 1).1 ≡ false)
cancel_timer_lem_example = cancel_timer_lem c d n ℕ {s = two_timers} 1 2 two_timers-Reach
