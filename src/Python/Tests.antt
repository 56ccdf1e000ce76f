-- ===== src/Python/Tests.antt =====
-- Runs of the binding of src/py.rs over lists, and its theorems at concrete states.
use myrmidon.Base.{
  ℕ, ◌+◌, ◌^◌, ◌≡◌, refl, ◌↔◌, true, false, none, some, List, [], ◌∷◌, ◌==◌, ==_iff, Result,
  same_text, same_text_iff, arith,
}
use myrmidon.Deps.DashMap.{DashMap, assoc_map}
use myrmidon.Deps.Mpsc.{Mpsc, list_channel}
use myrmidon.Mailbox.{Mailbox, fetch_sub}
use myrmidon.Mailbox.Messages.{Text, SystemMessage, Message, user, system}
use myrmidon.Buffer
use myrmidon.Buffer.{BufferRegistry, IsFresh, new-IsFresh}
use myrmidon.Pid
use myrmidon.Runtime
use myrmidon.Runtime.{Runtime}
use myrmidon.Python.Messages.{
  PyObject, py_bytes, Called, gave, raised, message_to_py, run_python_matcher, Alike,
  message_to_py_iff,
}
use myrmidon.Python.Waiting.{Slice, py_recv, py_selective_recv}
use myrmidon.Python.Waiting.Receiving.{py_recv_returns}
use myrmidon.Python.Handler.{Actor, Handlers, spawn_py_handler}
use myrmidon.Python.Handler.Inline.{
  IsDedicated, Event, handles, goes_round, happen, handled_messages, seen, seen_at_last, sees_all,
  a_user,
}
use myrmidon.Python.Handler.Inline.Refine.{happen-refines}
use myrmidon.Python.Handler.Threads.{IsLimited}
use myrmidon.Python.Handler.Threads.System
use myrmidon.Python.Handler.Threads.System.{Reach-IsLimited}
use myrmidon.Python.Handler.Ending.{thread_rounds, thread_rounds-ended}
use myrmidon.Python.Buffers.{
  allocate_buffer, send_buffer, buffer_result, AllocatesUpTo, allocate_buffer-Allocates,
  SendsBuffer, send_buffer-SendsBuffer,
}
use myrmidon.Python.Supervising.{
  PyFactory, gave_pid, Supervises, supervise_with_factory, supervise_with_factory-Supervises,
}
use myrmidon.Base.Search.{position, remove_at}
use myrmidon.Runtime.Observers.{take_observed_message_matching}
use myrmidon.Python.Observing.{
  looks, deadline, selective_recv_observed_py, Observes, selective_recv_observed_py-Observes,
}

abbrev c : Mpsc
c = list_channel

abbrev d : DashMap ℕ ◌==◌
d = assoc_map ℕ ◌==◌ ==_iff

abbrev n : DashMap Text same_text
n = assoc_map Text same_text same_text_iff

message_to_py_iff_example :
    (message_to_py (system (SystemMessage.hot_swap 3))
      ≡ message_to_py (system (SystemMessage.hot_swap 4)))
    ↔ Alike (system (SystemMessage.hot_swap 3)) (system (SystemMessage.hot_swap 4))
message_to_py_iff_example =
    message_to_py_iff (system (SystemMessage.hot_swap 3)) (system (SystemMessage.hot_swap 4))

abbrev quiet : Mailbox c
quiet = record {
  to_user = record { items = []; has_sender = true; has_receiver = true };
  to_sys = record { items = []; has_sender = true; has_receiver = true };
  stash = [];
  counter = 0;
}

-- A slice in which two messages come.
abbrev arrives : Slice c
arrives = record {
  is_signalled = false;
  elapsed = 3;
  meanwhile = λ m. record m {
    to_user = record { items = (1 ∷ []) ∷ (2 ∷ []) ∷ []; has_sender = true; has_receiver = true };
    counter = 2;
  };
  elapsed_after = 103;
}

abbrev nothing_comes : ℕ → Slice c
nothing_comes elapsed = record {
  is_signalled = false;
  elapsed = elapsed;
  meanwhile = λ m. m;
  elapsed_after = elapsed + 100;
}

abbrev takes_two : PyObject → Called
takes_two (py_bytes (b ∷ bs)) = gave (some (b == 2))
takes_two (py_bytes []) = gave none
takes_two _ = raised

py_recv_returns_example :
    ((r : Result PyObject (Unit {0})) × ((py_recv c
          (some 150)
          (nothing_comes 0 ∷ nothing_comes 101 ∷ [])
          quiet).0
        ≡ some r))
    × ((r : Result PyObject (Unit {0})) × ((py_selective_recv c takes_two
            (some 150)
            (nothing_comes 0 ∷ nothing_comes 101 ∷ [])
            quiet).0
          ≡ some r))
py_recv_returns_example =
    py_recv_returns c takes_two 150 (nothing_comes 0 ∷ nothing_comes 101 ∷ []) quiet
      (omega arith, omega arith, (omega arith, omega arith, tt)) (omega arith)

abbrev dedicated : Actor c
dedicated = record {
  behavior = 4;
  release_gil = true;
  tx = some (record { items = []; has_sender = true; has_receiver = true });
  is_running = true;
  calls = [];
}

abbrev events : List Event
events =
    handles (user (1 ∷ []))
    ∷ handles (system (SystemMessage.hot_swap 5))
    ∷ goes_round
    ∷ handles (user (2 ∷ []))
    ∷ goes_round
    ∷ []

happen-refines_example :
    let after = (happen events (1, dedicated)).1 in
    (tx : c.Chan Message) × IsDedicated after tx
    × (seen_at_last after tx ≡ sees_all (handled_messages events) (seen dedicated))
unfolding sees_all
happen-refines_example =
    happen-refines events 1 dedicated
      (record { items = []; has_sender = true; has_receiver = true })
      (record { has_tx = refl; runs = refl; receives = refl; held = refl; forwarded = tt })

abbrev no_handlers : Handlers c
no_handlers = record { release_gil_threads = 0; gil_worker_pool = none; actors = [] }

Reach-IsLimited_example :
    IsLimited 1
      (spawn_py_handler 1 false
        (spawn_py_handler 1 false no_handlers 4 (some true)).0
        5
        (some true)).0
Reach-IsLimited_example = Reach-IsLimited (omega arith) (
    System.later (System.later System.start (System.spawns false 4 (some true)))
      (System.spawns false 5 (some true)))

abbrev over : Actor c
over = record dedicated {
  tx = some (record { items = user (7 ∷ []) ∷ []; has_sender = false; has_receiver = true });
}

thread_rounds-ended_example :
    let (threads, after) = thread_rounds 2 (3, over) in
    (after.is_running ≡ false)
    × (threads ≡ fetch_sub 3)
    × (seen after
        ≡ seen_at_last over
            (record { items = user (7 ∷ []) ∷ []; has_sender = false; has_receiver = true }))
thread_rounds-ended_example =
    thread_rounds-ended 1 3 over
      (record { items = user (7 ∷ []) ∷ []; has_sender = false; has_receiver = true })
      (record { has_tx = refl; runs = refl; dropped = refl; forwarded = (a_user (7 ∷ []), tt) })
      refl

allocate_buffer-Allocates_example :
    AllocatesUpTo
      (2 ^ 63)
      Buffer.new
      4
      (buffer_result 1 4 true true)
      (allocate_buffer Buffer.new 4 true true)
unfolding Buffer.new
allocate_buffer-Allocates_example =
    allocate_buffer-Allocates Buffer.new 4 true true new-IsFresh (omega arith)

abbrev empty : Runtime c d n PyFactory
empty = Runtime.new c d n PyFactory

send_buffer-SendsBuffer_example :
    SendsBuffer Buffer.new empty 3 1 (send_buffer Buffer.new empty 3 1)
send_buffer-SendsBuffer_example = send_buffer-SendsBuffer Buffer.new empty 3 1 new-IsFresh

abbrev strategy : Text
strategy = b'O' ∷ b'n' ∷ b'e' ∷ []

supervise_with_factory-Supervises_example :
    Supervises empty 3 8 strategy
      (supervise_with_factory empty 3 8 (gave_pid 4) strategy)
      (gave_pid 4)
supervise_with_factory-Supervises_example =
    supervise_with_factory-Supervises empty 3 8 (gave_pid 4) strategy

-- A matcher that takes the payloads that begin with 7.
abbrev takes_seven : PyObject → Called
takes_seven (py_bytes (b ∷ _)) = gave (some (b == 7))
takes_seven _ = raised

-- An actor that is observed, and a message for it that arrives during the first sleep.
abbrev observing : Runtime c d n PyFactory
observing = record empty { observers = (3, user (5 ∷ []) ∷ []) ∷ [] }

abbrev seven_comes : Runtime c d n PyFactory → Runtime c d n PyFactory
seven_comes rt = record rt { observers = (3, user (5 ∷ []) ∷ user (7 ∷ []) ∷ []) ∷ [] }

found_late :
    (selective_recv_observed_py takes_seven true 3 (looks seven_comes ∷ deadline ∷ []) observing).1
    ≡ some (py_bytes (7 ∷ []))
unfolding selective_recv_observed_py take_observed_message_matching position remove_at
    run_python_matcher message_to_py
found_late = refl

selective_recv_observed_py-Observes_example :
    Observes takes_seven true 3 observing
      (selective_recv_observed_py takes_seven true 3 (looks seven_comes ∷ deadline ∷ []) observing)
      (looks (λ rt. rt) ∷ looks seven_comes ∷ deadline ∷ [])
selective_recv_observed_py-Observes_example =
    selective_recv_observed_py-Observes takes_seven true 3 (looks seven_comes ∷ deadline ∷ [])
      observing

not_alive : Runtime.is_alive empty 3 ≡ false
unfolding Runtime.is_alive Runtime.new Pid.is_valid Pid.new Pid.split_pid
not_alive = refl
