-- ===== src/Runtime/Interleaved.antt =====
-- The runtime of src/lib.rs with the exits of actors part by part, in any order among other calls.
use myrmidon.Base.{
  ℕ, ◌^◌, ◌<◌, ◌≢◌, ◌≡◌, refl, sym, ap, subst, ◌∙◌, ◌⊎◌, inl, inr, Bool, true, false, Option, none,
  some, List, [], ◌∷◌, ◌++◌, ◌==◌, same_text, length, get_elem?, set, arith, Option-cases,
  Bool-cases, get_elem?-set, get_elem?-push, get_elem?_inside,
}
use myrmidon.Deps.DashMap.{DashMap}
use myrmidon.Deps.Mpsc.{Mpsc}
use myrmidon.Pid.Invariant.{deallocate-IsWf}
use myrmidon.Pid.Validity.{deallocate-is_valid}
use myrmidon.Mailbox.Messages.{SystemMessage, Message, system, ExitInfo}
use myrmidon.Supervisor.{Pid, Text}
use myrmidon.Runtime.{
  Runtime, JoinResult, new, box_at, put_box, is_alive, send, hot_swap, spawn_actor,
}
use myrmidon.Runtime.Exit.{exit_info}
use myrmidon.Runtime.Exiting.{
  ExitStage, to_unmap, to_notify, to_notify_paths, to_deallocate, to_unlink, to_signal, over,
  exit_part,
}
use myrmidon.Runtime.Invariant.{
  IsWf, new-IsWf, same_slots-IsWf, send_found, send_missing, send-IsWf, removed-IsWf, stop_parts,
  stop-IsWf, Spawned, spawn_actor-Spawned,
}
use myrmidon.Runtime.System.{
  Call, sends, swaps, stops, reads, supervises, names, observes, Call-IsWf,
}
pub mod Parts
pub mod Spawning
pub mod Owned

-- The task of an actor, which waits for the handler at first.
pub record ActorTask : Type 0 where
  pub pid : Pid
  pub exiting : Option (ExitInfo × ExitStage)

-- The slot of the actor has not been given back.
abbrev pub holds_slot : Option (ExitInfo × ExitStage) → Bool
holds_slot none = true
holds_slot (some (info, to_unmap)) = true
holds_slot (some (info, to_notify)) = true
holds_slot (some (info, to_notify_paths)) = true
holds_slot (some (info, to_deallocate)) = true
holds_slot (some (info, to_unlink)) = false
holds_slot (some (info, to_signal linked)) = false
holds_slot (some (info, over)) = false

-- The sender of the actor has been taken out, and its slot not yet given back.
abbrev pub unmapped : Option (ExitInfo × ExitStage) → Bool
unmapped none = false
unmapped (some (info, to_unmap)) = false
unmapped (some (info, to_notify)) = true
unmapped (some (info, to_notify_paths)) = true
unmapped (some (info, to_deallocate)) = true
unmapped (some (info, to_unlink)) = false
unmapped (some (info, to_signal linked)) = false
unmapped (some (info, over)) = false

module _ (c : Mpsc) (d : DashMap ℕ ◌==◌) (n : DashMap Text same_text) (Factory : Type 0) where
  pub record System : Type 0 where
    pub runtime : Runtime c d n Factory
    pub tasks : List ActorTask

  -- A spawn, the end of a handler, the next part of an exit, or another call.
  pub data Step (s : System) : System → Type 0 where
    spawns :
        (after : Runtime c d n Factory) (pid : Pid) (i : ℕ)
        → (s.runtime.slab.free_list ≢ []) ⊎ (length s.runtime.slab.entries < 2 ^ 32)
        → spawn_actor s.runtime ≡ some (after, pid, i)
        → Step s (record {
          runtime = after;
          tasks = s.tasks ++ record { pid = pid; exiting = none } ∷ [];
        })
    ends :
        (i : ℕ) (pid : Pid) (res : JoinResult)
        → get_elem? s.tasks i ≡ some (record { pid = pid; exiting = none })
        → Step s (record s {
          tasks =
              set s.tasks i (record { pid = pid; exiting = some (exit_info pid res, to_unmap) });
        })
    exits :
        (i : ℕ) (pid : Pid) (info : ExitInfo) (stage : ExitStage)
        → get_elem? s.tasks i ≡ some (record { pid = pid; exiting = some (info, stage) })
        → Step s (record {
          runtime = (exit_part pid info stage s.runtime).0;
          tasks =
              set s.tasks i (record {
                pid = pid;
                exiting = some (info, (exit_part pid info stage s.runtime).1);
              });
        })
    calls :
        {after : Runtime c d n Factory}
        → Call c d n Factory s.runtime after
        → Step s (record s { runtime = after })

  pub data Reach : System → Type 0 where
    start : Reach (record { runtime = new c d n Factory; tasks = [] })
    later : {s after : System} → Reach s → Step s after → Reach after

  -- Who has a slot, and who still has a sender.
  pub record IsOwned (s : System) : Type 0 where
    pub wf : IsWf s.runtime
    pub alive :
        (i : ℕ) (t : ActorTask)
        → get_elem? s.tasks i ≡ some t
        → holds_slot t.exiting ≡ true
        → is_alive s.runtime t.pid ≡ true
    pub covered :
        (q : Pid)
        → q < 2 ^ 64
        → is_alive s.runtime q ≡ true
        → (i : ℕ) × (t : ActorTask) × (get_elem? s.tasks i ≡ some t)
          × (holds_slot t.exiting ≡ true)
          × (t.pid ≡ q)
    pub small : (i : ℕ) (t : ActorTask) → get_elem? s.tasks i ≡ some t → t.pid < 2 ^ 64
    pub gone :
        (i : ℕ) (t : ActorTask)
        → get_elem? s.tasks i ≡ some t
        → unmapped t.exiting ≡ true
        → d.get s.runtime.mailboxes t.pid ≡ none
    pub once :
        (i j : ℕ) (t u : ActorTask)
        → get_elem? s.tasks i ≡ some t
        → get_elem? s.tasks j ≡ some u
        → holds_slot t.exiting ≡ true
        → holds_slot u.exiting ≡ true
        → t.pid ≡ u.pid
        → i ≡ j
