-- ===== src/Runtime/System.antt =====
-- The runtime of src/lib.rs under calls and exits in any order.
use myrmidon.Base.{
  ℕ, ◌^◌, ◌<◌, ◌≢◌, ◌≡◌, ◌⊎◌, refl, subst, some, List, [], ◌==◌, same_text, length, arith,
}
use myrmidon.Deps.DashMap.{DashMap}
use myrmidon.Deps.Mpsc.{Mpsc}
use myrmidon.Mailbox.{Mailbox}
use myrmidon.Mailbox.Messages.{Message}
use myrmidon.Registry.{NameRegistry}
use myrmidon.Supervisor.{Pid, Text, Supervisor}
use myrmidon.Runtime.{
  Runtime, JoinResult, new, put_box, send, hot_swap, is_alive, stop, spawn_actor, exit_actor,
}
use myrmidon.Runtime.Invariant.{
  IsWf, new-IsWf, same_slots-IsWf, put_box-IsWf, send-IsWf, hot_swap-IsWf, stop-IsWf,
  spawn_actor-Spawned,
}
use myrmidon.Runtime.Exit.{exit_actor-is_alive}

module _ (c : Mpsc) (d : DashMap ℕ ◌==◌) (n : DashMap Text same_text) (Factory : Type 0) where
  -- A call that spawns nobody, or a step of an actor on its own mailbox. Calls for the supervisors, the
  -- registry and the observers change their fields only.
  pub data Call (rt : Runtime c d n Factory) : Runtime c d n Factory → Type 0 where
    sends : (pid : Pid) (msg : Message) → Call rt (send rt pid msg).0
    swaps : (pid : Pid) (handler_ptr : ℕ) → Call rt (hot_swap rt pid handler_ptr)
    stops : (pid : Pid) → Call rt (stop rt pid)
    reads : (i : ℕ) (m : Mailbox c) → Call rt (put_box rt i m)
    supervises :
        (supervisor : Supervisor d Factory) (paths : n.Map (Supervisor d Factory))
        → Call rt (record rt { supervisor = supervisor; path_supervisors = paths })
    names : (registry : NameRegistry n) → Call rt (record rt { registry = registry })
    observes : (observers : d.Map (List Message)) → Call rt (record rt { observers = observers })

  -- A spawn, an exit as a whole, or another call.
  pub data Step (rt : Runtime c d n Factory) : Runtime c d n Factory → Type 0 where
    spawns :
        (after : Runtime c d n Factory) (pid : Pid) (i : ℕ)
        → (rt.slab.free_list ≢ []) ⊎ (length rt.slab.entries < 2 ^ 32)
        → spawn_actor rt ≡ some (after, pid, i)
        → Step rt after
    exits : (pid : Pid) (res : JoinResult) → pid < 2 ^ 64 → Step rt (exit_actor rt pid res).0
    calls : {after : Runtime c d n Factory} → Call rt after → Step rt after

  pub data Reach : Runtime c d n Factory → Type 0 where
    start : Reach (new c d n Factory)
    later : {rt after : Runtime c d n Factory} → Reach rt → Step rt after → Reach after

  pub Call-IsWf : {rt after : Runtime c d n Factory} → Call rt after → IsWf rt → IsWf after
  unfolding is_alive
  Call-IsWf {rt} (sends pid msg) v = send-IsWf rt pid msg v
  Call-IsWf {rt} (swaps pid handler_ptr) v = hot_swap-IsWf rt pid handler_ptr v
  Call-IsWf {rt} (stops pid) v = stop-IsWf rt pid v
  Call-IsWf {rt} (reads i m) v = put_box-IsWf rt i m v
  Call-IsWf {rt} (supervises supervisor paths) v = same_slots-IsWf rt _ v refl refl refl
  Call-IsWf {rt} (names registry) v = same_slots-IsWf rt _ v refl refl refl
  Call-IsWf {rt} (observes observers) v = same_slots-IsWf rt _ v refl refl refl

  Step-IsWf : {rt after : Runtime c d n Factory} → Step rt after → IsWf rt → IsWf after
  Step-IsWf {rt} (spawns after pid i room e) v =
      let (made, pid', eq, spawned) = spawn_actor-Spawned rt v room in
      let same : made ≡ after = ground arith in subst IsWf same spawned.wf
  Step-IsWf {rt} (exits pid res small) v =
      (exit_actor-is_alive rt pid pid res (Message.user []) v small).0
  Step-IsWf (calls call) v = Call-IsWf call v

  -- In every state that calls and exits can reach, in any order, the runtime is well formed: whoever
  -- has a sender in the map is alive, no two actors share a mailbox, and the allocator is in order.
  pub Reach-IsWf : {rt : Runtime c d n Factory} → Reach rt → IsWf rt
  Reach-IsWf start = new-IsWf
  Reach-IsWf (later r st) = Step-IsWf st (Reach-IsWf r)
