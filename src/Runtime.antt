-- ===== src/Runtime.antt =====
-- src/lib.rs: the runtime, which composes the allocator, the mailboxes, the supervisors and the
-- registry. A sender is a handle: `boxes` holds the mailboxes and `mailboxes` maps an identifier to
-- its place there, as long as the runtime keeps the sender.
use mathlib.Core.Option
use myrmidon.Base.{
  ℕ, zero, suc, ◌+◌, ◌%◌, ◌^◌, Bool, true, false, Option, none, some, List, [], ◌∷◌, ◌++◌, map,
  ◌==◌, if◌then◌else◌, Result, ok, err, same_text, length, get_elem?, set,
}
use myrmidon.Base.Search.{position, remove_at}
use myrmidon.Deps.DashMap.{DashMap}
use myrmidon.Deps.Mpsc.{Mpsc, Poll, pending, ready}
use myrmidon.Pid
use myrmidon.Pid.{SlabAllocator}
use myrmidon.Mailbox
use myrmidon.Mailbox.{Mailbox}
use myrmidon.Mailbox.Messages.{SystemMessage, Message, system, ExitReason, ExitInfo}
use myrmidon.Registry
use myrmidon.Registry.{NameRegistry}
use myrmidon.Supervisor
use myrmidon.Supervisor.{Pid, Text, ChildSpec, RestartStrategy, Supervisor, Task}
pub mod Invariant
pub mod Signals
pub mod Exit
pub mod System
pub mod Names
pub mod Observers
pub mod Timers
pub mod Handlers
pub mod Children
pub mod Exiting
pub mod Interleaved
mod Tests

-- What the handle of an actor's task gives when it is awaited: the actor returned, panicked, or its
-- task was cancelled, with the error as text.
pub data JoinResult : Type 0 where
  returned : JoinResult
  panicked cancelled : Text → JoinResult

abbrev pub join_error : Text
join_error = b'j' ∷ b'o' ∷ b'i' ∷ b'n' ∷ b'_' ∷ b'e' ∷ b'r' ∷ b'r' ∷ b'o' ∷ b'r' ∷ []

-- `format!("join_error: {:?}", e)`
abbrev pub join_error_of : Text → Text
join_error_of e = join_error ++ b':' ∷ b' ' ∷ e

unfoldable pub exit_reason : JoinResult → ExitReason × Option Text
exit_reason returned = (ExitReason.normal, none)
exit_reason (panicked e) = (ExitReason.panic, some (join_error_of e))
exit_reason (cancelled e) = (ExitReason.other join_error, some (join_error_of e))

-- A restart task and the path of the supervisor that spawned it, if it is not the global one.
abbrev pub Restart : Type 0 → Type 0
Restart Factory = Option Text × Task Factory

module _ (c : Mpsc) where
  -- The runtime holds the only sender that outlives a call, so removing it closes the mailbox.
  pub closed : Mailbox c → Mailbox c
  closed m = record m { to_user = c.drop_senders m.to_user; to_sys = c.drop_senders m.to_sys }

module _ (d : DashMap ℕ ◌==◌) (n : DashMap Text same_text) {Factory : Type 0} where
  -- The loop over the path supervisors in the exit of an actor.
  pub notify_paths :
      List (Text × Supervisor d Factory)
      → Pid
      → n.Map (Supervisor d Factory)
      → n.Map (Supervisor d Factory) × List (Restart Factory)
  notify_paths [] pid supervisors = (supervisors, [])
  notify_paths ((path, sup) ∷ entries) pid supervisors =
      let (sup', tasks) = Supervisor.notify_exit d sup pid in
      let (supervisors', more) = notify_paths entries pid (
        if Supervisor.contains_child d sup pid
        then n.insert supervisors path sup'
        else supervisors) in
      (
        supervisors',
        (if Supervisor.contains_child d sup pid then map (λ t. (some path, t)) tasks else [])
            ++ more,
      )

module _ (c : Mpsc) (d : DashMap ℕ ◌==◌) (n : DashMap Text same_text) (Factory : Type 0) where
  pub record Runtime : Type 0 where
    pub slab : SlabAllocator
    pub boxes : List (Mailbox c)
    pub mailboxes : d.Map ℕ
    pub supervisor : Supervisor d Factory
    pub observers : d.Map (List Message)
    pub registry : NameRegistry n
    pub path_supervisors : n.Map (Supervisor d Factory)

  unfoldable pub new : Runtime
  new = record {
    slab = Pid.new;
    boxes = [];
    mailboxes = d.new;
    supervisor = Supervisor.new d;
    observers = d.new;
    registry = Registry.new n;
    path_supervisors = n.new;
  }

module _ {c : Mpsc} {d : DashMap ℕ ◌==◌} {n : DashMap Text same_text} {Factory : Type 0} where
  -- The mailbox that a sender of the runtime leads to, with its place.
  pub box_at : Runtime c d n Factory → Pid → Option (ℕ × Mailbox c)
  box_at rt pid = elim (d.get rt.mailboxes pid) [
    | none ↦ none
    | some i ↦ Option.map (λ m. (i, m)) (get_elem? rt.boxes i)
  ]

  pub put_box : Runtime c d n Factory → ℕ → Mailbox c → Runtime c d n Factory
  put_box rt i m = record rt { boxes = set rt.boxes i m }

  unfoldable pub send :
      Runtime c d n Factory → Pid → Message → Runtime c d n Factory × Result (Unit {0}) Message
  send rt pid msg = elim (box_at rt pid) [
    | none ↦ (rt, err msg)
    | some (i, m) ↦ let (m', sent) = Mailbox.send c m msg in (put_box rt i m', sent)
  ]

  unfoldable pub hot_swap : Runtime c d n Factory → Pid → ℕ → Runtime c d n Factory
  hot_swap rt pid handler_ptr = elim (box_at rt pid) [
    | none ↦ rt
    | some (i, m) ↦ put_box rt i (Mailbox.send_system c m (SystemMessage.hot_swap handler_ptr)).0
  ]

  unfoldable pub mailbox_size : Runtime c d n Factory → Pid → Option ℕ
  mailbox_size rt pid = Option.map (λ im. Mailbox.len c im.1) (box_at rt pid)

  unfoldable pub is_alive : Runtime c d n Factory → Pid → Bool
  is_alive rt pid = Pid.is_valid rt.slab pid

  unfoldable pub stop : Runtime c d n Factory → Pid → Runtime c d n Factory
  stop rt pid = elim (box_at rt pid) [
    | none ↦ record rt { mailboxes = d.remove rt.mailboxes pid }
    | some (i, m) ↦ record rt {
      mailboxes = d.remove rt.mailboxes pid;
      boxes = set rt.boxes i (closed c m);
    }
  ]

  -- What every spawning function does first: an identifier, a channel, its sender in the map. The
  -- number is the place of the mailbox, which the actor reads; `none` is a panic of the allocator.
  unfoldable pub spawn_actor : Runtime c d n Factory → Option (Runtime c d n Factory × Pid × ℕ)
  spawn_actor rt =
      Option.map
        (λ (pid, slab). (
          record rt {
            slab = slab;
            boxes = rt.boxes ++ Mailbox.channel c ∷ [];
            mailboxes = d.insert rt.mailboxes pid (length rt.boxes);
          },
          pid,
          length rt.boxes,
        ))
        (Pid.allocate rt.slab)

  unfoldable pub spawn_observed_handler :
      Runtime c d n Factory → Option (Runtime c d n Factory × Pid × ℕ)
  spawn_observed_handler rt =
      Option.map
        (λ (after, pid, i). (record after { observers = d.insert after.observers pid [] }, pid, i))
        (spawn_actor rt)

  -- The loop over the linked actors: those with a mailbox get the exit signal.
  pub signal : List Pid → ExitInfo → Runtime c d n Factory → Runtime c d n Factory
  signal [] info rt = rt
  signal (lp ∷ linked) info rt =
      signal linked info (send rt lp (system (SystemMessage.exit info))).0

  -- The rest of the task of an actor, once the actor has ended, as one step: out of the map, the
  -- supervisors, the slot, the links, the exit signals.
  unfoldable pub exit_actor :
      Runtime c d n Factory → Pid → JoinResult → Runtime c d n Factory × List (Restart Factory)
  unfolding notify_paths signal
  exit_actor rt pid res =
      let (reason, meta) = exit_reason res in
      let removed = stop rt pid in
      let (notified, tasks) = Supervisor.notify_exit d removed.supervisor pid in
      let (paths, more) =
        notify_paths d n (n.iter removed.path_supervisors) pid removed.path_supervisors in
      let (unlinked, linked) = Supervisor.linked_pids d notified pid in
      (
        signal linked (record { from = pid; reason = reason; metadata = meta })
            (record removed {
              supervisor = unlinked;
              path_supervisors = paths;
              slab = (Pid.deallocate removed.slab pid).0;
            }),
        map (λ t. (none, t)) tasks ++ more,
      )
