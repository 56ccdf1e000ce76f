-- ===== src/Runtime/Observers.antt =====
-- Observed actors of src/lib.rs: their loop, and the messages that they kept.
use myrmidon.Base.{
  ℕ, ◌≡◌, refl, inl, inr, ◌⊎◌, Bool, Option, none, some, List, [], ◌∷◌, ◌++◌, ◌==◌, if◌then◌else◌,
  same_text, Option-cases,
}
use myrmidon.Base.Search.{position, remove_at, Miss, Hit, position-cases}
use myrmidon.Deps.DashMap.{DashMap}
use myrmidon.Deps.Mpsc.{Mpsc, pending, ready}
use myrmidon.Mailbox
use myrmidon.Mailbox.{Mailbox}
use myrmidon.Mailbox.Messages.{Message}
use myrmidon.Supervisor.{Pid, Text}
use myrmidon.Runtime.{Runtime, put_box}

-- What one poll of an observed actor's loop comes to.
pub data Round : Type 0 where
  waits handled ended : Round

module _ {c : Mpsc} {d : DashMap ℕ ◌==◌} {n : DashMap Text same_text} {Factory : Type 0} where
  unfoldable pub get_observed_messages : Runtime c d n Factory → Pid → Option (List Message)
  get_observed_messages rt pid = d.get rt.observers pid

  push_observed : Runtime c d n Factory → Pid → Message → Runtime c d n Factory
  push_observed rt pid msg = elim (d.get rt.observers pid) [
    | none ↦ rt
    | some msgs ↦ record rt { observers = d.insert rt.observers pid (msgs ++ msg ∷ []) }
  ]

  -- One poll of the loop of an observed actor whose mailbox stands at a place.
  unfoldable pub observe :
      Runtime c d n Factory → Pid → ℕ → Mailbox c → Runtime c d n Factory × Round
  unfolding push_observed
  observe rt pid i m =
      let (received, m') = Mailbox.recv c m in
      elim received [
        | pending ↦ (put_box rt i m', waits)
        | ready none ↦ (put_box rt i m', ended)
        | ready (some msg) ↦ (push_observed (put_box rt i m') pid msg, handled)
      ]

  unfoldable pub take_observed_message_matching :
      Runtime c d n Factory → Pid → (Message → Bool) → Runtime c d n Factory × Option Message
  take_observed_message_matching rt pid matcher = elim (d.get rt.observers pid) [
    | none ↦ (rt, none)
    | some msgs ↦ elim (position matcher msgs) [
      | none ↦ (rt, none)
      | some pos ↦
          let (msg, left) = remove_at msgs pos in
          (record rt { observers = d.insert rt.observers pid left }, msg)
    ]
  ]

  -- What taking an observed message comes to.
  pub data Takes (rt : Runtime c d n Factory) (pid : Pid) (matcher : Message → Bool)
      (r : Runtime c d n Factory × Option Message) : Type 0 where
    nothing :
        (d.get rt.observers pid ≡ none)
          ⊎ ((msgs : List Message) × (d.get rt.observers pid ≡ some msgs) × Miss matcher msgs)
        → r ≡ (rt, none)
        → Takes rt pid matcher r
    first_match :
        (msgs : List Message) (h : Hit matcher msgs)
        → d.get rt.observers pid ≡ some msgs
        → r.1 ≡ some h.elem
        → ((q : Pid)
            → get_observed_messages r.0 q
              ≡ (if pid == q then some (h.before ++ h.behind) else get_observed_messages rt q))
        → Takes rt pid matcher r

  -- `take_observed_message_matching` gives the first kept message that the matcher takes, and takes out
  -- that one alone: the others stay in their order, those of other actors too; when none matches, or
  -- the actor is not observed, nothing is given and nothing changes.
  pub take_observed-Takes :
      (rt : Runtime c d n Factory) (pid : Pid) (matcher : Message → Bool)
      → Takes rt pid matcher (take_observed_message_matching rt pid matcher)
  unfolding take_observed_message_matching get_observed_messages
  take_observed-Takes rt pid matcher = elim (Option-cases (d.get rt.observers pid)) [
    | inl e ↦ rw (e, take_observed_message_matching) (nothing (inl e) refl)
    | inr (msgs, e) ↦ elim (position-cases matcher msgs) [
      | inl miss ↦
          rw (e, miss.at, take_observed_message_matching) (nothing (inr (msgs, e, miss)) refl)
      | inr h ↦
          rw (e, h.at, h.removed, take_observed_message_matching)
            (first_match msgs h e refl
              (λ q. d.get-insert rt.observers pid (h.before ++ h.behind) q))
    ]
  ]
