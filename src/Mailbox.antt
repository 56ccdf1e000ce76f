-- ===== src/Mailbox.antt =====
-- src/mailbox.rs: a mailbox with a channel for system messages, one for user messages, a stash of
-- deferred messages, and a counter of the user messages that wait. The two halves share the
-- channels and the counter, so one record holds both. A `usize` has 64 bits.
use mathlib.Core.Option
use myrmidon.Base.{
  ℕ, zero, suc, ◌+◌, ◌-◌, ◌%◌, ◌^◌, Bool, true, false, Option, none, some, List, [], ◌∷◌, ◌++◌,
  if◌then◌else◌, Result, ok, err,
}
use myrmidon.Base.Search.{position, remove_at}
use myrmidon.Deps.Mpsc.{Mpsc, Poll, pending, ready}
pub mod Messages
pub mod Contents
pub mod Sending
pub mod Receiving
pub mod Awaiting
pub mod Selective
pub mod Selecting
pub mod Counting
mod Tests
use Messages.{Bytes, SystemMessage, Message, user, system, is_system, is_user}

-- `fetch_add(1)` and `fetch_sub(1)` of an `AtomicUsize` wrap.
unfoldable pub fetch_add : ℕ → ℕ
fetch_add n = (n + 1) % 2 ^ 64

unfoldable pub fetch_sub : ℕ → ℕ
fetch_sub n = (n + (2 ^ 64 - 1)) % 2 ^ 64

pub record Mailbox (c : Mpsc) : Type 0 where
  pub to_user : c.Chan Bytes
  pub to_sys : c.Chan SystemMessage
  pub stash : List Message
  pub counter : ℕ

-- A message from the stash or the user channel is counted down when it is a user message.
pub counted_down : Message → ℕ → ℕ
counted_down msg n = if is_user msg then fetch_sub n else n

counted_taken : Option Message → ℕ → ℕ
counted_taken none n = n
counted_taken (some msg) n = counted_down msg n

module _ (c : Mpsc) where
  unfoldable pub channel : Mailbox c
  channel = record {
    to_user = c.unbounded_channel;
    to_sys = c.unbounded_channel;
    stash = [];
    counter = 0;
  }

  -- `send_user_bytes`, and the first branch of `send`: count first, and take it back on failure.
  unfoldable pub send_user_bytes : Mailbox c → Bytes → Mailbox c × Result (Unit {0}) Bytes
  send_user_bytes m b =
      let counted = fetch_add m.counter in
      let (sent, chan) = c.send m.to_user b in
      if sent
      then (record m { to_user = chan; counter = counted }, ok tt)
      else (record m { to_user = chan; counter = fetch_sub counted }, err b)

  unfoldable pub send_system :
      Mailbox c → SystemMessage → Mailbox c × Result (Unit {0}) SystemMessage
  send_system m s =
      let (sent, chan) = c.send m.to_sys s in
      let after = record m { to_sys = chan } in if sent then (after, ok tt) else (after, err s)

  unfoldable pub send : Mailbox c → Message → Mailbox c × Result (Unit {0}) Message
  unfolding fetch_add fetch_sub
  send m (user b) =
      let counted = fetch_add m.counter in
      let (sent, chan) = c.send m.to_user b in
      if sent
      then (record m { to_user = chan; counter = counted }, ok tt)
      else (record m { to_user = chan; counter = fetch_sub counted }, err (user b))
  send m (system s) =
      let (sent, chan) = c.send m.to_sys s in
      let after = record m { to_sys = chan } in
      if sent then (after, ok tt) else (after, err (system s))

  unfoldable pub len : Mailbox c → ℕ
  len m = m.counter

  -- The receiver is dropped, with its stash and the receiving ends of its channels. The counter is
  -- shared with the senders and stays.
  unfoldable pub drop_receiver : Mailbox c → Mailbox c
  drop_receiver m = record m {
    to_user = c.drop_receiver m.to_user;
    to_sys = c.drop_receiver m.to_sys;
    stash = [];
  }

  -- The second branch of the `select!` in `recv`.
  pub recv_user : Mailbox c → Poll (Option Message) × Mailbox c
  recv_user m =
      let (polled, chan) = c.poll_recv m.to_user in
      elim polled [
        | pending ↦ (pending, record m { to_user = chan })
        | ready none ↦ (ready none, record m { to_user = chan })
        | ready (some b) ↦
            (ready (some (user b)), record m { to_user = chan; counter = fetch_sub m.counter })
      ]

  -- The `select!` of `recv`: the system channel is polled first.
  pub recv_select : Mailbox c → Poll (Option Message) × Mailbox c
  recv_select m =
      let (polled, chan) = c.poll_recv m.to_sys in
      let after = record m { to_sys = chan } in
      elim polled [ pending ↦ recv_user after | ready sys ↦ (ready (Option.map system sys), after) ]

  -- The common beginning of `recv` and `try_recv`: a system message of the stash, a system message
  -- of the channel, the front of the stash. `pending` stands for going on.
  pub take_ready : Mailbox c → Poll (Option Message) × Mailbox c
  take_ready m = elim (position is_system m.stash) [
    | some pos ↦ let (msg, stash) = remove_at m.stash pos in (ready msg, record m { stash = stash })
    | none ↦
        let (sys, chan) = c.try_recv m.to_sys in
        let after = record m { to_sys = chan } in
        elim sys [
          | some s ↦ (ready (some (system s)), after)
          | none ↦ elim m.stash [
            | [] ↦ (pending, after)
            | front ∷ rest ↦ (
              ready (some front),
              record after { stash = rest; counter = counted_down front m.counter },
            )
          ]
        ]
  ]

  -- One poll of the future `recv`. When it is pending nothing waits in the mailbox, so a later poll
  -- of the `select!` alone is a poll of the whole.
  pub recv : Mailbox c → Poll (Option Message) × Mailbox c
  recv m =
      let (first, after) = take_ready m in
      elim first [ ready msg ↦ (ready msg, after) | pending ↦ recv_select after ]

  pub try_recv_user : Mailbox c → Option Message × Mailbox c
  try_recv_user m =
      let (received, chan) = c.try_recv m.to_user in
      elim received [
        | none ↦ (none, record m { to_user = chan })
        | some b ↦ (some (user b), record m { to_user = chan; counter = fetch_sub m.counter })
      ]

  pub try_recv : Mailbox c → Option Message × Mailbox c
  try_recv m =
      let (first, after) = take_ready m in
      elim first [ ready msg ↦ (msg, after) | pending ↦ try_recv_user after ]

  module _ (matcher : Message → Bool) where
    -- Deliver a message, with the mailbox then to be left, or stash it and go round again (`none`).
    offer : Mailbox c → Message → Mailbox c → Option (Poll (Option Message)) × Mailbox c
    offer m msg delivered =
        if matcher msg
        then (some (ready (some msg)), delivered)
        else (none, record m { stash = m.stash ++ msg ∷ [] })

    -- The second branch of the `select!` in the loop.
    select_user : Mailbox c → Option (Poll (Option Message)) × Mailbox c
    select_user m =
        let (polled, chan) = c.poll_recv m.to_user in
        let after = record m { to_user = chan } in
        elim polled [
          | pending ↦ (some pending, after)
          | ready none ↦ (some (ready none), after)
          | ready (some b) ↦ offer after (user b) (record after { counter = fetch_sub m.counter })
        ]

    -- The `select!` of the loop.
    select_round : Mailbox c → Option (Poll (Option Message)) × Mailbox c
    select_round m =
        let (polled, chan) = c.poll_recv m.to_sys in
        let after = record m { to_sys = chan } in
        elim polled [
          | pending ↦ select_user after
          | ready none ↦ (some (ready none), after)
          | ready (some s) ↦ offer after (system s) after
        ]

    -- One round of the loop; `none` is `continue`.
    pub round : Mailbox c → Option (Poll (Option Message)) × Mailbox c
    round m =
        let (sys, chan) = c.try_recv m.to_sys in
        let after = record m { to_sys = chan } in
        elim sys [ none ↦ select_round after | some s ↦ offer after (system s) after ]

    -- The loop, on fuel; `none` says that the fuel ran out.
    pub rounds : ℕ → Mailbox c → Option (Poll (Option Message)) × Mailbox c
    rounds zero m = (none, m)
    rounds (suc fuel) m =
        let (result, after) = round m in
        elim result [ none ↦ rounds fuel after | some p ↦ (some p, after) ]

    -- One poll of `selective_recv`, for a matcher that is a function of the message.
    pub selective_recv : ℕ → Mailbox c → Option (Poll (Option Message)) × Mailbox c
    selective_recv fuel m = elim (position matcher m.stash) [
      | some idx ↦
          let (msg, stash) = remove_at m.stash idx in
          (some (ready msg), record m { stash = stash; counter = counted_taken msg m.counter })
      | none ↦ rounds fuel m
    ]
