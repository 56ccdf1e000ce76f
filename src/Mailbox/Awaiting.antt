-- ===== src/Mailbox/Awaiting.antt =====
-- One poll of the future `recv` of src/mailbox.rs, on every branch of its `select!`.
use myrmidon.Base.{
  ◌≡◌, refl, ◌⊎◌, inl, inr, Bool, true, false, Option, none, some, List, [], ◌∷◌, map, arith,
  List-cases, Bool-cases,
}
use myrmidon.Base.Search.{position}
use myrmidon.Deps.Mpsc.{Mpsc, Poll, pending, ready, first?}
use myrmidon.Mailbox.Messages.{Bytes, Message, user}
use myrmidon.Mailbox.{Mailbox, take_ready, recv_select, recv, recv_user, try_recv_user, try_recv}
use myrmidon.Mailbox.Contents.{pending_system, pending_user, Delivers, of_user}
use myrmidon.Mailbox.Receiving.{
  Receives, waits, delivered, fell, falls, try_recv_ready, try_recv_pending, recv_ready,
  recv_pending,
}

module _ (c : Mpsc) where
  -- What a poll of `recv` may give: the message due; nothing yet, from an empty mailbox with a
  -- sender for each channel; or the end, once the system channel, or the user channel and it, are
  -- drained and have no sender.
  abbrev pub Polls : Mailbox c → Mailbox c → Poll (Option Message) → Type 0
  Polls m after pending =
      Receives c m after none
      × ((c.state m.to_sys).has_sender ≡ true)
      × ((c.state m.to_user).has_sender ≡ true)
  Polls m after (ready (some msg)) = Delivers c m msg after
  Polls m after (ready none) =
      (pending_system c m ≡ [])
      × (m.stash ≡ [])
      × (((c.state m.to_sys).has_sender ≡ false)
          ⊎ ((pending_user c m ≡ []) × ((c.state m.to_user).has_sender ≡ false)))
      × (pending_user c after ≡ pending_user c m)
      × (after.counter ≡ m.counter)

  module _ (m : Mailbox c) (stash : m.stash ≡ []) (sys : (c.state m.to_sys).items ≡ []) where
    abbrev asked : Mailbox c
    asked = record m { to_sys = (c.try_recv m.to_sys).1 }

    abbrev polled_sys : Mailbox c
    polled_sys = record m { to_sys = (c.poll_recv (c.try_recv m.to_sys).1).1 }

    select_ended :
        (c.state m.to_sys).has_sender ≡ false → recv_select c asked ≡ (ready none, polled_sys)
    unfolding recv_select
    select_ended closed =
        ground (
          arith,
          c.poll_recv_result (c.try_recv m.to_sys).1,
          c.state-try_recv m.to_sys,
          sys,
          closed,
        )

    select_open :
        (c.state m.to_sys).has_sender ≡ true → recv_select c asked ≡ recv_user c polled_sys
    unfolding recv_select
    select_open open_sys = ground (
      arith,
      c.poll_recv_result (c.try_recv m.to_sys).1,
      c.state-try_recv m.to_sys,
      sys,
      open_sys,
    )

    sys_drained : (c.state polled_sys.to_sys).items ≡ []
    sys_drained = rw (c.state-poll_recv (c.try_recv m.to_sys).1, c.state-try_recv m.to_sys, sys)

    user_Polls :
        (items : List Bytes) (sender : Bool)
        → (c.state m.to_user).items ≡ items
        → (c.state m.to_user).has_sender ≡ sender
        → (c.state m.to_sys).has_sender ≡ true
        → Polls m (recv_user c polled_sys).1 (recv_user c polled_sys).0
    unfolding recv_user
    user_Polls [] true e e' live =
        rw (c.poll_recv_result m.to_user, e, e', recv_user)
          (
            (
              rw (stash, sys) refl,
              rw (stash, e) refl,
              rw (stash, sys_drained) refl,
              rw (stash, c.state-poll_recv m.to_user, e) refl,
              refl,
            ),
            live,
            e',
          )
    user_Polls [] false e e' live =
        rw (c.poll_recv_result m.to_user, e, e', recv_user)
          (
            rw (stash, sys) refl,
            stash,
            inr (rw (stash, e) refl, e'),
            rw (stash, c.state-poll_recv m.to_user, e) refl,
            refl,
          )
    user_Polls (b ∷ bs) sender e e' live =
        rw (c.poll_recv_result m.to_user, e, recv_user)
          (of_user refl (rw (stash, sys)) (rw (stash, sys_drained))
            (rw (c.state-poll_recv m.to_user, stash, e)) refl)

  -- `recv` takes the oldest system message, else the oldest user message; it waits only when nothing
  -- is there and senders live; it ends when the system channel has ended, or both have.
  pub recv-Polls : (m : Mailbox c) → Polls m (recv c m).1 (recv c m).0
  recv-Polls m = elim (falls c m) [
    | delivered msg after e d ↦ rw (recv_ready c m after (some msg) e) d
    | fell e stash sys ↦ elim (Bool-cases (c.state m.to_sys).has_sender) [
      | inl live ↦
          rw (recv_pending c m _ e, select_open m stash sys live)
            (user_Polls m stash sys (c.state m.to_user).items (c.state m.to_user).has_sender refl
              refl live)
      | inr closed ↦
          rw (recv_pending c m _ e, select_ended m stash sys closed)
            (rw (stash, sys) refl, stash, inl closed, rw stash refl, refl)
    ]
  ]

  empty_pending :
      (m : Mailbox c)
      → m.stash ≡ []
      → (c.state m.to_sys).items ≡ []
      → take_ready c m ≡ (pending, record m { to_sys = (c.try_recv m.to_sys).1 })
  unfolding take_ready position
  empty_pending m stash sys = ground (arith, c.try_recv_result m.to_sys)

  first_user : (m : Mailbox c) → (try_recv_user c m).0 ≡ first? (map user (c.state m.to_user).items)
  unfolding try_recv_user
  first_user m = elim (List-cases (c.state m.to_user).items) [
    | inl e ↦ ground (arith, c.try_recv_result m.to_user)
    | inr r ↦ ground (arith, c.try_recv_result m.to_user, r.eq)
  ]

  -- Once no sender of system messages lives, the stash is empty and no system message is left,
  -- `recv` gives `None` and leaves every user message of the channel where it is, while `try_recv`
  -- would give the oldest.
  pub recv_closed :
      (m : Mailbox c)
      → (c.state m.to_sys).has_sender ≡ false
      → m.stash ≡ []
      → (c.state m.to_sys).items ≡ []
      → ((recv c m).0 ≡ ready none)
        × (pending_user c (recv c m).1 ≡ pending_user c m)
        × ((try_recv c m).0 ≡ first? (pending_user c m))
  recv_closed m closed stash sys =
      let e = empty_pending m stash sys in
      rw
        (
          recv_pending c m _ e,
          select_ended m stash sys closed,
          try_recv_pending c m _ e,
          first_user (record m { to_sys = (c.try_recv m.to_sys).1 }),
        )
        (refl, rw stash refl, rw stash refl)

  polled_user :
      (m : Mailbox c) (stash : m.stash ≡ []) (sys : (c.state m.to_sys).items ≡ [])
      → (c.state m.to_user).has_sender ≡ true
      → (recv_user c (polled_sys m stash sys)).0
        ≡ waits (first? (map user (c.state m.to_user).items))
  unfolding recv_user
  polled_user m stash sys live = elim (List-cases (c.state m.to_user).items) [
    | inl e ↦ ground (arith, c.poll_recv_result m.to_user)
    | inr r ↦ ground (arith, c.poll_recv_result m.to_user, r.eq)
  ]

  -- `recv` agrees with `try_recv` while a sender lives: it delivers what `try_recv` does, and waits
  -- where that gives nothing.
  pub recv-try_recv :
      (m : Mailbox c)
      → (c.state m.to_sys).has_sender ≡ true
      → (c.state m.to_user).has_sender ≡ true
      → (recv c m).0 ≡ waits (try_recv c m).0
  recv-try_recv m alive alive' = elim (falls c m) [
    | delivered msg after e d ↦
        rw (try_recv_ready c m after (some msg) e, recv_ready c m after (some msg) e)
    | fell e stash sys ↦
        rw
          (
            try_recv_pending c m _ e,
            recv_pending c m _ e,
            select_open m stash sys alive,
            first_user (record m { to_sys = (c.try_recv m.to_sys).1 }),
          )
          (polled_user m stash sys alive')
  ]
