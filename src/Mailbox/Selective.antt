-- ===== src/Mailbox/Selective.antt =====
-- `selective_recv` of src/mailbox.rs, against the removal of the first match from one list.
use myrmidon.Base.{
  ◌+◌, ◌≡◌, refl, ◌⊎◌, inl, inr, Bool, true, false, Option, none, some, List, [], ◌∷◌, ◌++◌, map,
  length, keep, arith, Bool-cases, List-cases,
}
use mathlib.Core.List.{append_assoc}
use myrmidon.Base.Search.{keep-append}
use myrmidon.Deps.Mpsc.{Mpsc, Poll, pending, ready}
use myrmidon.Mailbox.Messages.{Bytes, SystemMessage, Message, user, system}
use myrmidon.Mailbox.{Mailbox, counted_down, offer, select_user, select_round, round}

module _ (c : Mpsc) where
  -- The order in which `selective_recv` looks: the stash, the system channel, the user channel.
  abbrev pub arrival : Mailbox c → List Message
  arrival m = m.stash ++ (map system (c.state m.to_sys).items ++ map user (c.state m.to_user).items)

  module _ (matcher : Message → Bool) where
    abbrev pub Keeps : Mailbox c → Mailbox c → Type 0
    Keeps m after = (arrival after ≡ arrival m) × (after.counter ≡ m.counter)

    -- The first match is taken out, and counted down if it is a user message.
    pub record Takes (m : Mailbox c) (msg : Message) (after : Mailbox c) : Type 0 where
      pub before : List Message
      pub behind : List Message
      pub found : arrival m ≡ before ++ msg ∷ behind
      pub first : keep matcher before ≡ []
      pub matches : matcher msg ≡ true
      pub left : arrival after ≡ before ++ behind
      pub count : after.counter ≡ counted_down msg m.counter

    -- What one poll of `selective_recv` may give.
    abbrev pub Selects : Mailbox c → Mailbox c → Poll (Option Message) → Type 0
    Selects m after (ready (some msg)) = Takes m msg after
    Selects m after pending =
        Keeps m after
        × (keep matcher (arrival m) ≡ [])
        × ((c.state m.to_sys).has_sender ≡ true)
        × ((c.state m.to_user).has_sender ≡ true)
    Selects m after (ready none) =
        Keeps m after
        × (((c.state m.to_sys).has_sender ≡ false)
            ⊎ (((c.state m.to_user).has_sender ≡ false) × (keep matcher (arrival m) ≡ [])))

    -- What one round may give: `none` moves the next message to the stash.
    abbrev pub GoesOn : Mailbox c → Mailbox c → Type 0
    GoesOn m after =
        Keeps m after
        × (keep matcher after.stash ≡ [])
        × (length (c.state after.to_sys).items + length (c.state after.to_user).items + 1
            ≡ length (c.state m.to_sys).items + length (c.state m.to_user).items)
        × ((c.state after.to_sys).has_sender ≡ (c.state m.to_sys).has_sender)
        × ((c.state after.to_user).has_sender ≡ (c.state m.to_user).has_sender)

    abbrev pub Round : Mailbox c → Mailbox c → Option (Poll (Option Message)) → Type 0
    Round m after none = GoesOn m after
    Round m after (some p) = Selects m after p

    round_sys :
        (m : Mailbox c) (s : SystemMessage) (more : List SystemMessage)
        → keep matcher m.stash ≡ []
        → (c.state m.to_sys).items ≡ s ∷ more
        → Round m (round c matcher m).1 (round c matcher m).0
    unfolding round offer counted_down
    round_sys m s more h e = elim (Bool-cases (matcher (system s))) [
      | inl t ↦
          rw (c.try_recv_result m.to_sys, e, t, round)
            (record {
              before = m.stash;
              behind = map system more ++ map user (c.state m.to_user).items;
              found = rw e refl;
              first = h;
              matches = t;
              left = rw (c.state-try_recv m.to_sys, e) refl;
              count = refl;
            })
      | inr f ↦
          rw (c.try_recv_result m.to_sys, e, f, round)
            (
              (rw (c.state-try_recv m.to_sys, e) (append_assoc m.stash (system s ∷ []) _), refl),
              rw (keep-append matcher m.stash (system s ∷ []), h, f) refl,
              rw (c.state-try_recv m.to_sys, e) (omega arith),
              rw (c.state-try_recv m.to_sys) refl,
              refl,
            )
    ]

    -- The rounds of an empty system channel: `select!` polls it again, then the user channel.
    module _ (m : Mailbox c) (h : keep matcher m.stash ≡ [])
        (e : (c.state m.to_sys).items ≡ []) where
      abbrev asked : Mailbox c
      asked = record m { to_sys = (c.poll_recv (c.try_recv m.to_sys).1).1 }

      asked_state :
          ((c.state asked.to_sys).items ≡ [])
          × ((c.state asked.to_sys).has_sender ≡ (c.state m.to_sys).has_sender)
      asked_state = (
        rw (c.state-poll_recv (c.try_recv m.to_sys).1, c.state-try_recv m.to_sys, e) refl,
        rw (c.state-poll_recv (c.try_recv m.to_sys).1, c.state-try_recv m.to_sys) refl,
      )

      round_ended :
          (c.state m.to_sys).has_sender ≡ false → round c matcher m ≡ (some (ready none), asked)
      unfolding round select_round
      round_ended closed = ground (
        arith,
        c.try_recv_result m.to_sys,
        c.poll_recv_result (c.try_recv m.to_sys).1,
        c.state-try_recv m.to_sys,
      )

      round_open :
          (c.state m.to_sys).has_sender ≡ true → round c matcher m ≡ select_user c matcher asked
      unfolding round select_round
      round_open live = ground (
        arith,
        c.try_recv_result m.to_sys,
        c.poll_recv_result (c.try_recv m.to_sys).1,
        c.state-try_recv m.to_sys,
      )

      user_Round :
          (items : List Bytes) (sender : Bool)
          → (c.state m.to_user).items ≡ items
          → (c.state m.to_user).has_sender ≡ sender
          → (c.state m.to_sys).has_sender ≡ true
          → Round m (select_user c matcher asked).1 (select_user c matcher asked).0
      unfolding select_user offer counted_down
      user_Round [] true f f' live =
          rw (c.poll_recv_result m.to_user, f, f', select_user)
            (
              (rw (asked_state.0, c.state-poll_recv m.to_user, e, f) refl, refl),
              rw (keep-append matcher m.stash _, h, e, f) refl,
              live,
              f',
            )
      user_Round [] false f f' live =
          rw (c.poll_recv_result m.to_user, f, f', select_user)
            (
              (rw (asked_state.0, c.state-poll_recv m.to_user, e, f) refl, refl),
              inr (f', rw (keep-append matcher m.stash _, h, e, f) refl),
            )
      user_Round (b ∷ bs) sender f f' live = elim (Bool-cases (matcher (user b))) [
        | inl t ↦
            rw (c.poll_recv_result m.to_user, f, t, select_user)
              (record {
                before = m.stash;
                behind = map user bs;
                found = rw (e, f) refl;
                first = h;
                matches = t;
                left = rw (asked_state.0, c.state-poll_recv m.to_user, f) refl;
                count = refl;
              })
        | inr n ↦
            rw (c.poll_recv_result m.to_user, f, n, select_user)
              (
                (
                  rw (asked_state.0, c.state-poll_recv m.to_user, e, f)
                      (append_assoc m.stash (user b ∷ []) _),
                  refl,
                ),
                rw (keep-append matcher m.stash (user b ∷ []), h, n) refl,
                rw (asked_state.0, c.state-poll_recv m.to_user, e, f) (omega arith),
                asked_state.1,
                rw (c.state-poll_recv m.to_user) refl,
              )
      ]

    -- Each round gives what one poll may give, or moves one message to the stash.
    pub round_lem :
        (m : Mailbox c)
        → keep matcher m.stash ≡ []
        → Round m (round c matcher m).1 (round c matcher m).0
    round_lem m h = elim (List-cases (c.state m.to_sys).items) [
      | inr r ↦ round_sys m r.first r.rest h r.eq
      | inl e ↦ elim (Bool-cases (c.state m.to_sys).has_sender) [
        | inl live ↦ rw (round_open m h e live) (
            user_Round m h e (c.state m.to_user).items (c.state m.to_user).has_sender refl refl
              live)
        | inr closed ↦
            rw (round_ended m h e closed) ((rw ((asked_state m h e).0, e) refl, refl), inl closed)
      ]
    ]
