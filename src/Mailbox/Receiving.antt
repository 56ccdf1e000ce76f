-- ===== src/Mailbox/Receiving.antt =====
-- `recv` and `try_recv` of src/mailbox.rs deliver by priority.
use myrmidon.Base.{
  ◌≡◌, refl, subst, ap, inl, inr, true, false, Option, none, some, List, [], ◌∷◌, ◌++◌, keep, arith,
  List-cases,
}
use myrmidon.Base.Search.{Miss, Hit, keep-Hit, keep_other, position-cases}
use myrmidon.Deps.Mpsc.{Mpsc, Poll, pending, ready}
use myrmidon.Mailbox.Messages.{Bytes, SystemMessage, Message, user, system, is_system, is_user}
use myrmidon.Mailbox.{
  Mailbox, fetch_sub, take_ready, recv_select, recv, try_recv_user, try_recv, counted_down,
}
use myrmidon.Mailbox.Contents.{pending_system, pending_user, Delivers, of_system, of_user}

-- A stash with no system message holds user messages alone.
keep-is_user_all : (l : List Message) → keep is_system l ≡ [] → keep is_user l ≡ l
keep-is_user_all [] h = refl
keep-is_user_all (user b ∷ l) h = ap (◌∷◌ (user b)) (keep-is_user_all l h)
keep-is_user_all (system s ∷ l) h = absurd (ground (arith, h))

own_front :
    (front : Message) (more : List Message)
    → keep is_system (front ∷ more) ≡ []
    → (is_user front ≡ true) × (keep is_system more ≡ [])
own_front (user b) more h = (refl, h)
own_front (system s) more h = absurd (ground (arith, h))

system_not_user : (msg : Message) → is_system msg ≡ true → is_user msg ≡ false
system_not_user (user b) h = ground arith
system_not_user (system s) h = refl

-- The answer of `recv` where `try_recv` gives this.
abbrev pub waits : Option Message → Poll (Option Message)
waits none = pending
waits (some msg) = ready (some msg)

module _ (c : Mpsc) where
  -- Whether `take_ready` delivers or falls through.
  pub data Falls (m : Mailbox c) : Type 0 where
    delivered :
        (msg : Message) (after : Mailbox c)
        → take_ready c m ≡ (ready (some msg), after)
        → Delivers c m msg after
        → Falls m
    fell :
        take_ready c m ≡ (pending, record m { to_sys = (c.try_recv m.to_sys).1 })
        → m.stash ≡ []
        → (c.state m.to_sys).items ≡ []
        → Falls m

  Falls-Hit : (m : Mailbox c) → Hit is_system m.stash → Falls m
  unfolding take_ready
  Falls-Hit m h =
      delivered h.elem (record m { stash = h.before ++ h.behind }) (ground (arith, h.at, h.removed))
        (of_system h.passes (rw (keep-Hit is_system m.stash h))
          (rw (keep_other is_system is_user m.stash h (system_not_user h.elem h.passes))) refl)

  Falls-system :
      (m : Mailbox c) (s : SystemMessage) (more : List SystemMessage)
      → Miss is_system m.stash
      → (c.state m.to_sys).items ≡ s ∷ more
      → Falls m
  unfolding take_ready
  Falls-system m s more h e =
      delivered (system s) (record m { to_sys = (c.try_recv m.to_sys).1 })
        (ground (arith, h.at, c.try_recv_result m.to_sys))
        (of_system refl (rw (c.state-try_recv m.to_sys, h.no_match, e)) refl refl)

  Falls-stash :
      (m : Mailbox c) (front : Message) (more : List Message)
      → Miss is_system m.stash
      → (c.state m.to_sys).items ≡ []
      → m.stash ≡ front ∷ more
      → Falls m
  unfolding take_ready counted_down
  Falls-stash m front more h e e' =
      let own = own_front front more (subst (λ l. keep is_system l ≡ []) e' h.no_match) in
      delivered front
        (record m { to_sys = (c.try_recv m.to_sys).1; stash = more; counter = fetch_sub m.counter })
        (ground (arith, h.at, h.no_match, c.try_recv_result m.to_sys, e, e'))
        (of_user own.0 (rw (h.no_match, e)) (rw (c.state-try_recv m.to_sys, own.1, e))
          (rw (e', own.0)) refl)

  Falls-Miss : (m : Mailbox c) → Miss is_system m.stash → Falls m
  unfolding take_ready
  Falls-Miss m h = elim (List-cases (c.state m.to_sys).items) [
    | inr r ↦ Falls-system m r.first r.rest h r.eq
    | inl e ↦ elim (List-cases m.stash) [
      | inr r ↦ Falls-stash m r.first r.rest h e r.eq
      | inl e' ↦ fell (ground (arith, h.at, c.try_recv_result m.to_sys)) e' e
    ]
  ]

  pub falls : (m : Mailbox c) → Falls m
  falls m = elim (position-cases is_system m.stash) [
    | inl h ↦ Falls-Miss m h
    | inr h ↦ Falls-Hit m h
  ]

  -- What a call of `try_recv` may give: the message due, or nothing from an empty mailbox.
  abbrev pub Receives : Mailbox c → Mailbox c → Option Message → Type 0
  Receives m after none =
      (pending_system c m ≡ [])
      × (pending_user c m ≡ [])
      × (pending_system c after ≡ [])
      × (pending_user c after ≡ [])
      × (after.counter ≡ m.counter)
  Receives m after (some msg) = Delivers c m msg after

  received :
      (m : Mailbox c) (items : List Bytes)
      → m.stash ≡ []
      → (c.state m.to_sys).items ≡ []
      → (c.state m.to_user).items ≡ items
      → let after = record m { to_sys = (c.try_recv m.to_sys).1 } in
        Receives m (try_recv_user c after).1 (try_recv_user c after).0
  unfolding try_recv_user
  received m [] e e' f =
      rw (c.try_recv_result m.to_user, f, try_recv_user)
        (
          rw (e, e') refl,
          rw (e, f) refl,
          rw (e, c.state-try_recv m.to_sys, e') refl,
          rw (e, c.state-try_recv m.to_user, f) refl,
          refl,
        )
  received m (b ∷ bs) e e' f =
      rw (c.try_recv_result m.to_user, f, try_recv_user)
        (of_user refl (rw (e, e')) (rw (e, c.state-try_recv m.to_sys, e'))
          (rw (c.state-try_recv m.to_user, e, f)) refl)

  -- Both calls go on from what `take_ready` leaves.
  module _ (m after : Mailbox c) where
    pub try_recv_ready :
        (msg : Option Message) → take_ready c m ≡ (ready msg, after) → try_recv c m ≡ (msg, after)
    unfolding try_recv
    try_recv_ready msg e = ground arith

    pub try_recv_pending : take_ready c m ≡ (pending, after) → try_recv c m ≡ try_recv_user c after
    unfolding try_recv
    try_recv_pending e = ground arith

    pub recv_ready :
        (msg : Option Message) → take_ready c m ≡ (ready msg, after) → recv c m ≡ (ready msg, after)
    unfolding recv
    recv_ready msg e = ground arith

    pub recv_pending : take_ready c m ≡ (pending, after) → recv c m ≡ recv_select c after
    unfolding recv
    recv_pending e = ground arith

  -- `try_recv` takes the oldest system message, else the oldest user message, and gives nothing
  -- only when nothing waits.
  pub try_recv-Receives : (m : Mailbox c) → Receives m (try_recv c m).1 (try_recv c m).0
  try_recv-Receives m = elim (falls m) [
    | delivered msg after e d ↦ rw (try_recv_ready m after (some msg) e) d
    | fell e stash sys ↦
        rw (try_recv_pending m _ e) (received m (c.state m.to_user).items stash sys refl)
  ]
