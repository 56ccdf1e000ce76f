-- ===== src/Mailbox/Selecting.antt =====
-- The loop of `selective_recv` of src/mailbox.rs, whole: it ends, and takes the first match.
use myrmidon.Base.{
  ℕ, zero, suc, ◌+◌, ◌<◌, ◌≡◌, refl, sym, ◌∙◌, inl, inr, Bool, Option, none, some, [], ◌∷◌, ◌++◌,
  map, length, keep, arith, Option-cases, subst,
}
use mathlib.Core.List.{append_assoc}
use myrmidon.Base.Search.{position-cases}
use myrmidon.Deps.Mpsc.{Mpsc, Poll, pending, ready}
use myrmidon.Mailbox.Messages.{Message, user, system}
use myrmidon.Mailbox.{Mailbox, counted_down, counted_taken, round, rounds, selective_recv}
use myrmidon.Mailbox.Selective.{Selects, GoesOn, Round, round_lem}

-- What waits in the two channels: each round takes one of these messages.
abbrev pub queued : (c : Mpsc) → Mailbox c → ℕ
queued c m = length (c.state m.to_sys).items + length (c.state m.to_user).items

module _ (c : Mpsc) (matcher : Message → Bool) where
  later :
      (m m' after : Mailbox c) (p : Poll (Option Message))
      → GoesOn c matcher m m'
      → Selects c matcher m' after p
      → Selects c matcher m after p
  later m m' after (ready (some msg)) g t = record {
    before = t.before;
    behind = t.behind;
    found = sym g.0.0 ∙ t.found;
    first = t.first;
    matches = t.matches;
    left = t.left;
    count = subst (λ n. after.counter ≡ counted_down msg n) g.0.1 t.count;
  }
  later m m' after (ready none) g t = (
    (t.0.0 ∙ g.0.0, t.0.1 ∙ g.0.1),
    elim t.1 [
      | inl closed ↦ inl (sym g.3 ∙ closed)
      | inr (closed, e) ↦ inr (sym g.4 ∙ closed, subst (λ l. keep matcher l ≡ []) g.0.0 e)
    ],
  )
  later m m' after pending g t = (
    (t.0.0 ∙ g.0.0, t.0.1 ∙ g.0.1),
    subst (λ l. keep matcher l ≡ []) g.0.0 t.1,
    sym g.3 ∙ t.2,
    sym g.4 ∙ t.3,
  )

  rounds_end :
      (fuel : ℕ) (m : Mailbox c)
      → keep matcher m.stash ≡ []
      → queued c m < fuel
      → (p : Poll (Option Message)) × ((rounds c matcher fuel m).0 ≡ some p)
        × Selects c matcher m (rounds c matcher fuel m).1 p
  unfolding rounds
  rounds_end zero m h lt = elim lt [ ]
  rounds_end (suc fuel) m h lt =
      let r = round_lem c matcher m h in
      elim (Option-cases (round c matcher m).0) [
        | inl e ↦
            let g = subst (Round c matcher m (round c matcher m).1) e r in
            let (p, eq, sel) = rounds_end fuel (round c matcher m).1 g.1 (omega (arith, g.2)) in
            rw (e, rounds) (p, eq, later m (round c matcher m).1 _ p g sel)
        | inr (p, e) ↦ rw (e, rounds) (p, refl, subst (Round c matcher m (round c matcher m).1) e r)
      ]

  -- With more fuel than messages in the channels a poll of `selective_recv` gives a result. It is the
  -- first match among the stash, the system channel and the user channel in this order, and exactly
  -- that message is gone and the rest is in its order; or, with nothing gone, `Pending` when nothing
  -- matches and senders live, or `None` when the system channel has ended, or the user channel has
  -- and nothing matches.
  pub selective_recv-Selects :
      (fuel : ℕ) (m : Mailbox c)
      → queued c m < fuel
      → (p : Poll (Option Message)) × ((selective_recv c matcher fuel m).0 ≡ some p)
        × Selects c matcher m (selective_recv c matcher fuel m).1 p
  unfolding selective_recv counted_taken
  selective_recv-Selects fuel m lt = elim (position-cases matcher m.stash) [
    | inl h ↦ rw (h.at, selective_recv) (rounds_end fuel m h.no_match lt)
    | inr h ↦
        rw (h.at, h.removed, selective_recv)
          (
            ready (some h.elem),
            refl,
            record {
              before = h.before;
              behind =
                  h.behind
                  ++ (map system (c.state m.to_sys).items ++ map user (c.state m.to_user).items);
              found = rw h.split (append_assoc h.before (h.elem ∷ h.behind) _);
              first = h.no_match;
              matches = h.passes;
              left = append_assoc h.before h.behind _;
              count = refl;
            },
          )
  ]
