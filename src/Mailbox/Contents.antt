-- ===== src/Mailbox/Contents.antt =====
-- What waits in a mailbox of src/mailbox.rs: system messages and user messages, each oldest first,
-- and what it means to deliver the one that is due.
use myrmidon.Base.{◌^◌, ◌<◌, ◌≡◌, sym, ap, ◌∙◌, true, List, [], ◌∷◌, ◌++◌, map, length, keep, arith}
use myrmidon.Deps.Mpsc.{Mpsc}
use myrmidon.Mailbox.Messages.{Message, user, system, is_system, is_user}
use myrmidon.Mailbox.{Mailbox, fetch_sub}

module _ (c : Mpsc) where
  abbrev pub pending_system : Mailbox c → List Message
  pending_system m = keep is_system m.stash ++ map system (c.state m.to_sys).items

  abbrev pub pending_user : Mailbox c → List Message
  pending_user m = keep is_user m.stash ++ map user (c.state m.to_user).items

  -- The counter is the number of user messages that wait, which has not reached the word's end.
  pub record IsCounted (m : Mailbox c) : Type 0 where
    pub counted : m.counter ≡ length (pending_user m)
    pub fits : m.counter < 2 ^ 64

  -- A message leaves the mailbox: the oldest system message if there is one, else the oldest user
  -- message, which is counted down.
  pub data Delivers (m : Mailbox c) (msg : Message) (after : Mailbox c) : Type 0 where
    of_system :
        is_system msg ≡ true
        → pending_system m ≡ msg ∷ pending_system after
        → pending_user after ≡ pending_user m
        → after.counter ≡ m.counter
        → Delivers m msg after
    of_user :
        is_user msg ≡ true
        → pending_system m ≡ []
        → pending_system after ≡ []
        → pending_user m ≡ msg ∷ pending_user after
        → after.counter ≡ fetch_sub m.counter
        → Delivers m msg after

  pub Delivers-IsCounted :
      {m after : Mailbox c} {msg : Message} → Delivers m msg after → IsCounted m → IsCounted after
  unfolding fetch_sub
  Delivers-IsCounted (of_system s p q r) v = record {
    counted = r ∙ v.counted ∙ ap length (sym q);
    fits = omega (arith, v.fits, r);
  }
  Delivers-IsCounted (of_user s p q r t) v = record {
    counted = omega (arith, v.counted, v.fits, t, ap length r);
    fits = omega (arith, t);
  }
