-- ===== src/Mailbox/Counting.antt =====
-- The counter of src/mailbox.rs through every operation.
use myrmidon.Base.{
  ℕ, suc, ◌+◌, ◌^◌, ◌<◌, ◌≡◌, refl, sym, ap, ◌∙◌, false, Bool, Option, none, some, List, [], ◌∷◌,
  ◌++◌, map, length, keep, arith, length-append,
}
use myrmidon.Base.Search.{keep-append}
use myrmidon.Deps.Mpsc.{Mpsc, Poll, pending, ready}
use myrmidon.Mailbox.Messages.{Bytes, SystemMessage, Message, user, system, is_user}
use myrmidon.Mailbox.{
  Mailbox, fetch_sub, counted_down, channel, send, recv, try_recv, selective_recv,
}
use myrmidon.Mailbox.Contents.{pending_user, IsCounted, Delivers-IsCounted}
use myrmidon.Mailbox.Sending.{send-IsCounted}
use myrmidon.Mailbox.Receiving.{Receives, try_recv-Receives}
use myrmidon.Mailbox.Awaiting.{Polls, recv-Polls}
use myrmidon.Mailbox.Selective.{arrival, Takes, Selects}
use myrmidon.Mailbox.Selecting.{queued, selective_recv-Selects}

keep-map_user : (bs : List Bytes) → keep is_user (map user bs) ≡ map user bs
keep-map_user [] = refl
keep-map_user (b ∷ bs) = ap (◌∷◌ (user b)) (keep-map_user bs)

keep-map_system : (ss : List SystemMessage) → keep is_user (map system ss) ≡ []
keep-map_system [] = refl
keep-map_system (s ∷ ss) = keep-map_system ss

module _ (c : Mpsc) where
  -- The user messages that wait are those of the arrival order.
  keep-arrival : (m : Mailbox c) → keep is_user (arrival c m) ≡ pending_user c m
  keep-arrival m = rw (
    keep-append is_user m.stash
        (map system (c.state m.to_sys).items ++ map user (c.state m.to_user).items),
    keep-append is_user (map system (c.state m.to_sys).items) (map user (c.state m.to_user).items),
    keep-map_system (c.state m.to_sys).items,
    keep-map_user (c.state m.to_user).items,
  )

  same_arrival :
      (m after : Mailbox c)
      → arrival c after ≡ arrival c m
      → pending_user c after ≡ pending_user c m
  same_arrival m after e = sym (keep-arrival after) ∙ ap (keep is_user) e ∙ keep-arrival m

  unchanged-IsCounted :
      (m after : Mailbox c)
      → pending_user c after ≡ pending_user c m
      → after.counter ≡ m.counter
      → IsCounted c m
      → IsCounted c after
  unchanged-IsCounted m after e f v = record {
    counted = f ∙ v.counted ∙ ap length (sym e);
    fits = omega (arith, v.fits, f);
  }

  try_recv-IsCounted : (m : Mailbox c) → IsCounted c m → IsCounted c (try_recv c m).1
  try_recv-IsCounted m v = go (try_recv c m).0 (try_recv-Receives c m)
    where
      go : (r : Option Message) → Receives c m (try_recv c m).1 r → IsCounted c (try_recv c m).1
      go none d = unchanged-IsCounted m _ (d.3 ∙ sym d.1) d.4 v
      go (some msg) d = Delivers-IsCounted c d v

  recv-IsCounted : (m : Mailbox c) → IsCounted c m → IsCounted c (recv c m).1
  recv-IsCounted m v = go (recv c m).0 (recv-Polls c m)
    where
      go : (p : Poll (Option Message)) → Polls c m (recv c m).1 p → IsCounted c (recv c m).1
      go pending d = unchanged-IsCounted m _ (d.0.3 ∙ sym d.0.1) d.0.4 v
      go (ready none) d = unchanged-IsCounted m _ d.3 d.4 v
      go (ready (some msg)) d = Delivers-IsCounted c d v

  taken_length :
      (before behind : List Message) (msg : Message) (n : ℕ)
      → n ≡ length (keep is_user (before ++ msg ∷ behind))
      → n < 2 ^ 64
      → (counted_down msg n ≡ length (keep is_user (before ++ behind)))
        × (counted_down msg n < 2 ^ 64)
  unfolding counted_down fetch_sub
  taken_length before behind (user b) n h fits =
      let e =
        ap length (keep-append is_user before (user b ∷ behind))
        ∙ length-append (keep is_user before) (user b ∷ keep is_user behind) in
      let f =
        ap length (keep-append is_user before behind)
        ∙ length-append (keep is_user before) (keep is_user behind) in
      (omega (arith, e, f), omega arith)
  taken_length before behind (system s) n h fits = (
    h
        ∙ ap length (
            keep-append is_user before (system s ∷ behind)
            ∙ sym (keep-append is_user before behind)),
    fits,
  )

  module _ (matcher : Message → Bool) where
    Takes-IsCounted :
        {m after : Mailbox c} {msg : Message}
        → Takes c matcher m msg after
        → IsCounted c m
        → IsCounted c after
    Takes-IsCounted {m} {after} {msg} t v =
        let (same, fits) =
          taken_length t.before t.behind msg m.counter
            (v.counted ∙ ap length (sym (keep-arrival m) ∙ ap (keep is_user) t.found)) v.fits in
        record {
          counted =
              t.count ∙ same ∙ ap length (sym (ap (keep is_user) t.left) ∙ keep-arrival after);
          fits = rw t.count fits;
        }

    selective_recv-IsCounted :
        (fuel : ℕ) (m : Mailbox c)
        → queued c m < fuel
        → IsCounted c m
        → IsCounted c (selective_recv c matcher fuel m).1
    selective_recv-IsCounted fuel m lt v =
        let (p, e, s) = selective_recv-Selects c matcher fuel m lt in go p s
      where
        go :
            (p : Poll (Option Message))
            → Selects c matcher m (selective_recv c matcher fuel m).1 p
            → IsCounted c (selective_recv c matcher fuel m).1
        go pending s =
            unchanged-IsCounted m _ (same_arrival m (selective_recv c matcher fuel m).1 s.0.0) s.0.1
              v
        go (ready none) s =
            unchanged-IsCounted m _ (same_arrival m (selective_recv c matcher fuel m).1 s.0.0) s.0.1
              v
        go (ready (some msg)) s = Takes-IsCounted s v

  -- What happens to a mailbox: a send by any sender, or a poll of one of the three receives.
  pub data Event : Type 0 where
    sends : Message → Event
    receives tries : Event
    selects : (Message → Bool) → Event

  -- A poll of `selective_recv` on fuel that is enough.
  unfoldable pub happens : Mailbox c → Event → Mailbox c
  happens m (sends msg) = (send c m msg).0
  happens m receives = (recv c m).1
  happens m tries = (try_recv c m).1
  happens m (selects matcher) = (selective_recv c matcher (suc (queued c m)) m).1

  -- Every event keeps the counter equal to the number of user messages that wait, while it has room
  -- for one more.
  pub happens-IsCounted :
      (m : Mailbox c) (e : Event)
      → IsCounted c m
      → m.counter + 1 < 2 ^ 64
      → IsCounted c (happens m e)
  unfolding happens
  happens-IsCounted m (sends msg) v room = send-IsCounted c m msg v room
  happens-IsCounted m receives v room = recv-IsCounted m v
  happens-IsCounted m tries v room = try_recv-IsCounted m v
  happens-IsCounted m (selects matcher) v room =
      selective_recv-IsCounted matcher (suc (queued c m)) m (omega arith) v

  -- A mailbox after some history of events, during which its counter had room for one more message.
  pub data History : Mailbox c → Type 0 where
    created : History (channel c)
    later : {m : Mailbox c} (e : Event) → History m → m.counter + 1 < 2 ^ 64 → History (happens m e)

  -- Some sends, one after the other.
  abbrev pub send_all : Mailbox c → List Message → Mailbox c
  send_all m [] = m
  send_all m (msg ∷ msgs) = send_all (send c m msg).0 msgs

  -- Nobody receives what is sent.
  record IsDropped (k : ℕ) (m : Mailbox c) : Type 0 where
    user_closed : (c.state m.to_user).has_receiver ≡ false
    sys_closed : (c.state m.to_sys).has_receiver ≡ false
    still : m.counter ≡ k
