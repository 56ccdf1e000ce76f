-- ===== src/Mailbox/Sending.antt =====
-- `send`, `send_user_bytes` and `send_system` of src/mailbox.rs.
use myrmidon.Base.{
  ◌&&◌, ℕ, ◌+◌, ◌^◌, ◌<◌, ◌≡◌, refl, sym, Bool, true, false, List, [], ◌∷◌, ◌++◌, map, length, keep,
  arith, Bool-cases, inl, inr, if◌then◌else◌, ok, err, length-append,
}
use mathlib.Core.List.{append_assoc, map-append}
use myrmidon.Deps.Mpsc.{Mpsc, Queue, pushed}
use myrmidon.Mailbox.Messages.{Bytes, SystemMessage, Message, user, system, is_system, is_user}
use myrmidon.Mailbox.{Mailbox, fetch_add, fetch_sub, send, send_user_bytes, send_system}
use myrmidon.Mailbox.Contents.{pending_system, pending_user, IsCounted}

down-up : (n : ℕ) → n < 2 ^ 64 → fetch_sub (fetch_add n) ≡ n
unfolding fetch_add fetch_sub
down-up n h = omega arith

module _ (c : Mpsc) where
  -- Whether the receiver of the channel that a message goes to lives.
  abbrev pub is_open : Mailbox c → Message → Bool
  is_open m (user b) = (c.state m.to_user).has_receiver
  is_open m (system s) = (c.state m.to_sys).has_receiver

  abbrev pub appended : Bool → List Message → Message → List Message
  appended b msgs msg = if b then msgs ++ msg ∷ [] else msgs

  module _ {A : Type 0} (to_message : A → Message) where
    pushed_items :
        (q : Queue A) (a : A) (b : Bool) (front : List Message)
        → q.has_receiver ≡ b
        → front ++ map to_message (pushed q a).items
          ≡ appended b (front ++ map to_message q.items) (to_message a)
    pushed_items q a true front e =
        rw (e, map-append to_message q.items (a ∷ []))
          (sym (append_assoc front (map to_message q.items) (to_message a ∷ [])))
    pushed_items q a false front e = rw e refl

  -- With a counter below 2 ^ 64, a message sent goes to the end of what waits of its kind, a user
  -- message is counted, and the other kind stays; on a closed mailbox the caller gets the message
  -- back and nothing has changed, the counter included.
  pub send_lem :
      (m : Mailbox c) (msg : Message)
      → m.counter < 2 ^ 64
      → let b = is_open m msg in
        ((send c m msg).1 ≡ (if b then ok tt else err msg))
        × (pending_system c (send c m msg).0
            ≡ appended (b && is_system msg) (pending_system c m) msg)
        × (pending_user c (send c m msg).0 ≡ appended (b && is_user msg) (pending_user c m) msg)
        × ((send c m msg).0.counter ≡ (if b && is_user msg then fetch_add m.counter else m.counter))
  unfolding send
  send_lem m (user b) h = elim (Bool-cases (c.state m.to_user).has_receiver) [
    | inl e ↦
        rw (c.send_result m.to_user b, e)
          (
            refl,
            refl,
            rw (c.state-send m.to_user b)
                (pushed_items user (c.state m.to_user) b true (keep is_user m.stash) e),
            refl,
          )
    | inr e ↦
        rw (c.send_result m.to_user b, e)
          (
            refl,
            refl,
            rw (c.state-send m.to_user b)
                (pushed_items user (c.state m.to_user) b false (keep is_user m.stash) e),
            down-up m.counter h,
          )
  ]
  send_lem m (system s) h = elim (Bool-cases (c.state m.to_sys).has_receiver) [
    | inl e ↦
        rw (c.send_result m.to_sys s, e)
          (
            refl,
            rw (c.state-send m.to_sys s)
                (pushed_items system (c.state m.to_sys) s true (keep is_system m.stash) e),
            refl,
            refl,
          )
    | inr e ↦
        rw (c.send_result m.to_sys s, e)
          (
            refl,
            rw (c.state-send m.to_sys s)
                (pushed_items system (c.state m.to_sys) s false (keep is_system m.stash) e),
            refl,
            refl,
          )
  ]

  counted_appended :
      (b : Bool) (n : ℕ) (msgs : List Message) (msg : Message)
      → n ≡ length msgs
      → n + 1 < 2 ^ 64
      → ((if b then fetch_add n else n) ≡ length (appended b msgs msg))
        × ((if b then fetch_add n else n) < 2 ^ 64)
  unfolding fetch_add
  counted_appended true n msgs msg h room =
      (omega (arith, length-append msgs (msg ∷ [])), omega arith)
  counted_appended false n msgs msg h room = (h, omega arith)

  -- Sending keeps the counter right, while there is room for one more.
  pub send-IsCounted :
      (m : Mailbox c) (msg : Message)
      → IsCounted c m
      → m.counter + 1 < 2 ^ 64
      → IsCounted c (send c m msg).0
  send-IsCounted m msg v room =
      let (result, sys, usr, count) = send_lem m msg v.fits in
      let (same, fits) =
        counted_appended (is_open m msg && is_user msg) m.counter (pending_user c m) msg v.counted
          room in
      record { counted = rw (count, usr) same; fits = rw count fits }

  -- The two shorter calls do what `send` does to the mailbox, and answer likewise.
  pub send_user_bytes-send :
      (m : Mailbox c) (b : Bytes)
      → ((send_user_bytes c m b).0 ≡ (send c m (user b)).0)
        × ((send_user_bytes c m b).1 ≡ (if is_open m (user b) then ok tt else err b))
  unfolding send_user_bytes send
  send_user_bytes-send m b = ground (arith, c.send_result m.to_user b)

  pub send_system-send :
      (m : Mailbox c) (s : SystemMessage)
      → ((send_system c m s).0 ≡ (send c m (system s)).0)
        × ((send_system c m s).1 ≡ (if is_open m (system s) then ok tt else err s))
  unfolding send_system send
  send_system-send m s = ground (arith, c.send_result m.to_sys s)
