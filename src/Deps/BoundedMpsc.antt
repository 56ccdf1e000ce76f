-- ===== src/Deps/BoundedMpsc.antt =====
-- `tokio::sync::mpsc::channel`, the bounded channel, as a parameter: the operations that the program
-- calls, with their documented behaviour.
use myrmidon.Base.{ℕ, ◌≡◌, refl, Bool, true, false, List, [], ◌∷◌, ◌++◌, length, ltb, if◌then◌else◌}
use myrmidon.Deps.Mpsc.{Poll, pending, ready, rest}

-- What a channel holds, oldest first, for how many there is room, and whether the receiver lives.
pub record BoundedQueue (A : Type 0) : Type 0 where
  pub items : List A
  pub capacity : ℕ
  pub has_receiver : Bool

module _ {A : Type 0} where
  -- A sender waits for room while the receiver lives.
  abbrev pub sending : BoundedQueue A → Poll Bool
  sending q =
      if q.has_receiver
      then if ltb (length q.items) q.capacity then ready true else pending
      else ready false

  abbrev pub accepted : BoundedQueue A → A → BoundedQueue A
  accepted q a =
      if q.has_receiver
      then if ltb (length q.items) q.capacity then record q { items = q.items ++ a ∷ [] } else q
      else q

pub record BoundedMpsc : Type 1 where
  pub Chan : Type 0 → Type 0
  pub state : {A : Type 0} → Chan A → BoundedQueue A
  pub channel : {A : Type 0} → ℕ → Chan A
  -- One poll of `send`: whether it is `Ok` when it is ready.
  pub poll_send : {A : Type 0} → Chan A → A → Poll Bool × Chan A
  -- The channel behind a message that `recv` gave.
  pub taken : {A : Type 0} → Chan A → Chan A
  pub drop_receiver : {A : Type 0} → Chan A → Chan A
  pub state-channel :
      {A : Type 0} (k : ℕ)
      → state (channel {A = A} k) ≡ record { items = []; capacity = k; has_receiver = true }
  pub poll_send_result : {A : Type 0} (c : Chan A) (a : A) → (poll_send c a).0 ≡ sending (state c)
  pub state-poll_send :
      {A : Type 0} (c : Chan A) (a : A) → state (poll_send c a).1 ≡ accepted (state c) a
  pub state-taken :
      {A : Type 0} (c : Chan A)
      → state (taken c) ≡ record (state c) { items = rest (state c).items }
  pub state-drop_receiver :
      {A : Type 0} (c : Chan A)
      → state (drop_receiver c) ≡ record (state c) { has_receiver = false }

-- A value that meets the laws: the queue itself.
abbrev pub bounded_list : BoundedMpsc
bounded_list = record {
  Chan = BoundedQueue;
  state = λ c. c;
  channel = λ k. record { items = []; capacity = k; has_receiver = true };
  poll_send = λ c a. (sending c, accepted c a);
  taken = λ c. record c { items = rest c.items };
  drop_receiver = λ c. record c { has_receiver = false };
  state-channel = λ k. refl;
  poll_send_result = λ c a. refl;
  state-poll_send = λ c a. refl;
  state-taken = λ c. refl;
  state-drop_receiver = λ c. refl;
}
