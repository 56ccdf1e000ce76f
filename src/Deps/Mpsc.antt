-- ===== src/Deps/Mpsc.antt =====
-- `tokio::sync::mpsc::unbounded_channel`, as a parameter: the operations that the program calls,
-- with their documented behaviour on what the channel holds.
use myrmidon.Base.{
  ◌≡◌, refl, Bool, true, false, Option, none, some, List, [], ◌∷◌, ◌++◌, if◌then◌else◌,
}

-- What a future gives when it is polled.
pub data Poll (A : Type 0) : Type 0 where
  pending : Poll A
  ready : A → Poll A

-- What a channel holds, oldest first, whether a sender lives, and whether the receiver does.
pub record Queue (A : Type 0) : Type 0 where
  pub items : List A
  pub has_sender : Bool
  pub has_receiver : Bool

module _ {A : Type 0} where
  abbrev pub first? : List A → Option A
  first? [] = none
  first? (x ∷ xs) = some x

  abbrev pub rest : List A → List A
  rest [] = []
  rest (x ∷ xs) = xs

  -- A receiver waits while a sender lives, and gets `None` when none does.
  abbrev pub polled : List A → Bool → Poll (Option A)
  polled [] true = pending
  polled [] false = ready none
  polled (x ∷ xs) b = ready (some x)

  abbrev pub pushed : Queue A → A → Queue A
  pushed q a = if q.has_receiver then record q { items = q.items ++ a ∷ [] } else q

pub record Mpsc : Type 1 where
  pub Chan : Type 0 → Type 0
  pub state : {A : Type 0} → Chan A → Queue A
  pub unbounded_channel : {A : Type 0} → Chan A
  -- Whether the call is `Ok`, and the channel behind it; so for the others.
  pub send : {A : Type 0} → Chan A → A → Bool × Chan A
  pub try_recv : {A : Type 0} → Chan A → Option A × Chan A
  pub poll_recv : {A : Type 0} → Chan A → Poll (Option A) × Chan A
  pub drop_senders : {A : Type 0} → Chan A → Chan A
  pub drop_receiver : {A : Type 0} → Chan A → Chan A
  pub state-unbounded_channel :
      {A : Type 0}
      → state (unbounded_channel {A = A})
        ≡ record { items = []; has_sender = true; has_receiver = true }
  pub send_result : {A : Type 0} (c : Chan A) (a : A) → (send c a).0 ≡ (state c).has_receiver
  pub state-send : {A : Type 0} (c : Chan A) (a : A) → state (send c a).1 ≡ pushed (state c) a
  pub try_recv_result : {A : Type 0} (c : Chan A) → (try_recv c).0 ≡ first? (state c).items
  pub state-try_recv :
      {A : Type 0} (c : Chan A)
      → state (try_recv c).1 ≡ record (state c) { items = rest (state c).items }
  pub poll_recv_result :
      {A : Type 0} (c : Chan A) → (poll_recv c).0 ≡ polled (state c).items (state c).has_sender
  pub state-poll_recv :
      {A : Type 0} (c : Chan A)
      → state (poll_recv c).1 ≡ record (state c) { items = rest (state c).items }
  pub state-drop_senders :
      {A : Type 0} (c : Chan A) → state (drop_senders c) ≡ record (state c) { has_sender = false }
  pub state-drop_receiver :
      {A : Type 0} (c : Chan A)
      → state (drop_receiver c) ≡ record (state c) { has_receiver = false }

-- A value that meets the laws: the queue itself.
abbrev pub list_channel : Mpsc
list_channel = record {
  Chan = Queue;
  state = λ c. c;
  unbounded_channel = record { items = []; has_sender = true; has_receiver = true };
  send = λ c a. (c.has_receiver, pushed c a);
  try_recv = λ c. (first? c.items, record c { items = rest c.items });
  poll_recv = λ c. (polled c.items c.has_sender, record c { items = rest c.items });
  drop_senders = λ c. record c { has_sender = false };
  drop_receiver = λ c. record c { has_receiver = false };
  state-unbounded_channel = refl;
  send_result = λ c a. refl;
  state-send = λ c a. refl;
  try_recv_result = λ c. refl;
  state-try_recv = λ c. refl;
  poll_recv_result = λ c. refl;
  state-poll_recv = λ c. refl;
  state-drop_senders = λ c. refl;
  state-drop_receiver = λ c. refl;
}
