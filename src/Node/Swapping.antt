-- ===== src/Node/Swapping.antt =====
-- The handler of src/node.rs and the boxed callables that hot swaps point to.
use myrmidon.Base.{
  ℕ, ◌≡◌, refl, sym, ap, ◌∙◌, inl, inr, Option, none, some, List, [], ◌∷◌, ◌++◌, ◌==◌,
  if◌then◌else◌, get_elem?, get_elem?-set, set, any, count, All, arith, Bool-cases, Option-cases,
}
use myrmidon.Mailbox.Messages.{exit, hot_swap, ping, pong, Message, user, system}
use myrmidon.Node.{Boxes, boxed_at, JsHandler, js_handle}

-- The handler over the messages of its actor; `none` is the use of a box that is not there.
pub js_handles : Boxes → JsHandler → List Message → Option (Boxes × JsHandler)
js_handles boxes h [] = some (boxes, h)
js_handles boxes h (msg ∷ msgs) = elim (js_handle boxes h msg) [
  | none ↦ none
  | some (boxes', h') ↦ js_handles boxes' h' msgs
]

-- The pointers of the hot swaps, in their order.
abbrev pub swap_pointers : List Message → List ℕ
swap_pointers [] = []
swap_pointers (system (hot_swap ptr) ∷ msgs) = ptr ∷ swap_pointers msgs
swap_pointers (_ ∷ msgs) = swap_pointers msgs

-- No pointer stands twice.
abbrev pub AreDistinct : List ℕ → Type 0
AreDistinct [] = Unit {0}
AreDistinct (p ∷ ps) = (count p ps ≡ 0) × AreDistinct ps

abbrev pub IsBoxed : Boxes → ℕ → Type 0
IsBoxed boxes p = (tsfn : ℕ) × (boxed_at boxes p ≡ some tsfn)

-- What the messages come to: each goes to the callable in force, and a hot swap puts the callable
-- of its box in force.
unfoldable pub js_sees : (ℕ → Option ℕ) → JsHandler → Message → JsHandler
js_sees box h (system (hot_swap ptr)) = elim (box ptr) [
  | none ↦ h
  | some tsfn ↦ record h { behavior = tsfn }
]
js_sees box h msg = record h { calls = h.calls ++ (h.behavior, msg) ∷ [] }

unfoldable pub js_sees_all : (ℕ → Option ℕ) → JsHandler → List Message → JsHandler
js_sees_all box h [] = h
js_sees_all box h (msg ∷ msgs) = js_sees_all box (js_sees box h msg) msgs

boxed_at-set :
    (boxes : Boxes) (p q : ℕ)
    → boxed_at (set boxes p none) q ≡ (if p == q then none else boxed_at boxes q)
boxed_at-set boxes p q = elim (Bool-cases (p == q)) [
  | inl e ↦ elim (Option-cases (get_elem? (set boxes p none) q)) [
    | inl f ↦ ground (arith, get_elem?-set boxes p q none, e, f)
    | inr (b, f) ↦ ground (arith, get_elem?-set boxes p q none, e, f)
  ]
  | inr e ↦ ground (arith, get_elem?-set boxes p q none, e)
]

set-IsBoxed :
    (boxes : Boxes) (p : ℕ) (ps : List ℕ)
    → count p ps ≡ 0
    → All (IsBoxed boxes) ps
    → All (IsBoxed (set boxes p none)) ps
set-IsBoxed boxes p [] none_there a = tt
set-IsBoxed boxes p (q ∷ ps) none_there ((tsfn, e), a) = (
  (tsfn, ground (arith, boxed_at-set boxes p q, e, none_there)),
  set-IsBoxed boxes p ps (omega (arith, none_there)) a,
)

-- The boxes of other pointers decide what the rest comes to.
sees_same :
    (box after : ℕ → Option ℕ) (h : JsHandler) (msgs : List Message)
    → All (λ p. after p ≡ box p) (swap_pointers msgs)
    → js_sees_all after h msgs ≡ js_sees_all box h msgs
unfolding js_sees_all js_sees
sees_same box after h [] a = refl
sees_same box after h (user b ∷ msgs) a = sees_same box after _ msgs a
sees_same box after h (system (exit info) ∷ msgs) a = sees_same box after _ msgs a
sees_same box after h (system ping ∷ msgs) a = sees_same box after _ msgs a
sees_same box after h (system pong ∷ msgs) a = sees_same box after _ msgs a
sees_same box after h (system (hot_swap p) ∷ msgs) (e, a) =
    sees_same box after _ msgs a
    ∙ ap (λ x. js_sees_all box (elim x [ none ↦ h | some t ↦ record h { behavior = t } ]) msgs) e

others_same :
    (boxes : Boxes) (p : ℕ) (ps : List ℕ)
    → count p ps ≡ 0
    → All (λ q. boxed_at (set boxes p none) q ≡ boxed_at boxes q) ps
others_same boxes p [] e = tt
others_same boxes p (q ∷ ps) e =
    (ground (arith, boxed_at-set boxes p q, e), others_same boxes p ps (omega (arith, e)))

-- What the handler leaves: no box of a swap, and the others.
pub record Handled (boxes : Boxes) (h : JsHandler) (msgs : List Message) : Type 0 where
  pub boxes_after : Boxes
  pub handler_after : JsHandler
  pub result : js_handles boxes h msgs ≡ some (boxes_after, handler_after)
  pub unboxed :
      (q : ℕ)
      → boxed_at boxes_after q
        ≡ (if any (λ p. p == q) (swap_pointers msgs) then none else boxed_at boxes q)
  pub as_seen : handler_after ≡ js_sees_all (boxed_at boxes) h msgs

swap_step :
    (boxes : Boxes) (h : JsHandler) (p tsfn : ℕ)
    → boxed_at boxes p ≡ some tsfn
    → js_handle boxes h (system (hot_swap p))
      ≡ some (set boxes p none, record h { behavior = tsfn })
unfolding js_handle
swap_step boxes h p tsfn e = ground (arith, e)

-- A message that is no swap is a call.
called_first :
    (boxes : Boxes) (h : JsHandler) (msg : Message) (msgs : List Message)
    → let called = record h { calls = h.calls ++ (h.behavior, msg) ∷ [] } in
      js_handle boxes h msg ≡ some (boxes, called)
      → js_sees (boxed_at boxes) h msg ≡ called
      → swap_pointers (msg ∷ msgs) ≡ swap_pointers msgs
      → Handled boxes called msgs
      → Handled boxes h (msg ∷ msgs)
unfolding js_handles js_sees_all
called_first boxes h msg msgs step sees same r = record {
  boxes_after = r.boxes_after;
  handler_after = r.handler_after;
  result =
      ap (λ x. elim x [ none ↦ none | some (boxes', h') ↦ js_handles boxes' h' msgs ]) step
      ∙ r.result;
  unboxed = λ q.
      r.unboxed q ∙ ap (λ ps. if any (λ p. p == q) ps then none else boxed_at boxes q) (sym same);
  as_seen = r.as_seen ∙ ap (λ x. js_sees_all (boxed_at boxes) x msgs) (sym sees);
}

-- When the hot swaps among an actor's messages point to boxes that are there, each to its own, the handler
-- never uses a box twice or one that is not there: it calls, in order, the callable in force for each
-- other message, puts the callable of each swap in force, and unboxes those boxes and no other.
pub js_handles-Handled :
    (boxes : Boxes) (h : JsHandler) (msgs : List Message)
    → All (IsBoxed boxes) (swap_pointers msgs)
    → AreDistinct (swap_pointers msgs)
    → Handled boxes h msgs
unfolding js_handles js_handle js_sees_all js_sees
js_handles-Handled boxes h [] a u = record {
  boxes_after = boxes;
  handler_after = h;
  result = refl;
  unboxed = λ q. refl;
  as_seen = refl;
}
js_handles-Handled boxes h (user b ∷ msgs) a u =
    called_first boxes h (user b) msgs refl refl refl (js_handles-Handled boxes _ msgs a u)
js_handles-Handled boxes h (system (exit info) ∷ msgs) a u =
    called_first boxes h (system (exit info)) msgs refl refl refl
      (js_handles-Handled boxes _ msgs a u)
js_handles-Handled boxes h (system ping ∷ msgs) a u =
    called_first boxes h (system ping) msgs refl refl refl (js_handles-Handled boxes _ msgs a u)
js_handles-Handled boxes h (system pong ∷ msgs) a u =
    called_first boxes h (system pong) msgs refl refl refl (js_handles-Handled boxes _ msgs a u)
js_handles-Handled boxes h (system (hot_swap p) ∷ msgs) ((tsfn, e), a) (once, u) =
    let left = set boxes p none in
    let swapped = record h { behavior = tsfn } in
    let r = js_handles-Handled left swapped msgs (set-IsBoxed boxes p _ once a) u in
    record {
      boxes_after = r.boxes_after;
      handler_after = r.handler_after;
      result =
          ap (λ x. elim x [ none ↦ none | some (boxes', h') ↦ js_handles boxes' h' msgs ])
            (swap_step boxes h p tsfn e)
          ∙ r.result;
      unboxed = λ q. ground (arith, r.unboxed q, boxed_at-set boxes p q);
      as_seen =
          r.as_seen
          ∙ sees_same (boxed_at boxes) (boxed_at left) swapped msgs (others_same boxes p _ once)
          ∙ ap
              (λ x.
                js_sees_all (boxed_at boxes)
                  (elim x [ none ↦ h | some t ↦ record h { behavior = t } ]) msgs)
              (sym e);
    }
