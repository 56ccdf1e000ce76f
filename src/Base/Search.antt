-- ===== src/Base/Search.antt =====
-- `iter().position(p)` and `remove(i)` of vectors and deques, and what the two do together.
use Prim.Native.Nat.{ℕ, zero, suc}
use mathlib.Core.Path.{◌≡◌, refl}
use mathlib.Core.Logic.{◌⊎◌, inl, inr}
use mathlib.Core.Bool.{Bool, true, false}
use mathlib.Core.List.{List, [], ◌∷◌, ◌++◌}
use mathlib.Core.Option
use mathlib.Core.Option.{Option, none, some}
use native.Mathlib.Omega.{arith}
use myrmidon.Base.Tests.{if◌then◌else◌}
use myrmidon.Base.Lists.{keep}

module _ {A : Type 0} where
  unfoldable pub position : (A → Bool) → List A → Option ℕ
  position p [] = none
  position p (x ∷ xs) = if p x then some 0 else Option.map suc (position p xs)

  unfoldable pub remove_at : List A → ℕ → Option A × List A
  remove_at [] i = (none, [])
  remove_at (x ∷ xs) zero = (some x, xs)
  remove_at (x ∷ xs) (suc i) = let (removed, ys) = remove_at xs i in (removed, x ∷ ys)

  pub record Miss (p : A → Bool) (xs : List A) : Type 0 where
    pub at : position p xs ≡ none
    pub no_match : keep p xs ≡ []

  -- The first element that passes, between those before it, which do not, and those behind it.
  pub record Hit (p : A → Bool) (xs : List A) : Type 0 where
    pub pos : ℕ
    pub elem : A
    pub before : List A
    pub behind : List A
    pub split : xs ≡ before ++ elem ∷ behind
    pub at : position p xs ≡ some pos
    pub passes : p elem ≡ true
    pub no_match : keep p before ≡ []
    pub removed : remove_at xs pos ≡ (some elem, before ++ behind)

  pub position-cases : (p : A → Bool) (xs : List A) → Miss p xs ⊎ Hit p xs
  unfolding position remove_at
  position-cases p [] = inl (record { at = refl; no_match = refl })
  position-cases p (x ∷ xs) = go (p x) refl (position-cases p xs)
    where
      go : (b : Bool) → p x ≡ b → Miss p xs ⊎ Hit p xs → Miss p (x ∷ xs) ⊎ Hit p (x ∷ xs)
      go true e r = inr (record {
        pos = 0;
        elem = x;
        before = [];
        behind = xs;
        split = refl;
        at = rw e;
        passes = e;
        no_match = refl;
        removed = refl;
      })
      go false e (inl m) =
          inl (record { at = ground (arith, m.at); no_match = ground (arith, m.no_match) })
      go false e (inr h) = inr (record {
        pos = suc h.pos;
        elem = h.elem;
        before = x ∷ h.before;
        behind = h.behind;
        split = rw h.split;
        at = ground (arith, h.at);
        passes = h.passes;
        no_match = ground (arith, h.no_match);
        removed = rw h.removed;
      })

  pub keep-append : (p : A → Bool) (xs ys : List A) → keep p (xs ++ ys) ≡ keep p xs ++ keep p ys
  keep-append p [] ys = refl
  keep-append p (x ∷ xs) ys = ground (arith, keep-append p xs ys)

  -- Taking the first match out takes the head off the matches, and nothing off the others.
  pub keep-Hit :
      (p : A → Bool) (xs : List A) (h : Hit p xs)
      → keep p xs ≡ h.elem ∷ keep p (h.before ++ h.behind)
  keep-Hit p xs h = rw (
    h.split,
    keep-append p h.before (h.elem ∷ h.behind),
    keep-append p h.before h.behind,
    h.no_match,
    h.passes,
  )

  pub keep_other :
      (p q : A → Bool) (xs : List A) (h : Hit p xs)
      → q h.elem ≡ false
      → keep q (h.before ++ h.behind) ≡ keep q xs
  keep_other p q xs h e =
      rw (h.split, keep-append q h.before (h.elem ∷ h.behind), keep-append q h.before h.behind, e)
