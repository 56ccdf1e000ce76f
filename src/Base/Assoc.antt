-- ===== src/Base/Assoc.antt =====
-- Association lists, newest entry first, with one entry for a key at most after each call.
use mathlib.Core.Path.{◌≡◌}
use mathlib.Core.Logic.{◌↔◌}
use mathlib.Core.Bool.{Bool, true, not}
use mathlib.Core.List.{List, [], ◌∷◌}
use mathlib.Core.Option.{none, some}
use native.Mathlib.Omega.{arith}
use myrmidon.Base.Tests.{if◌then◌else◌}
use myrmidon.Base.Lists.{keep, find}

module _ {K V : Type 0} (same : K → K → Bool)
    (same_iff : (a b : K) → (same a b ≡ true) ↔ (a ≡ b)) where
  -- A test on the key commutes with the search.
  pub find-keep :
      (f : K → Bool) (m : List (K × V)) (k : K)
      → find same k (keep (λ e. f e.0) m) ≡ (if f k then find same k m else none)
  find-keep f [] k = ground arith
  find-keep f ((i, v) ∷ m) k = ground (arith, same_iff i k, find-keep f m k)

  abbrev pub without : List (K × V) → K → List (K × V)
  without m k = keep (λ e. not (same k e.0)) m

  pub find-without :
      (m : List (K × V)) (k j : K)
      → find same j (without m k) ≡ (if same k j then none else find same j m)
  find-without m k j = ground (arith, find-keep (λ i. not (same k i)) m j)

  abbrev pub put : List (K × V) → K → V → List (K × V)
  put m k v = (k, v) ∷ without m k

  pub find-put :
      (m : List (K × V)) (k : K) (v : V) (j : K)
      → find same j (put m k v) ≡ (if same k j then some v else find same j m)
  find-put m k v j = ground (arith, find-without m k j)
