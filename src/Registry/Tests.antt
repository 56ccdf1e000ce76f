-- ===== src/Registry/Tests.antt =====
-- Runs of src/registry.rs over an association list, and its theorems at a concrete registry.
use Prim.Native.Char.{code}
use Prim.Native.String.{String}
use myrmidon.Base.{
  ◌≡◌, refl, ◌≢◌, ◌↔◌, ◌⊎◌, some, [], ◌∷◌, ◌++◌, arith, count, same_text, same_text_iff, find, map,
}
use myrmidon.Deps.DashMap.{DashMap, assoc_map}
use myrmidon.Registry.{
  Text, slash, norm, is_listed, direct_under, is_listed_direct, NameRegistry, new, register,
  unregister, resolve, list_children, list_direct_children,
}
use myrmidon.Registry.Paths.{IsTrimmed}
use myrmidon.Registry.Listing.{list_direct_children_iff}

abbrev text : String → Text
text String.[] = []
text (String.◌∷◌ c s) = code c ∷ text s

abbrev d : DashMap Text same_text
d = assoc_map Text same_text same_text_iff

abbrev registry : NameRegistry d
registry = record { names = (text "/a/b", 1) ∷ (text "/a/b/c", 2) ∷ (text "/ab", 3) ∷ [] }

program : Unit {0}
unfolding new register unregister resolve norm is_listed direct_under is_listed_direct list_children
    list_direct_children same_text
program = tt

below_a :
    (map (λ e. e.1) (list_children d registry (text "/a")) ≡ 1 ∷ 2 ∷ [])
    × (map (λ e. e.1) (list_direct_children d registry (text "/a/")) ≡ 1 ∷ [])
    × (map (λ e. e.1) (list_direct_children d registry (text "/")) ≡ 3 ∷ [])
unfolding program
below_a = (refl, refl, refl)

a-IsTrimmed : IsTrimmed (text "/a")
a-IsTrimmed [] e = ground (arith, e)
a-IsTrimmed (x ∷ []) e = ground (arith, e)
a-IsTrimmed (x ∷ y ∷ []) e = ground (arith, e)
a-IsTrimmed (x ∷ y ∷ z ∷ init) e = ground (arith, e)

list_direct_children_iff_example :
    (find same_text (text "/a/b") (list_direct_children d registry (text "/a//")) ≡ some 1) ↔ (
      (resolve d registry (text "/a/b") ≡ some 1)
      × ((tail : Text) × (((text "/a" ≡ []) × ((text "/a/b" ≡ tail) ⊎ (text "/a/b" ≡ slash ∷ tail)))
            ⊎ ((text "/a" ≢ []) × (text "/a/b" ≡ text "/a" ++ slash ∷ tail)))
          × (count slash tail ≡ 0)))
list_direct_children_iff_example =
    list_direct_children_iff d registry (text "/a") 2 (text "/a/b") 1 a-IsTrimmed
