-- ===== src/Deps/DashMap.antt =====
-- `dashmap::DashMap`, as a parameter: the operations that the program calls, with their documented
-- behaviour. A call is atomic, and `iter` gives each entry, in an order that is not fixed.
use myrmidon.Base.{◌≡◌, refl, ◌↔◌, Bool, true, Option, none, some, List, [], find, if◌then◌else◌}
use myrmidon.Base.Assoc.{put, without, find-put, find-without}

pub record DashMap (K : Type 0) (same : K → K → Bool) : Type 1 where
  pub Map : Type 0 → Type 0
  pub new : {V : Type 0} → Map V
  pub get : {V : Type 0} → Map V → K → Option V
  pub insert : {V : Type 0} → Map V → K → V → Map V
  pub remove : {V : Type 0} → Map V → K → Map V
  pub iter : {V : Type 0} → Map V → List (K × V)
  pub get-new : {V : Type 0} (k : K) → get (new {V = V}) k ≡ none
  pub get-insert :
      {V : Type 0} (m : Map V) (k : K) (v : V) (j : K)
      → get (insert m k v) j ≡ (if same k j then some v else get m j)
  pub get-remove :
      {V : Type 0} (m : Map V) (k j : K) → get (remove m k) j ≡ (if same k j then none else get m j)
  pub find-iter : {V : Type 0} (m : Map V) (k : K) → find same k (iter m) ≡ get m k

-- A value that meets the laws: association lists.
abbrev pub assoc_map :
    (K : Type 0) (same : K → K → Bool) → ((a b : K) → (same a b ≡ true) ↔ (a ≡ b)) → DashMap K same
assoc_map K same same_iff = record {
  Map = λ V. List (K × V);
  new = [];
  get = λ m k. find same k m;
  insert = put same same_iff;
  remove = without same same_iff;
  iter = λ m. m;
  get-new = λ k. refl;
  get-insert = find-put same same_iff;
  get-remove = find-without same same_iff;
  find-iter = λ m k. refl;
}
