-- ===== src/Registry.antt =====
-- src/registry.rs: names and paths of actors. A text is the list of its bytes; `/` is 47.
use myrmidon.Base.{
  ℕ, Bool, true, false, not, ◌&&◌, ◌||◌, Option, none, some, List, [], ◌∷◌, ◌++◌, ◌==◌,
  if◌then◌else◌, same_text, length, drop, keep, any,
}
use myrmidon.Deps.DashMap.{DashMap}
pub mod Paths
pub mod Listing
mod Tests

abbrev pub Text : Type 0
Text = List ℕ

abbrev pub slash : ℕ
slash = b'/'

abbrev pub is_empty : Text → Bool
is_empty [] = true
is_empty (c ∷ s) = false

abbrev pub starts_with : Text → Text → Bool
starts_with [] s = true
starts_with (c ∷ p) [] = false
starts_with (c ∷ p) (d ∷ s) = (c == d) && starts_with p s

-- `ends_with('/')`
abbrev pub ends_with_slash : Text → Bool
ends_with_slash [] = false
ends_with_slash (c ∷ []) = c == slash
ends_with_slash (c ∷ d ∷ s) = ends_with_slash (d ∷ s)

-- `trim_end_matches('/')`
abbrev pub trim_slashes : Text → Text
trim_slashes [] = []
trim_slashes (c ∷ s) =
    let trimmed = trim_slashes s in if is_empty trimmed && (c == slash) then [] else c ∷ trimmed

-- `contains('/')`
abbrev pub has_slash : Text → Bool
has_slash = any (λ c. c == slash)

-- The prefix without its slashes at the end; the root is the empty text.
unfoldable pub norm : Text → Text
unfolding same_text
norm prefix =
    if is_empty prefix || same_text prefix (slash ∷ [])
    then []
    else if ends_with_slash prefix
    then trim_slashes prefix
    else prefix

-- Whether the loop of `list_children` pushes a key.
unfoldable pub is_listed : Text → Text → Bool
is_listed prefix key =
    if is_empty (norm prefix) then true else starts_with (norm prefix ++ slash ∷ []) key

-- The test of the loop of `list_direct_children`, for a normal prefix and a key.
unfoldable pub direct_under : Text → Text → Bool
direct_under dir key =
    if is_empty dir
    then not (has_slash (if starts_with (slash ∷ []) key then drop 1 key else key))
    else (starts_with (dir ++ slash ∷ []) key
        && not (has_slash (drop (length (dir ++ slash ∷ [])) key)))

-- Whether the loop of `list_direct_children` pushes a key.
unfoldable pub is_listed_direct : Text → Text → Bool
is_listed_direct prefix key = direct_under (norm prefix) key

module _ (d : DashMap Text same_text) where
  pub record NameRegistry : Type 0 where
    pub names : d.Map ℕ

  unfoldable pub new : NameRegistry
  new = record { names = d.new }

  unfoldable pub register : NameRegistry → Text → ℕ → NameRegistry
  register r name pid = record { names = d.insert r.names name pid }

  unfoldable pub resolve : NameRegistry → Text → Option ℕ
  resolve r name = d.get r.names name

  unfoldable pub unregister : NameRegistry → Text → NameRegistry
  unregister r name = record { names = d.remove r.names name }

  unfoldable pub list_children : NameRegistry → Text → List (Text × ℕ)
  list_children r prefix = keep (λ e. is_listed prefix e.0) (d.iter r.names)

  unfoldable pub list_direct_children : NameRegistry → Text → List (Text × ℕ)
  list_direct_children r prefix = keep (λ e. is_listed_direct prefix e.0) (d.iter r.names)
