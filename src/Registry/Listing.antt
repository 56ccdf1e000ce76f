-- ===== src/Registry/Listing.antt =====
-- `list_children` and `list_direct_children` of src/registry.rs, read back through `resolve`.
use myrmidon.Base.{
  ℕ, ◌≡◌, ◌≢◌, ◌↔◌, ◌⊎◌, ap, sym, ◌∙◌, subst, inl, inr, replicate, count, ◌++◌, Bool, true, false,
  Option, none, some, [], ◌∷◌, if◌then◌else◌, same_text, same_text_iff, drop, find, arith,
}
use myrmidon.Base.Assoc.{find-keep}
use myrmidon.Deps.DashMap.{DashMap}
use myrmidon.Registry.{
  Text, slash, starts_with, has_slash, norm, is_listed, is_listed_direct, NameRegistry, register,
  unregister, resolve, list_children, list_direct_children,
}
use myrmidon.Registry.Paths.{
  IsTrimmed, norm-append, has_slash_iff, root_key_iff, Below, is_listed_iff, is_listed_direct_iff,
}

-- An entry of a list cut by a test is one of the whole list whose key passes.
cut_iff :
    (b : Bool) (o : Option ℕ) (pid : ℕ)
    → ((if b then o else none) ≡ some pid) ↔ ((o ≡ some pid) × (b ≡ true))
cut_iff true o pid = ground arith
cut_iff false o pid = ground arith

module _ (d : DashMap Text same_text) (r : NameRegistry d) where
  find-list_children :
      (prefix k : Text)
      → find same_text k (list_children d r prefix)
        ≡ (if is_listed prefix k then resolve d r k else none)
  unfolding list_children resolve
  find-list_children prefix k =
      find-keep same_text same_text_iff (is_listed prefix) (d.iter r.names) k
      ∙ ap (λ (o : Option ℕ). if is_listed prefix k then o else none) (d.find-iter r.names k)

  find-list_direct_children :
      (prefix k : Text)
      → find same_text k (list_direct_children d r prefix)
        ≡ (if is_listed_direct prefix k then resolve d r k else none)
  unfolding list_direct_children resolve
  find-list_direct_children prefix k =
      find-keep same_text same_text_iff (is_listed_direct prefix) (d.iter r.names) k
      ∙ ap (λ (o : Option ℕ). if is_listed_direct prefix k then o else none) (d.find-iter r.names k)

  -- `list_children` reports a name with an actor exactly when the name resolves to it and the prefix
  -- is the root or the name is the prefix, a slash and a tail.
  pub list_children_iff :
      (prefix k : Text) (pid : ℕ)
      → (find same_text k (list_children d r prefix) ≡ some pid) ↔ (
          (resolve d r k ≡ some pid)
          × ((norm prefix ≡ []) ⊎ ((tail : Text) × Below (norm prefix) tail k)))
  list_children_iff prefix k pid = (
    λ h.
        let (found, listed) =
          (cut_iff (is_listed prefix k) (resolve d r k) pid).0
            (sym (find-list_children prefix k) ∙ h) in
        (found, (is_listed_iff prefix k).0 listed),
    λ (found, below).
        find-list_children prefix k
        ∙ (cut_iff (is_listed prefix k) (resolve d r k) pid).1
            (found, (is_listed_iff prefix k).1 below),
  )

  -- `list_direct_children` reports a name with an actor exactly when the name resolves to it and is
  -- the prefix, a slash and a tail without a slash, or at the root has no slash but at its front.
  pub listed_direct_iff :
      (prefix k : Text) (pid : ℕ)
      → (find same_text k (list_direct_children d r prefix) ≡ some pid) ↔ (
          (resolve d r k ≡ some pid)
          × (((norm prefix ≡ [])
                × (has_slash (if starts_with (slash ∷ []) k then drop 1 k else k) ≡ false))
              ⊎ ((norm prefix ≢ [])
                  × ((tail : Text) × Below (norm prefix) tail k × (has_slash tail ≡ false)))))
  listed_direct_iff prefix k pid = (
    λ h.
        let (found, listed) =
          (cut_iff (is_listed_direct prefix k) (resolve d r k) pid).0
            (sym (find-list_direct_children prefix k) ∙ h) in
        (found, (is_listed_direct_iff prefix k).0 listed),
    λ (found, below).
        find-list_direct_children prefix k
        ∙ (cut_iff (is_listed_direct prefix k) (resolve d r k) pid).1
            (found, (is_listed_direct_iff prefix k).1 below),
  )

  -- `list_direct_children` for a path that does not end in a slash, with any number of slashes behind
  -- it, reports a name with an actor exactly when the name resolves to it and is the path, a slash and
  -- a tail without a slash, or for the empty path a tail without a slash, with or without a slash in
  -- front.
  pub list_direct_children_iff :
      (dir : Text) (slashes : ℕ) (k : Text) (pid : ℕ)
      → IsTrimmed dir
      → (find same_text k (list_direct_children d r (dir ++ replicate slashes slash)) ≡ some pid)
        ↔ ((resolve d r k ≡ some pid)
            × ((tail : Text) × (((dir ≡ []) × ((k ≡ tail) ⊎ (k ≡ slash ∷ tail)))
                  ⊎ ((dir ≢ []) × (k ≡ dir ++ slash ∷ tail)))
                × (count slash tail ≡ 0)))
  list_direct_children_iff dir slashes k pid trimmed =
      let e = norm-append dir slashes trimmed in
      let whole = listed_direct_iff (dir ++ replicate slashes slash) k pid in
      (
        λ h.
            let (found, where_at) = whole.0 h in
            (
              found,
              elim where_at [
                | inl (root, no_slash) ↦
                    let (tail, either, none_in) = (root_key_iff k).0 no_slash in
                    (tail, inl (sym e ∙ root, either), none_in)
                | inr (not_root, (tail, below, no_slash)) ↦ (
                  tail,
                  inr (
                    λ is_root. not_root (e ∙ is_root),
                    subst (λ x. k ≡ x ++ slash ∷ tail) e below,
                  ),
                  (has_slash_iff tail).0 no_slash,
                )
              ],
            ),
        λ (found, (tail, place, none_in)). whole.1 (
          found,
          elim place [
            | inl (root, either) ↦ inl (e ∙ root, (root_key_iff k).1 (tail, either, none_in))
            | inr (not_root, below) ↦ inr (
              λ is_root. not_root (sym e ∙ is_root),
              (
                tail,
                subst (λ x. k ≡ x ++ slash ∷ tail) (sym e) below,
                (has_slash_iff tail).1 none_in,
              ),
            )
          ],
        ),
      )

module _ (d : DashMap Text same_text) where
  -- A registration shows at once in every listing above it, in place of an earlier one of the name,
  -- and `unregister` takes the name out of every listing; other names stay.
  pub list_children-register :
      (r : NameRegistry d) (prefix name k : Text) (pid : ℕ)
      → (find same_text k (list_children d (register d r name pid) prefix) ≡ (
          if is_listed prefix k
          then (if same_text name k then some pid else resolve d r k)
          else none))
        × (find same_text k (list_children d (unregister d r name) prefix) ≡ (
            if is_listed prefix k
            then (if same_text name k then none else resolve d r k)
            else none))
  unfolding register unregister resolve
  list_children-register r prefix name k pid = (
    find-list_children d (register d r name pid) prefix k
        ∙ ap (λ (o : Option ℕ). if is_listed prefix k then o else none)
            (d.get-insert r.names name pid k),
    find-list_children d (unregister d r name) prefix k
        ∙ ap (λ (o : Option ℕ). if is_listed prefix k then o else none)
            (d.get-remove r.names name k),
  )
