-- ===== src/Registry/Paths.antt =====
-- The prefixes of src/registry.rs: what lies below a path, and what directly below.
use myrmidon.Base.{
  ◌≡◌, refl, ◌≢◌, ◌↔◌, ◌⊎◌, inl, inr, sym, subst, ◌∙◌, true, false, [], ◌∷◌, ◌++◌, if◌then◌else◌,
  length, drop, arith, List-cases, Bool-cases, ℕ, zero, suc, ap, ◌==◌, replicate, count, same_text,
}
use mathlib.Core.List.{append_assoc}
use myrmidon.Registry.{
  Text, slash, ends_with_slash, trim_slashes, starts_with, has_slash, norm, is_listed,
  is_listed_direct, direct_under,
}

starts_with_rest :
    (p s : Text)
    → starts_with p s ≡ true
    → (rest : Text) × (s ≡ p ++ rest) × (drop (length p) s ≡ rest)
starts_with_rest [] s h = (s, refl, refl)
starts_with_rest (c ∷ p) [] h = absurd (ground (arith, h))
starts_with_rest (c ∷ p) (d ∷ s) h =
    let (rest, e, f) = starts_with_rest p s (ground (arith, h)) in (rest, ground (arith, h, e), f)

starts_with-append : (p rest : Text) → starts_with p (p ++ rest) ≡ true
starts_with-append [] rest = refl
starts_with-append (c ∷ p) rest = ground (arith, starts_with-append p rest)

drop-append : (p rest : Text) → drop (length p) (p ++ rest) ≡ rest
drop-append [] rest = refl
drop-append (c ∷ p) rest = drop-append p rest

-- A path lies below a prefix when it is the prefix, a slash and a tail; everything lies below the
-- root.
abbrev pub Below : Text → Text → Text → Type 0
Below dir tail key = key ≡ dir ++ slash ∷ tail

module _ (dir key : Text) where
  starts_with-Below :
      starts_with (dir ++ slash ∷ []) key ≡ true
      → (tail : Text) × Below dir tail key × (drop (length (dir ++ slash ∷ [])) key ≡ tail)
  starts_with-Below h =
      let (tail, e, f) = starts_with_rest (dir ++ slash ∷ []) key h in
      (tail, e ∙ append_assoc dir (slash ∷ []) tail, f)

  Below-starts_with :
      (tail : Text)
      → Below dir tail key
      → (starts_with (dir ++ slash ∷ []) key ≡ true)
        × (drop (length (dir ++ slash ∷ [])) key ≡ tail)
  Below-starts_with tail e =
      let e' : key ≡ (dir ++ slash ∷ []) ++ tail = e ∙ sym (append_assoc dir (slash ∷ []) tail) in
      (
        rw e' (starts_with-append (dir ++ slash ∷ []) tail),
        rw e' (drop-append (dir ++ slash ∷ []) tail),
      )

-- The loop of `list_children` pushes a key exactly when the prefix is the root or the key lies
-- below it.
pub is_listed_iff :
    (prefix key : Text)
    → (is_listed prefix key ≡ true)
      ↔ ((norm prefix ≡ []) ⊎ ((tail : Text) × Below (norm prefix) tail key))
unfolding is_listed
is_listed_iff prefix key = elim (List-cases (norm prefix)) [
  | inl e ↦ (λ h. inl e, λ h. rw e refl)
  | inr r ↦ (
    λ h.
        let (tail, e, f) = starts_with-Below (norm prefix) key (ground (arith, r.eq)) in
        inr (tail, e),
    elim [
      | inl e ↦ absurd (ground (arith, r.eq))
      | inr (tail, e) ↦ ground (arith, (Below-starts_with (norm prefix) key tail e).0)
    ],
  )
]

root_direct :
    (key : Text)
    → direct_under [] key ≡ true
    → has_slash (if starts_with (slash ∷ []) key then drop 1 key else key) ≡ false
unfolding direct_under
root_direct key h = ground arith

-- The loop of `list_direct_children` pushes a key exactly when the key, less the prefix and a slash
-- or, at the root, less a slash at its front if there is one, has no slash.
pub is_listed_direct_iff :
    (prefix key : Text)
    → (is_listed_direct prefix key ≡ true) ↔ (
        ((norm prefix ≡ [])
          × (has_slash (if starts_with (slash ∷ []) key then drop 1 key else key) ≡ false))
        ⊎ ((norm prefix ≢ [])
            × ((tail : Text) × Below (norm prefix) tail key × (has_slash tail ≡ false))))
unfolding is_listed_direct direct_under
is_listed_direct_iff prefix key = elim (List-cases (norm prefix)) [
  | inl e ↦ (
    λ h. inl (e, root_direct key (subst (λ n. direct_under n key ≡ true) e h)),
    elim [
      | inl (e', f) ↦ subst (λ n. direct_under n key ≡ true) (sym e) (ground arith)
      | inr (ne, _) ↦ absurd (ne e)
    ],
  )
  | inr r ↦ (
    λ h.
        let (tail, e, f) = starts_with-Below (norm prefix) key (ground (arith, r.eq)) in
        inr (ground (arith, r.eq), (tail, e, ground (arith, r.eq))),
    elim [
      | inl (e, f) ↦ absurd (ground (arith, r.eq))
      | inr (ne, (tail, e, f)) ↦
          let (g, k) = Below-starts_with (norm prefix) key tail e in ground (arith, r.eq)
    ],
  )
]

-- A text that does not end in a slash.
abbrev pub IsTrimmed : Text → Type 0
IsTrimmed dir = (init : Text) → dir ≢ init ++ slash ∷ []

trim_same : (p : Text) → ends_with_slash p ≡ false → trim_slashes p ≡ p
trim_same [] h = refl
trim_same (c ∷ []) h = ground (arith, h)
trim_same (c ∷ d ∷ s) h = ground (arith, trim_same (d ∷ s) h)

norm_trims : (p : Text) → norm p ≡ trim_slashes p
unfolding norm same_text
norm_trims [] = refl
norm_trims (c ∷ []) = ground arith
norm_trims (c ∷ d ∷ s) = elim (Bool-cases (ends_with_slash (d ∷ s))) [
  | inl ends ↦ ground (arith, ends)
  | inr other ↦ ground (arith, other, trim_same (c ∷ d ∷ s) other)
]

trim-replicate : (n : ℕ) → trim_slashes (replicate n slash) ≡ []
trim-replicate zero = refl
trim-replicate (suc n) = ground (arith, trim-replicate n)

trim-append : (dir : Text) (n : ℕ) → IsTrimmed dir → trim_slashes (dir ++ replicate n slash) ≡ dir
trim-append [] n h = trim-replicate n
trim-append (c ∷ dir) n h =
    let rest = trim-append dir n (λ init e. h (c ∷ init) (ap (λ l. c ∷ l) e)) in
    elim (List-cases dir) [
      | inl e ↦ elim (Bool-cases (c == slash)) [
        | inl is_slash ↦ absurd (h [] (ground (arith, e, is_slash)))
        | inr other ↦ ground (arith, rest, other)
      ]
      | inr r ↦ ground (arith, rest, r.eq)
    ]

-- The slashes at the end of a prefix do not count.
pub norm-append : (dir : Text) (n : ℕ) → IsTrimmed dir → norm (dir ++ replicate n slash) ≡ dir
norm-append dir n h = norm_trims (dir ++ replicate n slash) ∙ trim-append dir n h

pub has_slash_iff : (t : Text) → (has_slash t ≡ false) ↔ (count slash t ≡ 0)
has_slash_iff [] = (λ h. refl, λ h. refl)
has_slash_iff (c ∷ t) =
    (λ h. ground (arith, h, (has_slash_iff t).0), λ h. ground (arith, h, (has_slash_iff t).1))

-- A key of the root: a text without a slash, with or without a slash in front.
pub root_key_iff :
    (k : Text)
    → (has_slash (if starts_with (slash ∷ []) k then drop 1 k else k) ≡ false)
      ↔ ((tail : Text) × ((k ≡ tail) ⊎ (k ≡ slash ∷ tail)) × (count slash tail ≡ 0))
root_key_iff [] = (λ h. ([], inl refl, refl), λ h. refl)
root_key_iff (c ∷ s) = elim (Bool-cases (slash == c)) [
  | inl is_slash ↦ (
    λ h. (s, inr (ground (arith, is_slash)), (has_slash_iff s).0 (ground (arith, h, is_slash))),
    λ (tail, either, none_in). elim either [
      | inl e ↦ absurd (ground (arith, is_slash, none_in, ap (count slash) (sym e)))
      | inr e ↦
          let same : tail ≡ s = sym (ground (arith, e)) in
          ground (arith, is_slash, (has_slash_iff s).1 (ap (count slash) (sym same) ∙ none_in))
    ],
  )
  | inr other ↦ (
    λ h. (c ∷ s, inl refl, (has_slash_iff (c ∷ s)).0 (ground (arith, h, other))),
    λ (tail, either, none_in). elim either [
      | inl e ↦
          let no : has_slash (c ∷ s) ≡ false =
            (has_slash_iff (c ∷ s)).1 (ap (count slash) e ∙ none_in) in
          ground (arith, other, no)
      | inr e ↦ absurd (ground (arith, other, e))
    ],
  )
]
