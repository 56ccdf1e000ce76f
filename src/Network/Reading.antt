-- ===== src/Network/Reading.antt =====
-- `read_exact_with_timeout` of src/network.rs, however the bytes come in.
use myrmidon.Base.{
  ℕ, zero, suc, ◌-◌, ◌≤◌, ◌<◌, ◌≡◌, refl, sym, ap, ◌∙◌, inl, inr, Option, some, List, [], ◌∷◌, ◌++◌,
  Result, ok, err, length, take, drop, length-append, arith, List-cases,
}
use mathlib.Core.List.{append-nil, append_assoc}
use myrmidon.Deps.Reader.{ErrorKind, Reader, Chunk}
use myrmidon.Network.{Bytes, kind_of, read_loop, read_exact_with_timeout}

pub take-append :
    (n : ℕ) (xs ys : List ℕ) → length xs ≤ n → take n (xs ++ ys) ≡ xs ++ take (n - length xs) ys
take-append n [] ys h = ap (λ k. take k ys) (omega arith)
take-append zero (x ∷ xs) ys h = absurd (omega arith)
take-append (suc n) (x ∷ xs) ys h =
    ap (λ l. x ∷ l)
      (take-append n xs ys (omega (arith, h)) ∙ ap (λ k. xs ++ take k ys) (omega arith))

pub drop-append :
    (n : ℕ) (xs ys : List ℕ) → length xs ≤ n → drop n (xs ++ ys) ≡ drop (n - length xs) ys
drop-append n [] ys h = ap (λ k. drop k ys) (omega arith)
drop-append zero (x ∷ xs) ys h = absurd (omega arith)
drop-append (suc n) (x ∷ xs) ys h =
    drop-append n xs ys (omega (arith, h)) ∙ ap (λ k. drop k ys) (omega arith)

module _ (r : Reader) where
  -- What reading so many bytes comes to.
  pub data Reads (s : r.Source) (n : ℕ) (buf : Bytes)
      (result : Option (Result Bytes ErrorKind × r.Source)) : Type 0 where
    full :
        (after : r.Source)
        → n ≤ length (r.incoming s)
        → result ≡ some (ok (buf ++ take n (r.incoming s)), after)
        → r.incoming after ≡ drop n (r.incoming s)
        → r.ending after ≡ r.ending s
        → Reads s n buf result
    cut :
        (after : r.Source)
        → length (r.incoming s) < n
        → result ≡ some (err (kind_of (r.ending s)), after)
        → r.incoming after ≡ []
        → Reads s n buf result

  -- A chunk, and what reading the rest after it comes to.
  go_on :
      (s after : r.Source) (n : ℕ) (buf got : Bytes)
      {result : Option (Result Bytes ErrorKind × r.Source)}
      → Chunk got (r.incoming s) (r.incoming after) n
      → r.ending after ≡ r.ending s
      → Reads after (n - length got) (buf ++ got) result
      → Reads s n buf result
  go_on s after n buf got {result} chunk same (full last enough eq left ending) =
      full last
        (omega (
          arith,
          enough,
          chunk.has_room,
          ap length chunk.in_order,
          length-append got (r.incoming after),
        ))
        (eq
          ∙ ap (λ l. some (ok l, last))
              (append_assoc buf got (take (n - length got) (r.incoming after))
                ∙ ap (λ l. buf ++ l)
                    (sym (
                      ap (take n) chunk.in_order
                      ∙ take-append n got (r.incoming after) chunk.has_room))))
        (left
          ∙ sym (ap (drop n) chunk.in_order ∙ drop-append n got (r.incoming after) chunk.has_room))
        (ending ∙ same)
  go_on s after n buf got {result} chunk same (cut last short eq left) =
      cut last
        (omega (
          arith,
          short,
          chunk.has_room,
          ap length chunk.in_order,
          length-append got (r.incoming after),
        ))
        (eq ∙ ap (λ e. some (err (kind_of e), last)) same) left

  read_loop-Reads :
      (fuel : ℕ) (s : r.Source) (n : ℕ) (buf : Bytes)
      → n ≤ fuel
      → Reads s n buf (read_loop r fuel s n buf)
  unfolding read_loop
  read_loop-Reads fuel s zero buf h =
      full s (omega arith) (ap (λ l. some (ok l, s)) (sym (append-nil buf))) refl refl
  read_loop-Reads zero s (suc k) buf h = absurd (omega arith)
  read_loop-Reads (suc fuel) s (suc k) buf h = elim (List-cases (r.incoming s)) [
    | inl e ↦
        let (outcome, left) = r.read_end s k e in
        cut (r.read s (suc k)).1 (ground (arith, e)) (ground (arith, outcome)) left
    | inr l ↦
        let (got, outcome, chunk) = r.read_more s k l.first l.rest l.eq in
        let after = (r.read s (suc k)).1 in
        let more =
          read_loop-Reads fuel after (suc k - length got) (buf ++ got)
            (omega (arith, chunk.some_bytes, h)) in
        let next : read_loop r (suc fuel) s (suc k) buf
            ≡ read_loop r fuel after (suc k - length got) (buf ++ got) =
          ground (arith, outcome) in
        rw next (go_on s after (suc k) buf got chunk (r.ending-read s (suc k)) more)
  ]

  -- However the bytes come in, `read_exact_with_timeout` gives the next ones, as many as asked for,
  -- and leaves those behind; or when fewer come it fails in the way that the reader ends.
  pub read_exact-Reads : (s : r.Source) (n : ℕ) → Reads s n [] (read_exact_with_timeout r s n)
  unfolding read_exact_with_timeout
  read_exact-Reads s n = read_loop-Reads n s n [] (omega arith)
