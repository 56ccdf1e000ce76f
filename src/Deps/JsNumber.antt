-- ===== src/Deps/JsNumber.antt =====
-- The numbers of JavaScript, as a parameter: what napi makes of an `i64` that it hands over, read back
-- as an `i64`. A number of JavaScript is a 64-bit float.
use myrmidon.Base.{ℕ, ◌*◌, ◌/◌, ◌^◌, ◌≤◌, ◌<◌, ◌≡◌, leb, ltb, if◌then◌else◌, arith}

-- `pos n` is `n`, `negsuc n` is `-1 - n`.
pub data ℤ : Type 0 where
  pos negsuc : ℕ → ℤ

-- The numbers up to 2 ^ 53 either way.
abbrev pub IsSafe : ℤ → Type 0
IsSafe (pos n) = n ≤ 2 ^ 53
IsSafe (negsuc n) = n < 2 ^ 53

pub record JsNumber : Type 0 where
  pub number : ℤ → ℤ
  pub number-IsSafe : (j : ℤ) → IsSafe j → number j ≡ j

-- A value that meets the law: what lies beyond loses its last bits.
abbrev rounded : ℤ → ℤ
rounded (pos n) = if leb n (2 ^ 53) then pos n else pos (n / 2 ^ 11 * 2 ^ 11)
rounded (negsuc n) = if ltb n (2 ^ 53) then negsuc n else negsuc (n / 2 ^ 11 * 2 ^ 11)

pub rounded_safe : (j : ℤ) → IsSafe j → rounded j ≡ j
rounded_safe (pos n) h = ground arith
rounded_safe (negsuc n) h = ground arith

abbrev pub rounding : JsNumber
rounding = record { number = rounded; number-IsSafe = rounded_safe }
