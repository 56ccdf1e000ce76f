-- ===== src/Base/BigEndian.antt =====
-- `to_be_bytes` and `from_be_bytes` of the integer types, for integers of `w` bytes.
use myrmidon.Base.{
  ℕ, zero, suc, ◌+◌, ◌*◌, ◌/◌, ◌%◌, ◌^◌, ◌<◌, ◌≡◌, refl, List, [], ◌∷◌, ◌++◌, length, length-append,
  arith,
}
use native.Mathlib.Omega.{pow_step}

unfoldable pub to_be_bytes : ℕ → ℕ → List ℕ
to_be_bytes zero v = []
to_be_bytes (suc w) v = to_be_bytes w (v / 256) ++ v % 256 ∷ []

unfoldable pub from_be : ℕ → List ℕ → ℕ
from_be acc [] = acc
from_be acc (b ∷ bs) = from_be (acc * 256 + b) bs

abbrev pub from_be_bytes : List ℕ → ℕ
from_be_bytes = from_be 0

pub length-to_be_bytes : (w v : ℕ) → length (to_be_bytes w v) ≡ w
unfolding to_be_bytes
length-to_be_bytes zero v = refl
length-to_be_bytes (suc w) v =
    omega (
      arith,
      length-append (to_be_bytes w (v / 256)) (v % 256 ∷ []),
      length-to_be_bytes w (v / 256),
    )

from_be-push :
    (acc : ℕ) (bs : List ℕ) (b : ℕ) → from_be acc (bs ++ b ∷ []) ≡ from_be acc bs * 256 + b
unfolding from_be
from_be-push acc [] b = refl
from_be-push acc (x ∷ bs) b = from_be-push (acc * 256 + x) bs b

-- A number that fits in so many bytes is read back from its big-endian bytes, which are so many.
pub from_be_bytes-to_be_bytes : (w v : ℕ) → v < 256 ^ w → from_be_bytes (to_be_bytes w v) ≡ v
unfolding from_be to_be_bytes
from_be_bytes-to_be_bytes zero v h = omega arith
from_be_bytes-to_be_bytes (suc w) v h = omega (
  arith,
  from_be-push 0 (to_be_bytes w (v / 256)) (v % 256),
  from_be_bytes-to_be_bytes w (v / 256) (omega (arith, h, pow_step 256 w)),
)
