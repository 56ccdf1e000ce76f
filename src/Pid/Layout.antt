-- ===== src/Pid/Layout.antt =====
-- The layout of an identifier: `make_pid` and `split_pid` as arithmetic, and as inverses.
use myrmidon.Base.{ap₂, ℕ, ◌+◌, ◌*◌, ◌/◌, ◌%◌, ◌^◌, ◌<◌, ◌≡◌, refl, arith}
use myrmidon.Base.Bits.{bit_or_shifted, bit_and_low}
use myrmidon.Pid.{make_pid, split_pid}

pub make_pid_sum :
    (index generation : ℕ)
    → index < 2 ^ 32
    → generation < 2 ^ 32
    → make_pid index generation ≡ generation * 2 ^ 32 + index
unfolding make_pid
make_pid_sum index generation hi hg =
    let fits : generation * 2 ^ 32 % 2 ^ 64 ≡ generation * 2 ^ 32 = omega arith in
    rw fits (bit_or_shifted 32 generation index hi)

pub split_pid_index : (pid : ℕ) → (split_pid pid).0 ≡ pid % 2 ^ 32
unfolding split_pid
split_pid_index pid = bit_and_low 32 pid

pub split_pid_generation : (pid : ℕ) → (split_pid pid).1 ≡ pid / 2 ^ 32 % 2 ^ 32
unfolding split_pid
split_pid_generation pid = refl

-- An index and a generation of 32 bits each can be read back from the identifier made of them,
-- which is below 2 ^ 64.
pub make_pid-split_pid :
    (index generation : ℕ)
    → index < 2 ^ 32
    → generation < 2 ^ 32
    → (split_pid (make_pid index generation) ≡ (index, generation))
      × (make_pid index generation < 2 ^ 64)
make_pid-split_pid index generation hi hg =
    let e = make_pid_sum index generation hi hg in
    (
      ap₂ (λ i g. (i, g)) (omega (arith, e, split_pid_index (make_pid index generation)))
          (omega (arith, e, split_pid_generation (make_pid index generation))),
      omega (arith, e),
    )
