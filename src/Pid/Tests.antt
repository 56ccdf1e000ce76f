-- ===== src/Pid/Tests.antt =====
-- Runs of the slab allocator of src/pid.rs, and its theorems at concrete allocators.
use myrmidon.Base.{
  count, ℕ, zero, suc, ◌/◌, ◌%◌, ◌^◌, ◌<◌, ◌≡◌, refl, true, false, some, [], ◌∷◌, arith,
}
use myrmidon.Pid.{Pid, SlabAllocator, make_pid, split_pid, new, allocate, deallocate, is_valid}
use mathlib.Core.Option
use myrmidon.Pid.Invariant.{IsWf, vacancy, generation_at}
use myrmidon.Pid.Validity.{deallocate-allocate_stale}

program : Unit {0}
unfolding make_pid split_pid new allocate deallocate is_valid
program = tt

-- Slot 0 is taken, slot 1 was given back once.
abbrev half_full : SlabAllocator
half_full = record {
  entries =
      record { generation = 1; occupied = true } ∷ record { generation = 2; occupied = false } ∷ [];
  free_list = 1 ∷ [];
}

first_pid : Option.map (λ r. r.0) (allocate new) ≡ some 0x1_0000_0000
unfolding program
first_pid = refl

reuses_slot : Option.map (λ r. r.0) (allocate half_full) ≡ some 0x2_0000_0001
unfolding program
reuses_slot = refl

stale_refused : (deallocate half_full 0x1_0000_0001).1 ≡ false
unfolding program
stale_refused = refl

half_full-IsWf : IsWf half_full
half_full-IsWf = record { counted = λ i. counted i; small = λ i. small i; fits = omega arith }
  where
    counted : (i : ℕ) → count i half_full.free_list ≡ vacancy half_full.entries i
    counted zero = refl
    counted (suc zero) = refl
    counted (suc (suc i)) = ground arith

    small : (i : ℕ) → generation_at half_full.entries i < 2 ^ 32
    small zero = omega arith
    small (suc zero) = omega arith
    small (suc (suc i)) = omega arith

deallocate-allocate_stale_example :
    (new_pid : Pid) × (t : SlabAllocator) × (allocate (deallocate half_full 0x1_0000_0000).0
      ≡ some (new_pid, t))
    × (new_pid % 2 ^ 32 ≡ 0)
    × (new_pid / 2 ^ 32 ≡ 2)
    × (is_valid t new_pid ≡ true)
    × (is_valid t 0x1_0000_0000 ≡ false)
unfolding program
deallocate-allocate_stale_example =
    deallocate-allocate_stale half_full 0x1_0000_0000 half_full-IsWf (omega arith) refl
