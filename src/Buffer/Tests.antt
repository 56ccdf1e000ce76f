-- ===== src/Buffer/Tests.antt =====
-- Runs of src/buffer.rs, and its theorems at concrete registries.
use myrmidon.Base.{◌≡◌, refl, some, [], ◌∷◌, arith}
use myrmidon.Buffer.{BufferRegistry, new, allocate, inserted, ptr_len, take, free, IsFresh}

program : Unit {0}
unfolding new inserted allocate ptr_len take free
program = tt

first : allocate new 2 ≡ some (record { inner = (1, 0 ∷ 0 ∷ []) ∷ []; next = 2 }, 1)
unfolding program
first = refl

abbrev one_buffer : BufferRegistry
one_buffer = record { inner = (1, 7 ∷ []) ∷ []; next = 2 }

one_buffer-IsFresh : IsFresh one_buffer
one_buffer-IsFresh = record { unused = λ id h. ground arith; positive = omega arith }
