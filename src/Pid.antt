-- ===== src/Pid.antt =====
-- src/pid.rs: process identifiers and the slab allocator that hands them out. A `usize` has 64 bits.
use Prim.Native.Nat.{bit_and, bit_or}
use myrmidon.Base.{
  ℕ, ◌+◌, ◌*◌, ◌/◌, ◌%◌, ◌^◌, Bool, true, false, ◌&&◌, ◌||◌, not, Option, none, some, List, [], ◌∷◌,
  ◌++◌, ltb, ◌==◌, if◌then◌else◌, length, get_elem?, set,
}
pub mod Layout
pub mod Invariant
pub mod Validity
mod Tests

abbrev pub Pid : Type 0
Pid = ℕ

pub record Entry : Type 0 where
  pub generation : ℕ
  pub occupied : Bool

-- The head of `free_list` is the end of the vector, where `push` and `pop` work.
pub record SlabAllocator : Type 0 where
  pub entries : List Entry
  pub free_list : List ℕ

-- `(generation as u64) << 32 | index as u64`.
unfoldable pub make_pid : ℕ → ℕ → Pid
make_pid index generation = bit_or (generation * 2 ^ 32 % 2 ^ 64) index

unfoldable pub split_pid : Pid → ℕ × ℕ
split_pid pid = (bit_and pid 0xffff_ffff, pid / 2 ^ 32 % 2 ^ 32)

unfoldable pub new : SlabAllocator
new = record { entries = []; free_list = [] }

-- The branch of a slot from the free list; `none` is the panic of an index out of bounds.
reuse : List Entry → List ℕ → ℕ → Option (Pid × SlabAllocator)
reuse entries free_list idx = elim (get_elem? entries idx) [
  | none ↦ none
  | some entry ↦ some (
    make_pid idx entry.generation,
    record { entries = set entries idx (record entry { occupied = true }); free_list = free_list },
  )
]

-- The branch of a fresh slot.
extend : List Entry → Pid × SlabAllocator
extend entries = (
  make_pid (length entries) 1,
  record { entries = entries ++ record { generation = 1; occupied = true } ∷ []; free_list = [] },
)

unfoldable pub allocate : SlabAllocator → Option (Pid × SlabAllocator)
unfolding reuse extend
allocate s = elim s.free_list [
  | [] ↦ some (extend s.entries)
  | idx ∷ free_list ↦ reuse s.entries free_list idx
]

-- `wrapping_add(1)` on the generation makes identifiers of the old tenant stale.
vacated : Entry → Entry
vacated entry = record { generation = (entry.generation + 1) % 2 ^ 32; occupied = false }

release : SlabAllocator → ℕ → ℕ → Entry → SlabAllocator × Bool
release s idx gen entry =
    if not entry.occupied || not (entry.generation == gen) then (s, false) else (
      record { entries = set s.entries idx (vacated entry); free_list = idx ∷ s.free_list },
      true,
    )

unfoldable pub deallocate : SlabAllocator → Pid → SlabAllocator × Bool
unfolding release vacated
deallocate s pid =
    let (idx, gen) = split_pid pid in
    elim (get_elem? s.entries idx) [ none ↦ (s, false) | some entry ↦ release s idx gen entry ]

pub live_at : List Entry → ℕ → ℕ → Bool
live_at entries idx gen = elim (get_elem? entries idx) [
  | none ↦ false
  | some entry ↦ entry.occupied && (entry.generation == gen)
]

unfoldable pub is_valid : SlabAllocator → Pid → Bool
unfolding live_at
is_valid s pid =
    let (idx, gen) = split_pid pid in ltb idx (length s.entries) && live_at s.entries idx gen
