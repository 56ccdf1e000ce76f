-- ===== src/Buffer.antt =====
-- src/buffer.rs: the registry of buffers that are shared with foreign code. The map is the standard
-- library's, held under a mutex, so each call is one step. A pointer is known by its buffer.
use mathlib.Core.Option
use myrmidon.Base.{
  ℕ, ◌+◌, ◌%◌, ◌^◌, ◌<◌, ◌≤◌, ◌≡◌, refl, Option, none, some, List, [], ◌==◌, ==_iff, if◌then◌else◌,
  find, length, ltb, replicate, length-replicate, arith, Bool, true, false,
}
use myrmidon.Base.Assoc.{put, without, find-put, find-without}
mod Tests

abbrev pub Bytes : Type 0
Bytes = List ℕ

pub record BufferRegistry : Type 0 where
  pub inner : List (ℕ × Bytes)
  pub next : ℕ

abbrev pub lookup : BufferRegistry → ℕ → Option Bytes
lookup r id = find ◌==◌ id r.inner

unfoldable pub new : BufferRegistry
new = record { inner = []; next = 1 }

-- A vector of so many zero bytes goes in. `fetch_add` gives the old value, and wraps.
unfoldable pub inserted : BufferRegistry → ℕ → BufferRegistry × ℕ
inserted r size =
    let id = r.next in
    (
      record {
        inner = put ◌==◌ ==_iff r.inner id (replicate size 0);
        next = (r.next + 1) % 2 ^ 64;
      },
      id,
    )

-- A vector has at most `isize::MAX` bytes: `none` is the panic for a larger one, under the lock, after
-- which the lock is poisoned and every call on the registry panics. That memory runs out ends the
-- process, and is no outcome here.
unfoldable pub allocate : BufferRegistry → ℕ → Option (BufferRegistry × ℕ)
allocate r size = if ltb size (2 ^ 63) then some (inserted r size) else none

unfoldable pub ptr_len : BufferRegistry → ℕ → Option (ℕ × ℕ)
ptr_len r id = Option.map (λ v. (id, length v)) (lookup r id)

unfoldable pub take : BufferRegistry → ℕ → BufferRegistry × Option Bytes
take r id = (record r { inner = without ◌==◌ ==_iff r.inner id }, lookup r id)

unfoldable pub free : BufferRegistry → ℕ → BufferRegistry
free r id = record r { inner = without ◌==◌ ==_iff r.inner id }

-- Identifiers from `next` on name no buffer yet.
pub record IsFresh (r : BufferRegistry) : Type 0 where
  pub unused : (id : ℕ) → r.next ≤ id → lookup r id ≡ none
  pub positive : 0 < r.next

pub new-IsFresh : IsFresh new
unfolding new
new-IsFresh = record { unused = λ id h. refl; positive = omega arith }

-- On a registry whose coming identifiers name nothing, and before they run out, an allocation gives
-- one, never 0, that names no buffer; behind it, the identifier names a buffer of `size` zero
-- bytes, every other names what it did, and coming identifiers still name nothing.
pub allocate_lem :
    (r : BufferRegistry) (size : ℕ)
    → IsFresh r
    → r.next + 1 < 2 ^ 64
    → let (after, id) = inserted r size in
      IsFresh after
      × (lookup r id ≡ none)
      × (0 < id)
      × (ptr_len after id ≡ some (id, size))
      × ((j : ℕ) → lookup after j ≡ (if id == j then some (replicate size 0) else lookup r j))
unfolding inserted ptr_len
allocate_lem r size v room = (
  record {
    unused =
        λ j h. ground (arith, find-put ◌==◌ ==_iff r.inner r.next (replicate size 0) j, v.unused j);
    positive = omega arith;
  },
  v.unused r.next (omega arith),
  v.positive,
  ground (
    arith,
    find-put ◌==◌ ==_iff r.inner r.next (replicate size 0) r.next,
    length-replicate {A = ℕ} size 0,
  ),
  find-put ◌==◌ ==_iff r.inner r.next (replicate size 0),
)

-- On a registry whose coming identifiers name nothing, `take` gives the buffer and ends its
-- registration; `free` ends it likewise. No other buffer is touched, a second `take` gives nothing,
-- and coming identifiers still name nothing.
pub take-free :
    (r : BufferRegistry) (id : ℕ)
    → IsFresh r
    → ((take r id).1 ≡ lookup r id)
      × ((take r id).0 ≡ free r id)
      × ((j : ℕ) → lookup (free r id) j ≡ (if id == j then none else lookup r j))
      × ((take (free r id) id).1 ≡ none)
      × IsFresh (free r id)
unfolding take free
take-free r id v = (
  refl,
  refl,
  find-without ◌==◌ ==_iff r.inner id,
  ground (arith, find-without ◌==◌ ==_iff r.inner id id),
  record {
    unused = λ j h. ground (arith, find-without ◌==◌ ==_iff r.inner id j, v.unused j);
    positive = v.positive;
  },
)
