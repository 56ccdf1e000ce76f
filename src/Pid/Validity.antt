-- ===== src/Pid/Validity.antt =====
-- Which identifiers are live, across `allocate` and `deallocate`.
use myrmidon.Base.{
  ℕ, ◌+◌, ◌/◌, ◌%◌, ◌^◌, ◌<◌, ◌≡◌, ◌≢◌, ◌⊎◌, inl, inr, true, false, not, ◌&&◌, ◌||◌, some, List, [],
  arith, ◌==◌, length, get_elem?, set, Option-cases, get_elem?-set, get_elem?_beyond,
  lt-length_of_get_elem?,
}
use myrmidon.Pid.{
  Pid, Entry, SlabAllocator, live_at, make_pid, split_pid, allocate, vacated, deallocate, is_valid,
}
use myrmidon.Pid.Layout.{make_pid_sum, split_pid_index, split_pid_generation}
use myrmidon.Pid.Invariant.{IsWf, allocate_total, deallocate-IsWf}

-- The bounds test of `is_valid` is one with the reading of the slot.
is_valid_at :
    (s : SlabAllocator) (q : ℕ)
    → is_valid s q ≡ live_at s.entries (q % 2 ^ 32) (q / 2 ^ 32 % 2 ^ 32)
unfolding is_valid
is_valid_at s q =
    ground
      (arith, split_pid_index q, split_pid_generation q, get_elem?_beyond s.entries (q % 2 ^ 32))

-- On a well-formed allocator with a vacant slot or room below 2 ^ 32, `allocate` gives an
-- identifier below 2 ^ 64 that was not valid and leaves a well-formed allocator, in which exactly
-- that identifier has become valid; an identifier counts by its 64 low bits.
pub allocate-is_valid :
    (s : SlabAllocator)
    → IsWf s
    → (s.free_list ≢ []) ⊎ (length s.entries < 2 ^ 32)
    → (pid : Pid) × (t : SlabAllocator) × (allocate s ≡ some (pid, t))
      × IsWf t
      × (pid < 2 ^ 64)
      × (is_valid s pid ≡ false)
      × ((q : Pid) → is_valid t q ≡ (pid == q % 2 ^ 64 || is_valid s q))
allocate-is_valid s v room =
    let a = allocate_total s v room in
    let e = make_pid_sum a.idx a.gen a.idx_fits a.gen_fits in
    (
      make_pid a.idx a.gen,
      a.after,
      a.returned,
      a.wf,
      omega (arith, e, a.idx_fits, a.gen_fits),
      ground (
        arith,
        is_valid_at s (make_pid a.idx a.gen),
        e,
        a.idx_fits,
        a.gen_fits,
        a.was_free (make_pid a.idx a.gen / 2 ^ 32 % 2 ^ 32),
      ),
      λ q. ground (
        arith,
        is_valid_at a.after q,
        is_valid_at s q,
        e,
        a.idx_fits,
        a.gen_fits,
        a.was_free (q / 2 ^ 32 % 2 ^ 32),
        a.now_live (q % 2 ^ 32) (q / 2 ^ 32 % 2 ^ 32),
      ),
    )

one_generation :
    (es : List Entry) (j g h : ℕ) → live_at es j g ≡ true → live_at es j h ≡ true → g ≡ h
unfolding live_at
one_generation es j g h p q = ground arith

module _ (s : SlabAllocator) (pid : Pid) where
  deallocate_at :
      (j g : ℕ)
      → live_at (deallocate s pid).0.entries j g ≡ (
          live_at s.entries j g
          && not (((split_pid pid).0 == j) && live_at s.entries j (split_pid pid).1))
  unfolding deallocate live_at
  deallocate_at j g = elim (Option-cases (get_elem? s.entries (split_pid pid).0)) [
    | inl missing ↦ ground arith
    | inr (e, found) ↦ ground (
      arith,
      lt-length_of_get_elem? s.entries (split_pid pid).0 e found,
      get_elem?-set s.entries (split_pid pid).0 j (vacated e),
    )
  ]

  deallocate_answer : (deallocate s pid).1 ≡ live_at s.entries (split_pid pid).0 (split_pid pid).1
  unfolding deallocate live_at
  deallocate_answer = ground arith

-- For an identifier below 2 ^ 64 `deallocate` answers whether it was valid, and afterwards exactly
-- the others are: what was not valid changes nothing. An identifier asked about counts by its 64
-- low bits.
pub deallocate-is_valid :
    (s : SlabAllocator) (pid : Pid)
    → pid < 2 ^ 64
    → ((deallocate s pid).1 ≡ is_valid s pid)
      × ((q : Pid) → is_valid (deallocate s pid).0 q ≡ (is_valid s q && not (pid == q % 2 ^ 64)))
deallocate-is_valid s pid h = (
  ground (
    arith,
    deallocate_answer s pid,
    is_valid_at s pid,
    split_pid_index pid,
    split_pid_generation pid,
  ),
  λ q. ground (
    arith,
    is_valid_at (deallocate s pid).0 q,
    is_valid_at s q,
    is_valid_at s pid,
    deallocate_at s pid (q % 2 ^ 32) (q / 2 ^ 32 % 2 ^ 32),
    split_pid_index pid,
    split_pid_generation pid,
    one_generation s.entries (q % 2 ^ 32) (q / 2 ^ 32 % 2 ^ 32) (split_pid pid).1,
  ),
)

live_entry :
    (s : SlabAllocator) (pid : Pid)
    → is_valid s pid ≡ true
    → (e : Entry) × (get_elem? s.entries (split_pid pid).0 ≡ some e)
      × (e.occupied ≡ true)
      × (e.generation ≡ (split_pid pid).1)
unfolding is_valid live_at
live_entry s pid live = elim (Option-cases (get_elem? s.entries (split_pid pid).0)) [
  | inl missing ↦ absurd (ground arith)
  | inr (e, found) ↦ (e, found, ground arith, ground arith)
]

-- The freed slot is on top of the free list.
reused_next :
    (s : SlabAllocator) (pid : Pid)
    → is_valid s pid ≡ true
    → (t : SlabAllocator) × (allocate (deallocate s pid).0
        ≡ some (make_pid (split_pid pid).0 (((split_pid pid).1 + 1) % 2 ^ 32), t))
      × ((deallocate s pid).0.free_list ≢ [])
unfolding deallocate allocate
reused_next s pid live =
    let (e, found, used, gen) = live_entry s pid live in
    let i = (split_pid pid).0 in
    let bound = lt-length_of_get_elem? s.entries i e found in
    (
      record {
        entries = set (set s.entries i (vacated e)) i (record (vacated e) { occupied = true });
        free_list = s.free_list;
      },
      ground (arith, get_elem?-set s.entries i i (vacated e)),
      ground arith,
    )

-- On a well-formed allocator, after a valid identifier below 2 ^ 64 is given up, the next
-- `allocate` reuses its slot and gives an identifier with the next generation, modulo 2 ^ 32, which
-- is valid while the old one stays invalid.
pub deallocate-allocate_stale :
    (s : SlabAllocator) (pid : Pid)
    → IsWf s
    → pid < 2 ^ 64
    → is_valid s pid ≡ true
    → (new_pid : Pid) × (t : SlabAllocator) × (allocate (deallocate s pid).0 ≡ some (new_pid, t))
      × (new_pid % 2 ^ 32 ≡ pid % 2 ^ 32)
      × (new_pid / 2 ^ 32 ≡ (pid / 2 ^ 32 + 1) % 2 ^ 32)
      × (is_valid t new_pid ≡ true)
      × (is_valid t pid ≡ false)
deallocate-allocate_stale s pid v h live =
    let (u, again, nonempty) = reused_next s pid live in
    let (new_pid, t, eq, wf, fits, was, now) =
      allocate-is_valid (deallocate s pid).0 (deallocate-IsWf s pid v) (inl nonempty) in
    let same : new_pid ≡ make_pid (split_pid pid).0 (((split_pid pid).1 + 1) % 2 ^ 32) = cc in
    let sum =
      make_pid_sum (split_pid pid).0 (((split_pid pid).1 + 1) % 2 ^ 32)
        (omega (arith, split_pid_index pid)) (omega arith) in
    (
      new_pid,
      t,
      eq,
      omega (arith, same, sum, split_pid_index pid),
      omega (arith, same, sum, split_pid_index pid, split_pid_generation pid),
      ground (arith, now new_pid, fits),
      ground (
        arith,
        now pid,
        h,
        (deallocate-is_valid s pid h).1 pid,
        same,
        sum,
        split_pid_index pid,
        split_pid_generation pid,
      ),
    )
