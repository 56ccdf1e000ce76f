-- ===== src/Pid/Invariant.antt =====
-- The allocator's invariant: the free list names each vacant slot once and no other.
use myrmidon.Base.{
  count, ℕ, ◌^◌, ◌≤◌, ◌<◌, ◌≡◌, refl, ◌≢◌, ◌⊎◌, inl, inr, true, false, none, some, List, [], ◌∷◌,
  arith, ◌==◌, if◌then◌else◌, length, get_elem?, set, Option-cases, get_elem?-set, get_elem?-push,
  get_elem?_beyond, length-append, length-set, Bool-cases, not, ◌||◌, lt-length_of_get_elem?,
}
use myrmidon.Pid.{
  Entry, SlabAllocator, new, vacated, live_at, reuse, extend, make_pid, allocate, release,
  deallocate, split_pid,
}

-- 1 at a slot that exists and is not occupied.
abbrev pub vacancy : List Entry → ℕ → ℕ
vacancy entries i = elim (get_elem? entries i) [
  | none ↦ 0
  | some entry ↦ if entry.occupied then 0 else 1
]

abbrev pub generation_at : List Entry → ℕ → ℕ
generation_at entries i = elim (get_elem? entries i) [ none ↦ 0 | some entry ↦ entry.generation ]

pub record IsWf (s : SlabAllocator) : Type 0 where
  pub counted : (i : ℕ) → count i s.free_list ≡ vacancy s.entries i
  pub small : (i : ℕ) → generation_at s.entries i < 2 ^ 32
  pub fits : length s.entries ≤ 2 ^ 32

fresh : Entry
fresh = record { generation = 1; occupied = true }

pub new-IsWf : IsWf new
unfolding new
new-IsWf = record { counted = λ i. refl; small = λ i. omega arith; fits = omega arith }

reuse-IsWf :
    (es : List Entry) (i : ℕ) (free : List ℕ)
    → IsWf (record { entries = es; free_list = i ∷ free })
    → (e : Entry) × (get_elem? es i ≡ some e)
      × (e.occupied ≡ false)
      × IsWf (record { entries = set es i (record e { occupied = true }); free_list = free })
reuse-IsWf es i free v = elim (Option-cases (get_elem? es i)) [
  | inl missing ↦ absurd (ground (arith, v.counted i))
  | inr (e, found) ↦ (
    e,
    found,
    ground (arith, v.counted i),
    record {
      counted = λ j.
          ground
            (arith, v.counted i, v.counted j, get_elem?-set es i j (record e { occupied = true }));
      small = λ j.
          ground (arith, v.small i, v.small j, get_elem?-set es i j (record e { occupied = true }));
      fits = omega (arith, v.fits, length-set es i (record e { occupied = true }));
    },
  )
]

extend-IsWf :
    (es : List Entry)
    → IsWf (record { entries = es; free_list = [] })
    → length es < 2 ^ 32
    → IsWf (extend es).1
unfolding extend fresh
extend-IsWf es v room = record {
  counted = λ j. ground (arith, v.counted j, get_elem?-push es fresh j);
  small = λ j. ground (arith, v.small j, get_elem?-push es fresh j);
  fits = omega (arith, length-append es (fresh ∷ []));
}

-- What `allocate` gives: a slot that no identifier named, and the allocator in which the new
-- identifier is the one live name of that slot.
pub record Allocation (s : SlabAllocator) : Type 0 where
  pub idx : ℕ
  pub gen : ℕ
  pub after : SlabAllocator
  pub returned : allocate s ≡ some (make_pid idx gen, after)
  pub wf : IsWf after
  pub idx_fits : idx < 2 ^ 32
  pub gen_fits : gen < 2 ^ 32
  pub was_free : (g : ℕ) → live_at s.entries idx g ≡ false
  pub now_live :
      (j g : ℕ) → live_at after.entries j g ≡ (if idx == j then gen == g else live_at s.entries j g)

allocate_fresh :
    (es : List Entry)
    → IsWf (record { entries = es; free_list = [] })
    → length es < 2 ^ 32
    → Allocation (record { entries = es; free_list = [] })
unfolding allocate live_at fresh
allocate_fresh es v room = record {
  idx = length es;
  gen = 1;
  after = (extend es).1;
  returned = refl;
  wf = extend-IsWf es v room;
  idx_fits = room;
  gen_fits = omega arith;
  was_free = λ g. ground (arith, get_elem?_beyond es (length es));
  now_live = λ j g. ground (arith, get_elem?-push es fresh j);
}

allocate_reused :
    (es : List Entry) (i : ℕ) (free : List ℕ)
    → IsWf (record { entries = es; free_list = i ∷ free })
    → Allocation (record { entries = es; free_list = i ∷ free })
unfolding allocate live_at
allocate_reused es i free v =
    let (e, found, vacant, kept) = reuse-IsWf es i free v in
    record {
      idx = i;
      gen = e.generation;
      after = record { entries = set es i (record e { occupied = true }); free_list = free };
      returned = rw (found, reuse) refl;
      wf = kept;
      idx_fits = omega (arith, v.fits, lt-length_of_get_elem? es i e found);
      gen_fits = ground (arith, v.small i);
      was_free = λ g. ground arith;
      now_live = λ j g. ground (
        arith,
        lt-length_of_get_elem? es i e found,
        get_elem?-set es i j (record e { occupied = true }),
      );
    }

-- With a vacant slot or room below 2 ^ 32, `allocate` does not panic.
pub allocate_total :
    (s : SlabAllocator) → IsWf s → (s.free_list ≢ []) ⊎ (length s.entries < 2 ^ 32) → Allocation s
allocate_total s v room = go s.entries s.free_list v room
  where
    go :
        (es : List Entry) (free : List ℕ)
        → IsWf (record { entries = es; free_list = free })
        → (free ≢ []) ⊎ (length es < 2 ^ 32)
        → Allocation (record { entries = es; free_list = free })
    go es [] v (inl h) = absurd (h refl)
    go es [] v (inr h) = allocate_fresh es v h
    go es (i ∷ free) v h = allocate_reused es i free v

release-IsWf :
    (s : SlabAllocator) (i : ℕ) (e : Entry)
    → IsWf s
    → get_elem? s.entries i ≡ some e
    → e.occupied ≡ true
    → IsWf (record { entries = set s.entries i (vacated e); free_list = i ∷ s.free_list })
unfolding vacated
release-IsWf s i e v found used = record {
  counted = λ j. ground (
    arith,
    v.counted i,
    v.counted j,
    lt-length_of_get_elem? s.entries i e found,
    get_elem?-set s.entries i j (vacated e),
  );
  small = λ j. ground (
    arith,
    v.small j,
    lt-length_of_get_elem? s.entries i e found,
    get_elem?-set s.entries i j (vacated e),
  );
  fits = omega (arith, v.fits, length-set s.entries i (vacated e));
}

-- `deallocate` keeps the allocator well formed, whatever identifier it is given.
pub deallocate-IsWf : (s : SlabAllocator) (pid : ℕ) → IsWf s → IsWf (deallocate s pid).0
unfolding deallocate vacated
deallocate-IsWf s pid v = elim (Option-cases (get_elem? s.entries (split_pid pid).0)) [
  | inl missing ↦ rw (missing, deallocate) v
  | inr (e, found) ↦
      rw (found, deallocate)
        (elim (Bool-cases (not e.occupied || not (e.generation == (split_pid pid).1))) [
          | inl refused ↦ rw (refused, release) v
          | inr agreed ↦
              rw (agreed, release) (release-IsWf s (split_pid pid).0 e v found (ground arith))
        ])
]
