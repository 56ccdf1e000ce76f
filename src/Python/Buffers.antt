-- ===== src/Python/Buffers.antt =====
-- The shared buffers of src/py.rs: `allocate_buffer`, the destructor of a capsule, and `send_buffer`,
-- on the registry of src/buffer.rs. Whether the interpreter makes a memory view and a capsule is an
-- argument.
use mathlib.Core.Option
use myrmidon.Base.{
  ℕ, ◌+◌, ◌^◌, ◌<◌, ◌≤◌, ltb, Bool-cases, Option, ◌≡◌, refl, sym, ap, ◌∙◌, inl, inr, Bool, true,
  false, none, some, List, ◌==◌, ◌&&◌, subst, if◌then◌else◌, Result, ok, err, same_text, replicate,
  arith, Option-cases,
}
use myrmidon.Deps.DashMap.{DashMap}
use myrmidon.Deps.Mpsc.{Mpsc}
use myrmidon.Buffer
use myrmidon.Buffer.{BufferRegistry, IsFresh, lookup, ptr_len, take, free, allocate_lem, take-free}
use myrmidon.Mailbox.Messages.{Text, user}
use myrmidon.Supervisor.{Pid}
use myrmidon.Runtime
use myrmidon.Runtime.{Runtime}

pub data BufferError : Type 0 where
  failed_to_allocate failed_view failed_capsule invalid_id : BufferError

-- The tuple that Python gets: the identifier, a view of so many bytes at a pointer, and the capsule
-- that owns the identifier.
pub record PyBuffer : Type 0 where
  pub id : ℕ
  pub ptr : ℕ
  pub size : ℕ
  pub capsule : ℕ

-- The end of a capsule.
pub capsule_destructor : BufferRegistry → ℕ → BufferRegistry
capsule_destructor r id = free r id

-- The parts that the interpreter has a say in.
pub made : BufferRegistry → ℕ → ℕ × ℕ → Bool → Bool → BufferRegistry × Result PyBuffer BufferError
made r id pl false capsule_made = (free r id, err failed_view)
made r id pl true false = (free r id, err failed_capsule)
made r id (ptr, len) true true = (r, ok (record { id = id; ptr = ptr; size = len; capsule = id }))

-- The call once the buffer is in the registry.
pub shared : BufferRegistry × ℕ → Bool → Bool → BufferRegistry × Result PyBuffer BufferError
shared (allocated, id) view_made capsule_made = elim (ptr_len allocated id) [
  | none ↦ (allocated, err failed_to_allocate)
  | some pl ↦ made allocated id pl view_made capsule_made
]

-- `none` is the panic of the registry.
pub allocate_buffer :
    BufferRegistry → ℕ → Bool → Bool → Option (BufferRegistry × Result PyBuffer BufferError)
allocate_buffer r size view_made capsule_made =
    Option.map (λ a. shared a view_made capsule_made) (Buffer.allocate r size)

-- `is_ok()`
abbrev pub is_ok : {A E : Type 0} → Result A E → Bool
is_ok (ok a) = true
is_ok (err e) = false

module _ {c : Mpsc} {d : DashMap ℕ ◌==◌} {n : DashMap Text same_text} {Factory : Type 0} where
  pub send_buffer :
      BufferRegistry
      → Runtime c d n Factory
      → Pid
      → ℕ
      → BufferRegistry × Runtime c d n Factory × Result Bool BufferError
  send_buffer r rt pid buffer_id =
      let (left, taken) = take r buffer_id in
      elim taken [
        | none ↦ (left, rt, err invalid_id)
        | some vec ↦
            let (after, sent) = Runtime.send rt pid (user vec) in (left, after, ok (is_ok sent))
      ]

made_at :
    (r : BufferRegistry) (size : ℕ) (view_made capsule_made : Bool)
    → IsFresh r
    → r.next + 1 < 2 ^ 64
    → shared (Buffer.inserted r size) view_made capsule_made
      ≡ made (Buffer.inserted r size).0 r.next (r.next, size) view_made capsule_made
unfolding shared Buffer.inserted
made_at r size view_made capsule_made v room =
    let (fresh, unused, positive, there, others) = allocate_lem r size v room in
    ground (arith, there)

-- What a buffer that is given up again leaves of the others.
freed_again :
    (r : BufferRegistry) (size j : ℕ)
    → IsFresh r
    → r.next + 1 < 2 ^ 64
    → lookup (free (Buffer.inserted r size).0 r.next) j ≡ lookup r j
unfolding Buffer.inserted
freed_again r size j v room =
    let (fresh, unused, positive, there, others) = allocate_lem r size v room in
    let (same, again, left, gone, fresh') = take-free (Buffer.inserted r size).0 r.next fresh in
    ground (arith, left j, others j, unused)

-- The result, by what the interpreter makes.
abbrev pub buffer_result : ℕ → ℕ → Bool → Bool → Result PyBuffer BufferError
buffer_result id size false capsule_made = err failed_view
buffer_result id size true false = err failed_capsule
buffer_result id size true true = ok (record { id = id; ptr = id; size = size; capsule = id })

-- What the call leaves and gives: one buffer more when there is a result, and the others as they were.
pub record Allocates (r : BufferRegistry) (size : ℕ) (expected : Result PyBuffer BufferError)
    (call : BufferRegistry × Result PyBuffer BufferError) : Type 0 where
  pub fresh : IsFresh call.0
  pub unused : lookup r r.next ≡ none
  pub result : call.1 ≡ expected
  pub others :
      (j : ℕ)
      → lookup call.0 j
        ≡ (if is_ok expected && (r.next == j) then some (replicate size 0) else lookup r j)

shared-Allocates :
    (r : BufferRegistry) (size : ℕ) (view_made capsule_made : Bool)
    → IsFresh r
    → r.next + 1 < 2 ^ 64
    → Allocates r size
        (buffer_result r.next size view_made capsule_made)
        (shared (Buffer.inserted r size) view_made capsule_made)
unfolding made Buffer.inserted
shared-Allocates r size view_made capsule_made v room =
    subst (Allocates r size (buffer_result r.next size view_made capsule_made))
      (sym (made_at r size view_made capsule_made v room)) (go view_made capsule_made)
  where
    allocated : BufferRegistry
    allocated = (Buffer.inserted r size).0

    given_up : IsFresh (free allocated r.next)
    given_up = (take-free allocated r.next (allocate_lem r size v room).0).4

    go :
        (view_made capsule_made : Bool)
        → Allocates r size
            (buffer_result r.next size view_made capsule_made)
            (made allocated r.next (r.next, size) view_made capsule_made)
    go false capsule_made = record {
      fresh = given_up;
      unused = v.unused r.next (omega arith);
      result = refl;
      others = λ j. freed_again r size j v room;
    }
    go true false = record {
      fresh = given_up;
      unused = v.unused r.next (omega arith);
      result = refl;
      others = λ j. freed_again r size j v room;
    }
    go true true = record {
      fresh = (allocate_lem r size v room).0;
      unused = v.unused r.next (omega arith);
      result = refl;
      others = λ j. (allocate_lem r size v room).4 j;
    }

-- What a call of `allocate_buffer` comes to.
pub data AllocatesUpTo (limit : ℕ) (r : BufferRegistry) (size : ℕ)
    (expected : Result PyBuffer BufferError)
    : Option (BufferRegistry × Result PyBuffer BufferError) → Type 0 where
  panics : limit ≤ size → AllocatesUpTo limit r size expected none
  allocates :
      (call : BufferRegistry × Result PyBuffer BufferError)
      → size < limit
      → Allocates r size expected call
      → AllocatesUpTo limit r size expected (some call)

-- On a registry whose coming identifiers name nothing, and before they run out, `allocate_buffer` panics
-- exactly for a size of 2 ^ 63 or more, and for a smaller one never fails to allocate: with a view
-- and a capsule it gives a buffer of the size asked for, under an identifier that no buffer had, and
-- all others are as they were; without, it gives the error and leaves every buffer as it was; and
-- coming identifiers still name nothing.
pub allocate_buffer-Allocates :
    (r : BufferRegistry) (size : ℕ) (view_made capsule_made : Bool)
    → IsFresh r
    → r.next + 1 < 2 ^ 64
    → AllocatesUpTo
        (2 ^ 63)
        r
        size
        (buffer_result r.next size view_made capsule_made)
        (allocate_buffer r size view_made capsule_made)
unfolding allocate_buffer Buffer.allocate
allocate_buffer-Allocates r size view_made capsule_made v room =
    elim (Bool-cases (ltb size (2 ^ 63))) [
      | inl fits ↦
          rw (fits, allocate_buffer)
            (allocates _ (ground (arith, fits))
              (shared-Allocates r size view_made capsule_made v room))
      | inr large ↦ rw (large, allocate_buffer) (panics (ground (arith, large)))
    ]

-- An identifier that names nothing is given up to no effect.
nothing_freed :
    (r : BufferRegistry) (id j : ℕ)
    → IsFresh r
    → lookup r id ≡ none
    → lookup (capsule_destructor r id) j ≡ lookup r j
unfolding capsule_destructor
nothing_freed r id j v e =
    let (same, again, left, gone, fresh) = take-free r id v in ground (arith, left j, e)

module _ {c : Mpsc} {d : DashMap ℕ ◌==◌} {n : DashMap Text same_text} {Factory : Type 0} where
  -- What sending a buffer comes to.
  pub data SendsBuffer (r : BufferRegistry) (rt : Runtime c d n Factory) (pid : Pid) (id : ℕ)
      (call : BufferRegistry × Runtime c d n Factory × Result Bool BufferError) : Type 0 where
    no_buffer :
        lookup r id ≡ none
        → ((j : ℕ) → lookup call.0 j ≡ lookup r j)
        → call.1 ≡ rt
        → call.2 ≡ err invalid_id
        → SendsBuffer r rt pid id call
    moved :
        (vec : List ℕ)
        → lookup r id ≡ some vec
        → call.1 ≡ (Runtime.send rt pid (user vec)).0
        → call.2 ≡ ok (is_ok (Runtime.send rt pid (user vec)).1)
        → ((j : ℕ) → lookup call.0 j ≡ (if id == j then none else lookup r j))
        → ((j : ℕ) → lookup (capsule_destructor call.0 id) j ≡ lookup call.0 j)
        → (send_buffer call.0 call.1 pid id).2 ≡ err invalid_id
        → SendsBuffer r rt pid id call

  send_nothing :
      (r : BufferRegistry) (rt : Runtime c d n Factory) (pid : Pid) (id : ℕ)
      → (take r id).1 ≡ none
      → send_buffer r rt pid id ≡ ((take r id).0, rt, err invalid_id)
  unfolding send_buffer
  send_nothing r rt pid id e = ground (arith, e)

  send_taken :
      (r : BufferRegistry) (rt : Runtime c d n Factory) (pid : Pid) (id : ℕ) (vec : List ℕ)
      → (take r id).1 ≡ some vec
      → send_buffer r rt pid id ≡ (
        (take r id).0,
        (Runtime.send rt pid (user vec)).0,
        ok (is_ok (Runtime.send rt pid (user vec)).1),
      )
  unfolding send_buffer
  send_taken r rt pid id vec e = ground (arith, e)

  -- `send_buffer` of an identifier that names no buffer is an error that changes nothing. Otherwise the
  -- bytes of the buffer go to the actor as one user message, and whether that was sent is the result;
  -- either way the buffer is gone and no other is touched, a second call is an error, and the end of
  -- its capsule later touches nothing.
  pub send_buffer-SendsBuffer :
      (r : BufferRegistry) (rt : Runtime c d n Factory) (pid : Pid) (id : ℕ)
      → IsFresh r
      → SendsBuffer r rt pid id (send_buffer r rt pid id)
  send_buffer-SendsBuffer r rt pid id v =
      let (same, again, left, gone, fresh) = take-free r id v in
      let lost : lookup (free r id) id ≡ none = ground (arith, left id) in
      elim (Option-cases (lookup r id)) [
        | inl e ↦
            subst (SendsBuffer r rt pid id) (sym (send_nothing r rt pid id (same ∙ e)))
              (no_buffer e (λ j. ap (λ x. lookup x j) again ∙ ground (arith, left j, e)) refl refl)
        | inr (vec, e) ↦
            subst (SendsBuffer r rt pid id) (sym (send_taken r rt pid id vec (same ∙ e))) (
              moved vec e refl refl (λ j. ap (λ x. lookup x j) again ∙ left j)
                (λ j.
                  subst (λ x. lookup (capsule_destructor x id) j ≡ lookup x j) (sym again)
                    (nothing_freed (free r id) id j fresh lost))
                (subst
                  (λ x.
                    (send_buffer x (Runtime.send rt pid (user vec)).0 pid id).2 ≡ err invalid_id)
                  (sym again)
                  (ap (λ x. x.2)
                    (send_nothing (free r id) (Runtime.send rt pid (user vec)).0 pid id gone))))
      ]
