-- ===== src/Python/Waiting.antt =====
-- `PyMailbox.recv` and `PyMailbox.selective_recv` of src/py.rs: waits in slices of 100 ms, with a look
-- for signals before each. Times are in milliseconds since the call began.
pub mod Receiving
use myrmidon.Base.{
  ℕ, zero, suc, ◌+◌, ◌-◌, ◌*◌, ◌/◌, ◌≤◌, ◌<◌, ◌≡◌, refl, sym, ap, subst, ◌∙◌, ◌⊎◌, inl, inr, Bool,
  true, false, Option, none, some, List, [], ◌∷◌, leb, if◌then◌else◌, Result, ok, err, length, keep,
  arith, Bool-cases,
}
use Prim.Native.Nat.{min}
use myrmidon.Deps.Mpsc.{Mpsc, Poll, pending, ready}
use myrmidon.Mailbox
use myrmidon.Mailbox.{Mailbox}
use myrmidon.Mailbox.Messages.{Message}
use myrmidon.Mailbox.Selecting.{queued, selective_recv-Selects}
use myrmidon.Mailbox.Selective.{Selects, Takes, arrival}
use myrmidon.Python.Messages.{
  PyObject, py_none, Called, is_match, message_to_py, run_python_matcher, run_python_matcher_lem,
}

-- What one slice meets: whether a signal is raised, the time, what others do to the mailbox up to the
-- last poll of the wait, and the time when the wait has timed out.
pub record Slice (c : Mpsc) : Type 0 where
  pub is_signalled : Bool
  pub elapsed : ℕ
  pub meanwhile : Mailbox c → Mailbox c
  pub elapsed_after : ℕ

abbrev pub actual_wait : Option ℕ → ℕ → ℕ
actual_wait none elapsed = 100
actual_wait (some t) elapsed = min 100 (t - elapsed)

abbrev pub is_over : Option ℕ → ℕ → Bool
is_over none elapsed = false
is_over (some t) elapsed = leb t elapsed

-- The value that Python gets for what was received.
abbrev pub received_object : Option Message → PyObject
received_object none = py_none
received_object (some msg) = message_to_py msg

module _ {c : Mpsc} (poll : Mailbox c → Poll (Option Message) × Mailbox c)
    (timeout : Option ℕ) where
  -- One round of the loop: what the call returns, the exception of a signal included, or `none` when
  -- it goes on.
  pub slice : Slice c → Mailbox c → Option (Result PyObject (Unit {0})) × Mailbox c
  slice s m =
      if s.is_signalled
      then (some (err tt), m)
      else if is_over timeout s.elapsed
      then (some (ok py_none), m)
      else let (polled, after) = poll (s.meanwhile m) in
        elim polled [
          | ready received ↦ (some (ok (received_object received)), after)
          | pending ↦ (if is_over timeout s.elapsed_after then some (ok py_none) else none, after)
        ]

  pub slices : List (Slice c) → Mailbox c → Option (Result PyObject (Unit {0})) × Mailbox c
  slices [] m = (none, m)
  slices (s ∷ rest) m =
      let (result, after) = slice s m in
      elim result [ none ↦ slices rest after | some r ↦ (some r, after) ]

module _ (c : Mpsc) where
  unfoldable pub py_recv :
      Option ℕ → List (Slice c) → Mailbox c → Option (Result PyObject (Unit {0})) × Mailbox c
  unfolding slices slice
  py_recv timeout = slices (Mailbox.recv c) timeout

  -- One poll of the wait with a matcher. The fuel is enough, so `none` does not come up.
  pub selective_poll : (PyObject → Called) → Mailbox c → Poll (Option Message) × Mailbox c
  selective_poll matcher m =
      let (result, after) =
        Mailbox.selective_recv c (run_python_matcher matcher) (queued c m + 1) m in
      elim result [ none ↦ (pending, after) | some p ↦ (p, after) ]

  unfoldable pub py_selective_recv :
      (PyObject → Called)
      → Option ℕ
      → List (Slice c)
      → Mailbox c
      → Option (Result PyObject (Unit {0})) × Mailbox c
  unfolding slices slice selective_poll
  py_selective_recv matcher timeout = slices (selective_poll matcher) timeout

Poll-cases : {A : Type 0} (p : Poll A) → (p ≡ pending) ⊎ ((a : A) × (p ≡ ready a))
Poll-cases pending = inl refl
Poll-cases (ready a) = inr (a, refl)

module _ {c : Mpsc} (poll : Mailbox c → Poll (Option Message) × Mailbox c)
    (timeout : Option ℕ) where
  -- What a slice comes to.
  pub data Slices (s : Slice c) (m : Mailbox c)
      (r : Option (Result PyObject (Unit {0})) × Mailbox c) : Type 0 where
    signalled : s.is_signalled ≡ true → r ≡ (some (err tt), m) → Slices s m r
    too_late : is_over timeout s.elapsed ≡ true → r ≡ (some (ok py_none), m) → Slices s m r
    received :
        (answer : Option Message) (after : Mailbox c)
        → poll (s.meanwhile m) ≡ (ready answer, after)
        → r ≡ (some (ok (received_object answer)), after)
        → Slices s m r
    timed_out :
        (after : Mailbox c)
        → poll (s.meanwhile m) ≡ (pending, after)
        → is_over timeout s.elapsed_after ≡ true
        → r ≡ (some (ok py_none), after)
        → Slices s m r
    goes_on :
        (after : Mailbox c)
        → poll (s.meanwhile m) ≡ (pending, after)
        → is_over timeout s.elapsed ≡ false
        → is_over timeout s.elapsed_after ≡ false
        → r ≡ (none, after)
        → Slices s m r

  pub slice-Slices : (s : Slice c) (m : Mailbox c) → Slices s m (slice poll timeout s m)
  unfolding slice
  slice-Slices s m = elim (Bool-cases s.is_signalled) [
    | inl signal ↦ signalled signal (ground (arith, signal))
    | inr quiet ↦ elim (Bool-cases (is_over timeout s.elapsed)) [
      | inl late ↦ too_late late (ground (arith, quiet, late))
      | inr early ↦ elim (Poll-cases (poll (s.meanwhile m)).0) [
        | inr (answer, e) ↦
            let eq : poll (s.meanwhile m) ≡ (ready answer, (poll (s.meanwhile m)).1) =
              ground (arith, e) in
            received answer _ eq (rw (quiet, early, e, slice) refl)
        | inl e ↦
            let eq : poll (s.meanwhile m) ≡ (pending, (poll (s.meanwhile m)).1) =
              ground (arith, e) in
            elim (Bool-cases (is_over timeout s.elapsed_after)) [
              | inl late ↦ timed_out _ eq late (rw (quiet, early, e, late, slice) refl)
              | inr time_left ↦
                  goes_on _ eq early time_left (rw (quiet, early, e, time_left, slice) refl)
            ]
      ]
    ]
  ]

  pub slices_step :
      (s : Slice c) (rest : List (Slice c)) (m : Mailbox c)
      (r : Option (Result PyObject (Unit {0})) × Mailbox c)
      → slice poll timeout s m ≡ r
      → slices poll timeout (s ∷ rest) m
        ≡ elim r.0 [ none ↦ slices poll timeout rest r.1 | some result ↦ (some result, r.1) ]
  unfolding slices
  slices_step s rest m r e =
      ap (λ x. elim x.0 [ none ↦ slices poll timeout rest x.1 | some result ↦ (some result, x.1) ])
        e
