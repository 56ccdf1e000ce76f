-- ===== src/Python/Waiting/Receiving.antt =====
-- What `PyMailbox.recv` and `PyMailbox.selective_recv` of src/py.rs come to.
use myrmidon.Base.{
  ℕ, ◌+◌, ◌*◌, ◌/◌, ◌≤◌, ◌<◌, ◌≡◌, ap, ◌∙◌, ◌⊎◌, true, false, Option, none, some, List, [], ◌∷◌,
  Result, ok, err, length, keep, arith,
}
use myrmidon.Deps.Mpsc.{Mpsc, Poll, ready}
use myrmidon.Mailbox
use myrmidon.Mailbox.{Mailbox}
use myrmidon.Mailbox.Messages.{Message}
use myrmidon.Mailbox.Selective.{Selects, Takes, arrival}
use myrmidon.Python.Messages.{
  PyObject, py_none, Called, is_match, message_to_py, run_python_matcher,
}
use myrmidon.Python.Waiting.{
  Slice, actual_wait, received_object, slices, py_recv, selective_poll, py_selective_recv,
  signalled, too_late, received, timed_out, goes_on, slice-Slices, slices_step,
}

-- The clock goes on, and a wait that times out has lasted as long as it was given.
abbrev pub Clocked : {c : Mpsc} → Option ℕ → ℕ → List (Slice c) → Type 0
Clocked timeout now [] = Unit {0}
Clocked timeout now (s ∷ rest) =
    (now ≤ s.elapsed)
    × (s.elapsed + actual_wait timeout s.elapsed ≤ s.elapsed_after)
    × Clocked timeout s.elapsed_after rest

-- The time that was given is up, or is not.
abbrev pub IsLate : Option ℕ → ℕ → Type 0
IsLate timeout elapsed = (t : ℕ) × (timeout ≡ some t) × (t ≤ elapsed)

abbrev pub IsInTime : Option ℕ → ℕ → Type 0
IsInTime timeout elapsed = (t : ℕ) → timeout ≡ some t → elapsed < t

-- There is no signal, and there is time for the wait.
abbrev pub Waits : {c : Mpsc} → Option ℕ → Slice c → Type 0
Waits timeout s = (s.is_signalled ≡ false) × IsInTime timeout s.elapsed

module _ {c : Mpsc} (poll : Mailbox c → Poll (Option Message) × Mailbox c) (t : ℕ) where
  slices_end :
      (now : ℕ) (rest : List (Slice c)) (m : Mailbox c)
      → Clocked (some t) now rest
      → now ≤ t
      → t < now + 100 * length rest
      → (r : Result PyObject (Unit {0})) × ((slices poll (some t) rest m).0 ≡ some r)
  unfolding slices
  slices_end now [] m clock le enough = absurd (omega (arith, le, enough))
  slices_end now (s ∷ rest) m (later, lasted, clock) le enough =
      let step = slices_step poll (some t) s rest m in
      elim (slice-Slices poll (some t) s m) [
        | signalled signal r ↦ (err tt, ap (λ x. x.0) (step _ r))
        | too_late late r ↦ (ok py_none, ap (λ x. x.0) (step _ r))
        | received answer after p r ↦ (ok (received_object answer), ap (λ x. x.0) (step _ r))
        | timed_out after p late r ↦ (ok py_none, ap (λ x. x.0) (step _ r))
        | goes_on after p early time_left r ↦
            let (result, e) =
              slices_end s.elapsed_after rest after clock (ground (arith, time_left))
                (ground (arith, early, time_left, later, lasted, enough)) in
            (result, ap (λ x. x.0) (step _ r) ∙ e)
      ]

module _ (c : Mpsc) where
  -- A call with a timeout of `t` ms returns after at most `t / 100 + 1` slices, whatever others do to the
  -- mailbox, for `recv` and for `selective_recv` with any matcher: given that many slices, in which the
  -- clock goes on and a wait that times out has lasted as long as it was given, each gives a result.
  pub py_recv_returns :
      (matcher : PyObject → Called) (t : ℕ) (waits : List (Slice c)) (m : Mailbox c)
      → Clocked (some t) 0 waits
      → t / 100 + 1 ≤ length waits
      → ((r : Result PyObject (Unit {0})) × ((py_recv c (some t) waits m).0 ≡ some r))
        × ((r : Result PyObject (Unit {0})) × ((py_selective_recv c matcher (some t) waits m).0
              ≡ some r))
  unfolding py_recv py_selective_recv
  py_recv_returns matcher t waits m clock enough = (
    slices_end (Mailbox.recv c) t 0 waits m clock (omega arith) (omega (arith, enough)),
    slices_end (selective_poll c matcher) t 0 waits m clock (omega arith) (omega (arith, enough)),
  )

  -- What a slice of `selective_recv` comes to.
  pub data Selected (matcher : PyObject → Called) (timeout : Option ℕ) (s : Slice c) (m : Mailbox c)
      (r : Option (Result PyObject (Unit {0})) × Mailbox c) : Type 0 where
    interrupted : s.is_signalled ≡ true → r ≡ (some (err tt), m) → Selected matcher timeout s m r
    expired :
        s.is_signalled ≡ false
        → IsLate timeout s.elapsed
        → r ≡ (some (ok py_none), m)
        → Selected matcher timeout s m r
    matched :
        Waits timeout s
        → (msg : Message) (after : Mailbox c)
        → Takes c (run_python_matcher matcher) (s.meanwhile m) msg after
        → is_match (matcher (message_to_py msg)) ≡ true
        → r ≡ (some (ok (message_to_py msg)), after)
        → Selected matcher timeout s m r
    channel_ended :
        Waits timeout s
        → (after : Mailbox c)
        → Selects c (run_python_matcher matcher) (s.meanwhile m) after (ready none)
        → r ≡ (some (ok py_none), after)
        → Selected matcher timeout s m r
    no_match :
        Waits timeout s
        → (after : Mailbox c) → arrival c after ≡ arrival c (s.meanwhile m)
        → keep (run_python_matcher matcher) (arrival c (s.meanwhile m)) ≡ []
        → (IsLate timeout s.elapsed_after × (r ≡ (some (ok py_none), after)))
          ⊎ (IsInTime timeout s.elapsed_after × (r ≡ (none, after)))
        → Selected matcher timeout s m r
