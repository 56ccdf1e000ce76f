-- ===== src/Python/Observing.antt =====
-- `selective_recv_observed_py` of src/py.rs: looks at the messages of an observed actor, 10 ms apart.
use mathlib.Core.Option
use myrmidon.Base.{
  ℕ, ◌≡◌, refl, sym, subst, ◌⊎◌, inl, inr, Bool, true, false, Option, none, some, List, [], ◌∷◌,
  ◌++◌, ◌==◌, if◌then◌else◌, same_text, Bool-cases,
}
use myrmidon.Base.Search.{Hit, Miss}
use myrmidon.Deps.DashMap.{DashMap}
use myrmidon.Deps.Mpsc.{Mpsc}
use myrmidon.Mailbox.Messages.{Message}
use myrmidon.Supervisor.{Pid, Text}
use myrmidon.Runtime.{Runtime}
use myrmidon.Runtime.Observers.{
  get_observed_messages, take_observed_message_matching, nothing, first_match, take_observed-Takes,
}
use myrmidon.Python.Supervising.{PyFactory}
use myrmidon.Python.Messages.{PyObject, py_none, Called, message_to_py, run_python_matcher}

-- Why the future is polled: its sleep is over, with what others did to the runtime meanwhile, or the
-- timeout is and the sleep is not.
pub data Wake (S : Type 0) : Type 0 where
  looks : (S → S) → Wake S
  deadline : Wake S

module _ {c : Mpsc} {d : DashMap ℕ ◌==◌} {n : DashMap Text same_text} where
  -- One pass of the loop up to its sleep.
  pub look :
      (PyObject → Called)
      → Pid
      → Runtime c d n PyFactory
      → Runtime c d n PyFactory × Option PyObject
  look matcher pid rt =
      let (after, taken) = take_observed_message_matching rt pid (run_python_matcher matcher) in
      (after, Option.map message_to_py taken)

  pub wakes_up :
      (PyObject → Called)
      → Bool
      → Pid
      → List (Wake (Runtime c d n PyFactory))
      → Runtime c d n PyFactory
      → Runtime c d n PyFactory × Option PyObject
  wakes_up matcher has_timeout pid [] rt = (rt, none)
  wakes_up matcher has_timeout pid (looks others ∷ wakes) rt =
      let (after, found) = look matcher pid (others rt) in
      elim found [
        | none ↦ wakes_up matcher has_timeout pid wakes after
        | some object ↦ (after, some object)
      ]
  wakes_up matcher has_timeout pid (deadline ∷ wakes) rt =
      let rest = wakes_up matcher has_timeout pid wakes rt in
      if has_timeout then (rt, some py_none) else rest

  -- The first look is at once. `none` is a future that is not over after these wakes.
  unfoldable pub selective_recv_observed_py :
      (PyObject → Called)
      → Bool
      → Pid
      → List (Wake (Runtime c d n PyFactory))
      → Runtime c d n PyFactory
      → Runtime c d n PyFactory × Option PyObject
  unfolding wakes_up look
  selective_recv_observed_py matcher has_timeout pid wakes rt =
      wakes_up matcher has_timeout pid (looks (λ rt. rt) ∷ wakes) rt

module _ {c : Mpsc} {d : DashMap ℕ ◌==◌} {n : DashMap Text same_text} (matcher : PyObject → Called)
    (has_timeout : Bool) (pid : Pid) where
  -- Wakes from one runtime to another at which nothing matched and no timeout was over.
  pub data InVain
      : List (Wake (Runtime c d n PyFactory))
        → Runtime c d n PyFactory
        → Runtime c d n PyFactory
        → Type 0 where
    nothing_yet : {rt : Runtime c d n PyFactory} → InVain [] rt rt
    missed :
        {rt last : Runtime c d n PyFactory} {more : List (Wake (Runtime c d n PyFactory))}
        (others : Runtime c d n PyFactory → Runtime c d n PyFactory)
        → (get_observed_messages (others rt) pid ≡ none)
          ⊎ ((msgs : List Message) × (get_observed_messages (others rt) pid ≡ some msgs)
              × Miss (run_python_matcher matcher) msgs)
        → InVain more (others rt) last
        → InVain (looks others ∷ more) rt last
    untimed :
        {rt last : Runtime c d n PyFactory} {more : List (Wake (Runtime c d n PyFactory))}
        → has_timeout ≡ false
        → InVain more rt last
        → InVain (deadline ∷ more) rt last

  pub data Observes (rt : Runtime c d n PyFactory) (r : Runtime c d n PyFactory × Option PyObject)
      : List (Wake (Runtime c d n PyFactory)) → Type 0 where
    found :
        (before behind : List (Wake (Runtime c d n PyFactory))) {last : Runtime c d n PyFactory}
        (others : Runtime c d n PyFactory → Runtime c d n PyFactory) (msgs : List Message)
        (h : Hit (run_python_matcher matcher) msgs)
        → InVain before rt last
        → get_observed_messages (others last) pid ≡ some msgs
        → r.1 ≡ some (message_to_py h.elem)
        → ((q : Pid)
            → get_observed_messages r.0 q ≡ (
                if pid == q
                then some (h.before ++ h.behind)
                else get_observed_messages (others last) q))
        → Observes rt r (before ++ looks others ∷ behind)
    lapsed :
        (before behind : List (Wake (Runtime c d n PyFactory)))
        → InVain before rt r.0
        → has_timeout ≡ true
        → r.1 ≡ some py_none
        → Observes rt r (before ++ deadline ∷ behind)
    waits_on :
        {wakes : List (Wake (Runtime c d n PyFactory))}
        → InVain wakes rt r.0
        → r.1 ≡ none
        → Observes rt r wakes

  later_look :
      {rt : Runtime c d n PyFactory} {r : Runtime c d n PyFactory × Option PyObject}
      {wakes : List (Wake (Runtime c d n PyFactory))}
      (others : Runtime c d n PyFactory → Runtime c d n PyFactory)
      → (get_observed_messages (others rt) pid ≡ none)
        ⊎ ((msgs : List Message) × (get_observed_messages (others rt) pid ≡ some msgs)
            × Miss (run_python_matcher matcher) msgs)
      → Observes (others rt) r wakes
      → Observes rt r (looks others ∷ wakes)
  later_look others miss (found before behind others' msgs h vain at gave left) =
      found (looks others ∷ before) behind others' msgs h (missed others miss vain) at gave left
  later_look others miss (lapsed before behind vain timed gave) =
      lapsed (looks others ∷ before) behind (missed others miss vain) timed gave
  later_look others miss (waits_on vain gave) = waits_on (missed others miss vain) gave

  later_deadline :
      {rt : Runtime c d n PyFactory} {r : Runtime c d n PyFactory × Option PyObject}
      {wakes : List (Wake (Runtime c d n PyFactory))}
      → has_timeout ≡ false
      → Observes rt r wakes
      → Observes rt r (deadline ∷ wakes)
  later_deadline timeless (found before behind others msgs h vain at gave left) =
      found (deadline ∷ before) behind others msgs h (untimed timeless vain) at gave left
  later_deadline timeless (lapsed before behind vain timed gave) =
      lapsed (deadline ∷ before) behind (untimed timeless vain) timed gave
  later_deadline timeless (waits_on vain gave) = waits_on (untimed timeless vain) gave

  wakes_up-Observes :
      (wakes : List (Wake (Runtime c d n PyFactory))) (rt : Runtime c d n PyFactory)
      → Observes rt (wakes_up matcher has_timeout pid wakes rt) wakes
  unfolding wakes_up look get_observed_messages
  wakes_up-Observes [] rt = waits_on nothing_yet refl
  wakes_up-Observes (looks others ∷ wakes) rt =
      elim (take_observed-Takes (others rt) pid (run_python_matcher matcher)) [
        | nothing miss e ↦
            subst
              (λ x.
                Observes rt
                  (elim (Option.map message_to_py x.1) [
                    | none ↦ wakes_up matcher has_timeout pid wakes x.0
                    | some object ↦ (x.0, some object)
                  ])
                  (looks others ∷ wakes))
              (sym e) (later_look others miss (wakes_up-Observes wakes (others rt)))
        | first_match msgs h at gave left ↦
            rw (gave, wakes_up) (found [] wakes others msgs h nothing_yet at refl left)
      ]
  wakes_up-Observes (deadline ∷ wakes) rt =
      let rest = wakes_up matcher has_timeout pid wakes rt in
      elim (Bool-cases has_timeout) [
        | inl timed ↦
            subst (λ b. Observes rt (if b then (rt, some py_none) else rest) (deadline ∷ wakes))
              (sym timed) (lapsed [] wakes nothing_yet timed refl)
        | inr timeless ↦
            subst (λ b. Observes rt (if b then (rt, some py_none) else rest) (deadline ∷ wakes))
              (sym timeless) (later_deadline timeless (wakes_up-Observes wakes rt))
      ]

  -- Whatever others do between its looks, `selective_recv_observed_py` gives Python the first kept
  -- message that the matcher takes at the first look at which there is one, and takes out that one
  -- alone; it gives `None` only when it has a timeout that is over after looks that were all in vain;
  -- and until one of these it waits.
  pub selective_recv_observed_py-Observes :
      (wakes : List (Wake (Runtime c d n PyFactory))) (rt : Runtime c d n PyFactory)
      → Observes rt
          (selective_recv_observed_py matcher has_timeout pid wakes rt)
          (looks (λ rt. rt) ∷ wakes)
  unfolding selective_recv_observed_py
  selective_recv_observed_py-Observes wakes rt = wakes_up-Observes (looks (λ rt. rt) ∷ wakes) rt
