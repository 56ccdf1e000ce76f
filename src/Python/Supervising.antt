-- ===== src/Python/Supervising.antt =====
-- Supervision in src/py.rs: `watch`, `supervise_with_factory`, `path_supervise_with_factory`. What the
-- callable that makes actors gives is an argument.
use myrmidon.Base.{
  ℕ, ◌+◌, ◌≡◌, refl, ap, ap₂, ◌⊎◌, inl, inr, Bool, true, false, ◌&&◌, ◌||◌, ◌++◌, Option, none,
  some, [], ◌∷◌, map, ◌==◌, leb, if◌then◌else◌, Result, ok, err, same_text, same_text_iff, ◌<◌, ◌≤◌,
  subst, Bool-cases, arith, Option-cases,
}
use myrmidon.Deps.DashMap.{DashMap}
use myrmidon.Deps.Mpsc.{Mpsc}
use myrmidon.Supervisor
use myrmidon.Supervisor.{Pid, Text, ChildSpec, RestartStrategy, restart_one, restart_all}
use myrmidon.Runtime.{Runtime}
use myrmidon.Runtime.Names.{path_supervise_with_factory}
use myrmidon.Runtime.Children.{supervise}

-- The factories of the binding: one that answers an actor's own identifier, and a callable.
pub data PyFactory : Type 0 where
  same_pid : Pid → PyFactory
  calls_python : ℕ → PyFactory

-- A call of the callable, with the errors as texts.
pub data FactoryCall : Type 0 where
  factory_raised not_a_pid : Text → FactoryCall
  gave_pid : Pid → FactoryCall

pub data PyError : Type 0 where
  invalid_strategy : PyError
  from_python : Text → PyError

-- A letter of ASCII in lower case. Other characters that have one are not in the names below, and no
-- character of these is another's lower case.
abbrev pub lower : ℕ → ℕ
lower b = if leb 65 b && leb b 90 then b + 32 else b

abbrev pub to_lowercase : Text → Text
to_lowercase = map lower

abbrev pub restart_text : Text
restart_text = b'r' ∷ b'e' ∷ b's' ∷ b't' ∷ b'a' ∷ b'r' ∷ b't' ∷ []

abbrev pub one_text : Text
one_text = b'o' ∷ b'n' ∷ b'e' ∷ []

abbrev pub all_text : Text
all_text = b'a' ∷ b'l' ∷ b'l' ∷ []

abbrev is_one : Text → Bool
is_one t =
    same_text t (restart_text ++ one_text)
    || same_text t (restart_text ++ b'_' ∷ one_text)
    || same_text t one_text

abbrev is_all : Text → Bool
is_all t =
    same_text t (restart_text ++ all_text)
    || same_text t (restart_text ++ b'_' ∷ all_text)
    || same_text t all_text

-- The `match` on the strategy's name.
pub strategy_named : Text → Option RestartStrategy
strategy_named t =
    if is_one t then some restart_one else if is_all t then some restart_all else none

pub parse_strategy : Text → Option RestartStrategy
parse_strategy s = strategy_named (to_lowercase s)

-- A text that reads like a name in small letters when capitals of ASCII are not told from small ones.
pub data Spells : Text → Text → Type 0 where
  nothing_left : Spells [] []
  same : {name s : Text} (b : ℕ) → (b < 65) ⊎ (90 < b) → Spells name s → Spells (b ∷ name) (b ∷ s)
  capital :
      {name s : Text} (b : ℕ) → 65 ≤ b → b ≤ 90 → Spells name s → Spells ((b + 32) ∷ name) (b ∷ s)

lower-Spells : (s : Text) → Spells (to_lowercase s) s
lower-Spells [] = nothing_left
lower-Spells (b ∷ s) = elim (Bool-cases (leb 65 b && leb b 90)) [
  | inl is_capital ↦
      rw is_capital
        (capital b (ground (arith, is_capital)) (ground (arith, is_capital)) (lower-Spells s))
  | inr is_not ↦ rw is_not (same b (ground (arith, is_not)) (lower-Spells s))
]

Spells-lower : {name s : Text} → Spells name s → to_lowercase s ≡ name
Spells-lower nothing_left = refl
Spells-lower (same b outside h) =
    ap₂ ◌∷◌ (elim outside [ inl low ↦ ground arith | inr high ↦ ground arith ]) (Spells-lower h)
Spells-lower (capital b low high h) = ap₂ ◌∷◌ (ground arith) (Spells-lower h)

-- The names of the strategies, in any case of their letters.
pub data Names : RestartStrategy → Text → Type 0 where
  restartone :
      {s : Text}
      → Spells (b'r' ∷ b'e' ∷ b's' ∷ b't' ∷ b'a' ∷ b'r' ∷ b't' ∷ b'o' ∷ b'n' ∷ b'e' ∷ []) s
      → Names restart_one s
  restart_one_underscore :
      {s : Text}
      → Spells (b'r' ∷ b'e' ∷ b's' ∷ b't' ∷ b'a' ∷ b'r' ∷ b't' ∷ b'_' ∷ b'o' ∷ b'n' ∷ b'e' ∷ []) s
      → Names restart_one s
  one : {s : Text} → Spells (b'o' ∷ b'n' ∷ b'e' ∷ []) s → Names restart_one s
  restartall :
      {s : Text}
      → Spells (b'r' ∷ b'e' ∷ b's' ∷ b't' ∷ b'a' ∷ b'r' ∷ b't' ∷ b'a' ∷ b'l' ∷ b'l' ∷ []) s
      → Names restart_all s
  restart_all_underscore :
      {s : Text}
      → Spells (b'r' ∷ b'e' ∷ b's' ∷ b't' ∷ b'a' ∷ b'r' ∷ b't' ∷ b'_' ∷ b'a' ∷ b'l' ∷ b'l' ∷ []) s
      → Names restart_all s
  all : {s : Text} → Spells (b'a' ∷ b'l' ∷ b'l' ∷ []) s → Names restart_all s

named : (s name : Text) → same_text (to_lowercase s) name ≡ true → Spells name s
named s name h =
    subst (λ t. Spells t s) ((same_text_iff (to_lowercase s) name).0 h) (lower-Spells s)

-- The strategy that a text names, read off by the code.
parse-Names : (s : Text) (strat : RestartStrategy) → parse_strategy s ≡ some strat → Names strat s
unfolding parse_strategy strategy_named
parse-Names s strat h = elim (Bool-cases (same_text (to_lowercase s) (restart_text ++ one_text))) [
  | inl e ↦
      subst (λ x. Names x s) (ground (arith, h, e))
        (restartone (named s (restart_text ++ one_text) e))
  | inr e0 ↦ elim (Bool-cases (same_text (to_lowercase s) (restart_text ++ b'_' ∷ one_text))) [
    | inl e ↦
        subst (λ x. Names x s) (ground (arith, h, e, e0))
          (restart_one_underscore (named s (restart_text ++ b'_' ∷ one_text) e))
    | inr e1 ↦ elim (Bool-cases (same_text (to_lowercase s) (one_text))) [
      | inl e ↦ subst (λ x. Names x s) (ground (arith, h, e, e0, e1)) (one (named s (one_text) e))
      | inr e2 ↦ elim (Bool-cases (same_text (to_lowercase s) (restart_text ++ all_text))) [
        | inl e ↦
            subst (λ x. Names x s) (ground (arith, h, e, e0, e1, e2))
              (restartall (named s (restart_text ++ all_text) e))
        | inr e3 ↦
            elim (Bool-cases (same_text (to_lowercase s) (restart_text ++ b'_' ∷ all_text))) [
              | inl e ↦
                  subst (λ x. Names x s) (ground (arith, h, e, e0, e1, e2, e3))
                    (restart_all_underscore (named s (restart_text ++ b'_' ∷ all_text) e))
              | inr e4 ↦ elim (Bool-cases (same_text (to_lowercase s) (all_text))) [
                | inl e ↦
                    subst (λ x. Names x s) (ground (arith, h, e, e0, e1, e2, e3, e4))
                      (all (named s (all_text) e))
                | inr e5 ↦ absurd (ground (arith, h, e0, e1, e2, e3, e4, e5))
              ]
            ]
      ]
    ]
  ]
]

Names-parse : {strat : RestartStrategy} {s : Text} → Names strat s → parse_strategy s ≡ some strat
unfolding parse_strategy strategy_named same_text
Names-parse (restartone h) = ap strategy_named (Spells-lower h)
Names-parse (restart_one_underscore h) = ap strategy_named (Spells-lower h)
Names-parse (one h) = ap strategy_named (Spells-lower h)
Names-parse (restartall h) = ap strategy_named (Spells-lower h)
Names-parse (restart_all_underscore h) = ap strategy_named (Spells-lower h)
Names-parse (all h) = ap strategy_named (Spells-lower h)

abbrev pub shutting_down : Text
shutting_down =
    b'I' ∷ b'n' ∷ b't' ∷ b'e' ∷ b'r' ∷ b'p' ∷ b'r' ∷ b'e' ∷ b't' ∷ b'e' ∷ b'r' ∷ b' ' ∷ b's' ∷ b'h'
    ∷ b'u' ∷ b't' ∷ b't' ∷ b'i' ∷ b'n' ∷ b'g' ∷ b' ' ∷ b'd' ∷ b'o' ∷ b'w' ∷ b'n' ∷ []

-- What a factory answers to a restart task, given whether the interpreter is up.
pub factory_answer : Bool → FactoryCall → PyFactory → Result Pid Text
factory_answer up call (same_pid pid) = ok pid
factory_answer false call (calls_python callable) = err shutting_down
factory_answer true (factory_raised e) (calls_python callable) = err e
factory_answer true (not_a_pid e) (calls_python callable) = err e
factory_answer true (gave_pid pid) (calls_python callable) = ok pid

-- The call of the factory before it is used, whose actor is not used.
pub initial_pid : FactoryCall → Result Pid PyError
initial_pid (factory_raised e) = err (from_python e)
initial_pid (not_a_pid e) = err (from_python e)
initial_pid (gave_pid pid) = ok pid

pub Result-cases :
    {A E : Type 0} (r : Result A E) → ((a : A) × (r ≡ ok a)) ⊎ ((e : E) × (r ≡ err e))
Result-cases (ok a) = inl (a, refl)
Result-cases (err e) = inr (e, refl)

module _ {c : Mpsc} {d : DashMap ℕ ◌==◌} {n : DashMap Text same_text} where
  unfoldable pub watch :
      Runtime c d n PyFactory → Pid → Text → Runtime c d n PyFactory × Result (Unit {0}) PyError
  watch rt pid strategy = elim (parse_strategy strategy) [
    | none ↦ (rt, err invalid_strategy)
    | some strat ↦
        let spec : ChildSpec PyFactory = record { factory = same_pid pid; strategy = strat } in
        (record rt { supervisor = Supervisor.add_child d rt.supervisor pid spec }, ok tt)
  ]

  unfoldable pub supervise_with_factory :
      Runtime c d n PyFactory
      → Pid
      → ℕ
      → FactoryCall
      → Text
      → Runtime c d n PyFactory × Result (Unit {0}) PyError
  supervise_with_factory rt pid callable first_call strategy = elim (parse_strategy strategy) [
    | none ↦ (rt, err invalid_strategy)
    | some strat ↦ elim (initial_pid first_call) [
      | err e ↦ (rt, err e)
      | ok _ ↦ (supervise rt pid (calls_python callable) strat, ok tt)
    ]
  ]

  unfoldable pub py_path_supervise_with_factory :
      Runtime c d n PyFactory
      → Text
      → Pid
      → ℕ
      → FactoryCall
      → Text
      → Runtime c d n PyFactory × Result (Unit {0}) PyError
  py_path_supervise_with_factory rt path pid callable first_call strategy =
      elim (parse_strategy strategy) [
        | none ↦ (rt, err invalid_strategy)
        | some strat ↦ elim (initial_pid first_call) [
          | err e ↦ (rt, err e)
          | ok _ ↦ (
            path_supervise_with_factory rt path pid
                (record { factory = calls_python callable; strategy = strat }),
            ok tt,
          )
        ]
      ]

  -- What a call that puts an actor under supervision comes to.
  pub data Supervises (rt : Runtime c d n PyFactory) (pid : Pid) (callable : ℕ) (strategy : Text)
      (call : Runtime c d n PyFactory × Result (Unit {0}) PyError) : FactoryCall → Type 0 where
    no_strategy :
        (first_call : FactoryCall)
        → ((strat : RestartStrategy) → ¬ Names strat strategy)
        → call ≡ (rt, err invalid_strategy)
        → Supervises rt pid callable strategy call first_call
    raises :
        (strat : RestartStrategy) (e : Text)
        → Names strat strategy
        → call ≡ (rt, err (from_python e))
        → Supervises rt pid callable strategy call (factory_raised e)
    gives_no_pid :
        (strat : RestartStrategy) (e : Text)
        → Names strat strategy
        → call ≡ (rt, err (from_python e))
        → Supervises rt pid callable strategy call (not_a_pid e)
    supervised :
        (strat : RestartStrategy) (made : Pid)
        → Names strat strategy
        → call.1 ≡ ok tt
        → ((q : Pid)
            → d.get call.0.supervisor.children q ≡ (
                if pid == q
                then some (record { factory = calls_python callable; strategy = strat })
                else d.get rt.supervisor.children q))
        → Supervises rt pid callable strategy call (gave_pid made)

  -- The call for a strategy that is named.
  with_strategy :
      (rt : Runtime c d n PyFactory) (pid : Pid) (callable : ℕ) (strategy : Text)
      (strat : RestartStrategy) (first_call : FactoryCall)
      → parse_strategy strategy ≡ some strat
      → Supervises rt pid callable strategy
          (supervise_with_factory rt pid callable first_call strategy)
          first_call
  unfolding supervise_with_factory supervise Supervisor.add_child initial_pid
  with_strategy rt pid callable strategy strat (factory_raised e) h =
      raises strat e (parse-Names strategy strat h) (ground (arith, h))
  with_strategy rt pid callable strategy strat (not_a_pid e) h =
      gives_no_pid strat e (parse-Names strategy strat h) (ground (arith, h))
  with_strategy rt pid callable strategy strat (gave_pid made) h =
      rw (h, supervise_with_factory)
        (supervised strat made (parse-Names strategy strat h) refl (λ q.
          d.get-insert rt.supervisor.children pid
            (record { factory = calls_python callable; strategy = strat }) q))

  -- `supervise_with_factory` is an error that changes nothing when the strategy is none of the names,
  -- in whatever case of their letters, and else when the first call of the factory raises or gives no
  -- identifier. Otherwise the actor, not the one that this call made, is a child with the factory and
  -- the strategy named, and every other child is as it was.
  pub supervise_with_factory-Supervises :
      (rt : Runtime c d n PyFactory) (pid : Pid) (callable : ℕ) (first_call : FactoryCall)
      (strategy : Text)
      → Supervises rt pid callable strategy
          (supervise_with_factory rt pid callable first_call strategy)
          first_call
  unfolding supervise_with_factory
  supervise_with_factory-Supervises rt pid callable first_call strategy =
      elim (Option-cases (parse_strategy strategy)) [
        | inl e ↦
            no_strategy first_call (λ strat names. absurd (ground (arith, e, Names-parse names)))
              (ground (arith, e))
        | inr (strat, e) ↦ with_strategy rt pid callable strategy strat first_call e
      ]
