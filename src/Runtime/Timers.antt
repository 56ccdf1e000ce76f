-- ===== src/Runtime/Timers.antt =====
-- The timers of src/lib.rs: `send_after`, `send_interval`, `cancel_timer`, and the tasks behind them.
use myrmidon.Base.{
  ℕ, ◌+◌, ◌%◌, ◌^◌, ◌≤◌, ◌<◌, ◌≡◌, ◌⊎◌, refl, sym, ap, ◌∙◌, inl, inr, Bool, true, false, not, ◌&&◌,
  ◌||◌, List, [], ◌∷◌, ◌++◌, map, ◌==◌, any, keep, count, count-append, if◌then◌else◌, same_text,
  arith, Bool-cases,
}
use mathlib.Core.List.{map-append}
use myrmidon.Deps.DashMap.{DashMap}
use myrmidon.Deps.Mpsc.{Mpsc}
use myrmidon.Mailbox.Messages.{Message}
use myrmidon.Supervisor.{Pid, Text}
use myrmidon.Runtime.{Runtime, send}

-- A spawned task: what it sends, whether again and again, whether it has sent its one message, and
-- whether its receiver for cancellation is ready, by a message or because the sender is gone.
pub record Timer : Type 0 where
  pub id : ℕ
  pub pid : Pid
  pub msg : Message
  pub repeats : Bool
  pub is_sent : Bool
  pub is_cancelled : Bool

-- The sender for a timer fires or is dropped.
abbrev pub cancelled : ℕ → List Timer → List Timer
cancelled id [] = []
cancelled id (t ∷ tasks) =
    (if t.id == id then record t { is_cancelled = true } else t) ∷ cancelled id tasks

abbrev pub ids : List Timer → List ℕ
ids = map (λ t. t.id)

-- Whether there is a task of the timer and nobody has cancelled it: it waits, or it has sent its message
-- and its key is still to be taken out of the map.
abbrev pub is_pending : ℕ → List Timer → Bool
is_pending id = any (λ t. (t.id == id) && not t.is_cancelled)

abbrev pub holds : ℕ → List ℕ → Bool
holds id = any (λ k. k == id)

abbrev pub drop_id : ℕ → List ℕ → List ℕ
drop_id id = keep (λ k. not (k == id))

holds-drop_id : (id q : ℕ) (ks : List ℕ) → holds q (drop_id id ks) ≡ (not (id == q) && holds q ks)
holds-drop_id id q [] = ground arith
holds-drop_id id q (k ∷ ks) = ground (arith, holds-drop_id id q ks)

is_pending-cancelled :
    (id q : ℕ) (tasks : List Timer)
    → is_pending q (cancelled id tasks) ≡ (not (id == q) && is_pending q tasks)
is_pending-cancelled id q [] = ground arith
is_pending-cancelled id q (t ∷ tasks) = elim (Bool-cases (t.id == id)) [
  | inl same ↦ ground (arith, is_pending-cancelled id q tasks)
  | inr other ↦ ground (arith, is_pending-cancelled id q tasks)
]

ids-cancelled : (id : ℕ) (tasks : List Timer) → ids (cancelled id tasks) ≡ ids tasks
ids-cancelled id [] = refl
ids-cancelled id (t ∷ tasks) = elim (Bool-cases (t.id == id)) [
  | inl same ↦ rw same (ap (λ l. t.id ∷ l) (ids-cancelled id tasks))
  | inr other ↦ rw other (ap (λ l. t.id ∷ l) (ids-cancelled id tasks))
]

is_pending-append :
    (q : ℕ) (xs ys : List Timer) → is_pending q (xs ++ ys) ≡ (is_pending q xs || is_pending q ys)
is_pending-append q [] ys = refl
is_pending-append q (x ∷ xs) ys = ground (arith, is_pending-append q xs ys)

is_pending_absent :
    (q : ℕ) (tasks : List Timer) → count q (ids tasks) ≡ 0 → is_pending q tasks ≡ false
is_pending_absent q [] h = refl
is_pending_absent q (t ∷ tasks) h = ground (arith, is_pending_absent q tasks, h)

count_split :
    (q : ℕ) (before behind : List Timer)
    → count q (ids (before ++ behind)) ≡ count q (ids before) + count q (ids behind)
count_split q before behind =
    ap (count q) (map-append (λ t. t.id) before behind) ∙ count-append q (ids before) (ids behind)

module _ (c : Mpsc) (d : DashMap ℕ ◌==◌) (n : DashMap Text same_text) (Factory : Type 0) where
  -- The map `timers`, from identifiers to senders, is known by its keys.
  pub record Timers : Type 0 where
    pub runtime : Runtime c d n Factory
    pub timers : List ℕ
    pub timer_counter : ℕ
    pub tasks : List Timer

  -- `send_after` when it does not repeat, `send_interval` when it does. A key that was there would
  -- lose its sender.
  unfoldable pub schedule : Timers → Pid → Message → Bool → Timers × ℕ
  schedule s pid msg repeats =
      let id = s.timer_counter + 1 in
      (
        record s {
          timer_counter = (s.timer_counter + 1) % 2 ^ 64;
          timers = id ∷ drop_id id s.timers;
          tasks =
              record {
                id = id;
                pid = pid;
                msg = msg;
                repeats = repeats;
                is_sent = false;
                is_cancelled = false;
              }
              ∷ cancelled id s.tasks;
        },
        id,
      )

  unfoldable pub cancel_timer : Timers → ℕ → Timers × Bool
  cancel_timer s id =
      if holds id s.timers
      then (record s { timers = drop_id id s.timers; tasks = cancelled id s.tasks }, true)
      else (s, false)

  -- The sleep of a task is over, or its interval ticks.
  unfoldable pub fire : Timers → List Timer → Timer → List Timer → Timers
  fire s before t behind = record s {
    runtime = (send s.runtime t.pid t.msg).0;
    tasks = before ++ record t { is_sent = not t.repeats } ∷ behind;
  }

  -- A task that has sent its one message, or takes the branch of its cancellation, takes its key out
  -- of the map and ends.
  unfoldable pub end_task : Timers → List Timer → Timer → List Timer → Timers
  end_task s before t behind = record s { timers = drop_id t.id s.timers; tasks = before ++ behind }

  -- A call, or a step of a task that waits.
  pub data Step (s : Timers) : Timers → Type 0 where
    schedules :
        (pid : Pid) (msg : Message) (repeats : Bool)
        → s.timer_counter + 1 < 2 ^ 64
        → Step s (schedule s pid msg repeats).0
    cancels : (id : ℕ) → Step s (cancel_timer s id).0
    fires :
        (before behind : List Timer) (t : Timer)
        → s.tasks ≡ before ++ t ∷ behind
        → t.is_sent ≡ false
        → Step s (fire s before t behind)
    ends :
        (before behind : List Timer) (t : Timer)
        → s.tasks ≡ before ++ t ∷ behind
        → (t.is_sent ≡ true) ⊎ (t.is_cancelled ≡ true)
        → Step s (end_task s before t behind)

  pub data Reach : Timers → Type 0 where
    start :
        (rt : Runtime c d n Factory)
        → Reach (record { runtime = rt; timers = []; timer_counter = 0; tasks = [] })
    later : {s after : Timers} → Reach s → Step s after → Reach after

  -- The map has the timers that wait uncancelled, and no identifier stands for two tasks or for one to
  -- come.
  pub record IsConsistent (s : Timers) : Type 0 where
    pub kept : (id : ℕ) → holds id s.timers ≡ is_pending id s.tasks
    pub single : (id : ℕ) → count id (ids s.tasks) ≤ 1
    pub past : (id : ℕ) → s.timer_counter < id → count id (ids s.tasks) ≡ 0

  -- A task is gone, and its key with it.
  gone-IsConsistent :
      (s after : Timers) (before behind : List Timer) (t : Timer)
      → IsConsistent s
      → s.tasks ≡ before ++ t ∷ behind
      → after.tasks ≡ before ++ behind
      → after.timers ≡ drop_id t.id s.timers
      → after.timer_counter ≡ s.timer_counter
      → IsConsistent after
  gone-IsConsistent s after before behind t v e f g h =
      let counts : (q : ℕ)
          → count q (ids s.tasks)
            ≡ count q (ids before) + ((if t.id == q then 1 else 0) + count q (ids behind)) =
        λ q. ap (λ l. count q (ids l)) e ∙ count_split q before (t ∷ behind) in
      let left : (q : ℕ) → count q (ids after.tasks) ≡ count q (ids before) + count q (ids behind) =
        λ q. ap (λ l. count q (ids l)) f ∙ count_split q before behind in
      record {
        kept = λ q.
            let was : is_pending q s.tasks ≡ (is_pending q before || is_pending q (t ∷ behind)) =
              ap (is_pending q) e ∙ is_pending-append q before (t ∷ behind) in
            let is : is_pending q after.tasks ≡ (is_pending q before || is_pending q behind) =
              ap (is_pending q) f ∙ is_pending-append q before behind in
            ap (holds q) g
            ∙ holds-drop_id t.id q s.timers
            ∙ ground (
              arith,
              v.kept q,
              was,
              is,
              counts q,
              v.single q,
              is_pending_absent q before,
              is_pending_absent q behind,
            );
        single = λ q. ground (arith, counts q, left q, v.single q);
        past = λ q lt. ground (arith, counts q, left q, v.past q, lt, h);
      }

  schedule-IsConsistent :
      (s : Timers) (pid : Pid) (msg : Message) (repeats : Bool)
      → s.timer_counter + 1 < 2 ^ 64
      → IsConsistent s
      → IsConsistent (schedule s pid msg repeats).0
  unfolding schedule
  schedule-IsConsistent s pid msg repeats room v =
      let id = s.timer_counter + 1 in
      record {
        kept = λ q.
            ground
              (arith, holds-drop_id id q s.timers, is_pending-cancelled id q s.tasks, v.kept q);
        single = λ q. ground (arith, ap (count q) (ids-cancelled id s.tasks), v.single q, v.past q);
        past = λ q lt. ground (arith, ap (count q) (ids-cancelled id s.tasks), v.past q, room, lt);
      }

  cancel_timer-IsConsistent :
      (s : Timers) (id : ℕ) → IsConsistent s → IsConsistent (cancel_timer s id).0
  unfolding cancel_timer
  cancel_timer-IsConsistent s id v = elim (Bool-cases (holds id s.timers)) [
    | inl there ↦
        rw (there, cancel_timer)
          (record {
            kept = λ q.
                ground
                  (arith, holds-drop_id id q s.timers, is_pending-cancelled id q s.tasks, v.kept q);
            single = λ q. ground (arith, ap (count q) (ids-cancelled id s.tasks), v.single q);
            past = λ q lt. ground (arith, ap (count q) (ids-cancelled id s.tasks), v.past q, lt);
          })
    | inr missing ↦ rw (missing, cancel_timer) v
  ]

  Step-IsConsistent : {s after : Timers} → Step s after → IsConsistent s → IsConsistent after
  unfolding fire end_task
  Step-IsConsistent {s} (schedules pid msg repeats room) v =
      schedule-IsConsistent s pid msg repeats room v
  Step-IsConsistent {s} (cancels id) v = cancel_timer-IsConsistent s id v
  Step-IsConsistent {s} (fires before behind t e waiting) v =
      let u = record t { is_sent = not t.repeats } in
      let pending : (q : ℕ) → is_pending q (before ++ u ∷ behind) ≡ is_pending q s.tasks = λ q.
        is_pending-append q before (u ∷ behind)
        ∙ sym (is_pending-append q before (t ∷ behind))
        ∙ ap (is_pending q) (sym e) in
      let same : (q : ℕ) → count q (ids (before ++ u ∷ behind)) ≡ count q (ids s.tasks) = λ q.
        count_split q before (u ∷ behind)
        ∙ sym (count_split q before (t ∷ behind))
        ∙ ap (λ l. count q (ids l)) (sym e) in
      record {
        kept = λ q. v.kept q ∙ sym (pending q);
        single = λ q. omega (arith, same q, v.single q);
        past = λ q lt. same q ∙ v.past q lt;
      }
  Step-IsConsistent {s} (ends before behind t e c) v =
      gone-IsConsistent s _ before behind t v e refl refl refl

  Reach-IsConsistent : {s : Timers} → Reach s → IsConsistent s
  Reach-IsConsistent (start rt) = record {
    kept = λ q. refl;
    single = λ q. omega arith;
    past = λ q lt. refl;
  }
  Reach-IsConsistent (later r st) = Step-IsConsistent st (Reach-IsConsistent r)

  -- In every state that scheduling, cancelling and the steps of tasks can reach, `cancel_timer` answers
  -- whether there is a task of that timer that nobody cancelled, which waits or has sent its message
  -- and not yet taken its key out; afterwards there is none, the other timers are as they were, and
  -- cancelling it again answers no.
  pub cancel_timer_lem :
      {s : Timers} (id q : ℕ)
      → Reach s
      → ((cancel_timer s id).1 ≡ is_pending id s.tasks)
        × (is_pending q (cancel_timer s id).0.tasks ≡ (not (id == q) && is_pending q s.tasks))
        × ((cancel_timer (cancel_timer s id).0 id).1 ≡ false)
  unfolding cancel_timer
  cancel_timer_lem {s} id q r =
      let v = Reach-IsConsistent r in
      elim (Bool-cases (holds id s.timers)) [
        | inl there ↦
            rw (there, cancel_timer)
              (
                ground (arith, v.kept id),
                is_pending-cancelled id q s.tasks,
                ground (arith, holds-drop_id id id s.timers),
              )
        | inr missing ↦
            rw (missing, cancel_timer)
              (ground (arith, v.kept id), ground (arith, v.kept id), ground arith)
      ]
