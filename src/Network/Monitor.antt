-- ===== src/Network/Monitor.antt =====
-- `monitor_remote` of src/network.rs: probes of a node with a growing pause between them.
use mathlib.Core.Option
use myrmidon.Base.{
  ℕ, ◌+◌, ◌≤◌, ◌<◌, ◌≡◌, refl, ap, inl, inr, Bool, true, false, not, ◌&&◌, Option, none, some, List,
  [], ◌∷◌, ◌++◌, map, ◌==◌, ltb, leb, if◌then◌else◌, Result, ok, err, same_text, arith, Bool-cases,
  Option-cases,
}
use Prim.Native.Nat.{max}
use myrmidon.Deps.DashMap.{DashMap}
use myrmidon.Deps.Mpsc.{Mpsc}
use myrmidon.Deps.Reader.{ErrorKind}
use myrmidon.Supervisor
use myrmidon.Supervisor.{Pid, Text}
use myrmidon.Runtime
use myrmidon.Runtime.{Runtime, Restart}
use myrmidon.Network.{Bytes, byte_of}

-- What a probe meets: no connection in time, or whether the version and the ping were written, and
-- what the read of one byte gave.
pub record Probe : Type 0 where
  pub version_written : Bool
  pub ping_written : Bool
  pub pong : Result Bytes ErrorKind

abbrev pub is_pong : Result Bytes ErrorKind → Bool
is_pong (err e) = false
is_pong (ok pong) = byte_of pong == 3

abbrev pub is_up : Option Probe → Bool
is_up none = false
is_up (some p) = if p.version_written && p.ping_written then is_pong p.pong else false

-- The settings, read once. `scaled` is the product with the factor, in floating point, as a pause in
-- milliseconds again; `none` is the panic of `from_secs_f64`, on a product that is negative, not a
-- number or too large.
pub record Backoff : Type 0 where
  pub base : ℕ
  pub scaled : ℕ → Option ℕ
  pub max_backoff : ℕ
  pub threshold : ℕ

pub record Monitor : Type 0 where
  pub curr : ℕ
  pub failures : ℕ

-- The loop goes on, has ended because the actor did, has found the node down, or its task has panicked.
pub data Watch : Type 0 where
  watching : Monitor → Watch
  ended down panicked : Watch

module _ (b : Backoff) where
  abbrev pub start : Watch
  start = watching (record { curr = b.base; failures = 0 })

  next_pause : ℕ → Option ℕ
  next_pause curr =
      Option.map (λ next. if ltb b.max_backoff next then b.max_backoff else next) (b.scaled curr)

  paused : Option ℕ → ℕ → Watch
  paused none failures = panicked
  paused (some next) failures = watching (record { curr = next; failures = failures })

  -- One round: whether the actor is alive, and the probe after the pause.
  pub round : Watch → Bool → Option Probe → Watch
  unfolding next_pause paused
  round ended alive probe = ended
  round down alive probe = down
  round panicked alive probe = panicked
  round (watching m) alive probe =
      if not alive
      then ended
      else if not (is_up probe)
      then (if leb b.threshold (m.failures + 1)
          then down
          else paused (next_pause m.curr) (m.failures + 1))
      else watching (record { curr = b.base; failures = 0 })

  -- The rounds so far, the last one first.
  pub rounds : List (Bool × Option Probe) → Watch
  rounds [] = start
  rounds ((alive, probe) ∷ before) = round (rounds before) alive probe

  -- How many probes failed since the last that did not.
  abbrev pub failed_in_a_row : List (Bool × Option Probe) → ℕ
  failed_in_a_row [] = 0
  failed_in_a_row ((alive, probe) ∷ before) =
      let more = failed_in_a_row before in if is_up probe then 0 else more + 1

  -- What the rounds came to, by the failures in a row.
  pub data Watched (history : List (Bool × Option Probe)) : Watch → Type 0 where
    still :
        (m : Monitor)
        → m.failures ≡ failed_in_a_row history
        → m.failures < max 1 b.threshold
        → m.curr ≤ max b.base b.max_backoff
        → (m.failures ≡ 0 → m.curr ≡ b.base)
        → Watched history (watching m)
    over :
        (later before : List (Bool × Option Probe))
        → history ≡ later ++ before
        → failed_in_a_row before ≡ max 1 b.threshold
        → Watched history down
    gone :
        (later before : List (Bool × Option Probe)) (probe : Option Probe)
        → history ≡ later ++ (false, probe) ∷ before
        → Watched history ended
    crashed :
        (later before : List (Bool × Option Probe)) (pause : ℕ)
        → history ≡ later ++ before
        → 0 < failed_in_a_row before
        → failed_in_a_row before < max 1 b.threshold
        → pause ≤ max b.base b.max_backoff
        → b.scaled pause ≡ none
        → Watched history panicked

  round-Watched :
      (w : Watch) (alive : Bool) (probe : Option Probe) (history : List (Bool × Option Probe))
      → Watched history w
      → Watched ((alive, probe) ∷ history) (round w alive probe)
  unfolding round next_pause paused
  round-Watched (watching m) false probe history (still m' e f g h) = gone [] history probe refl
  round-Watched (watching m) true probe history (still m' e f g h) =
      elim (Bool-cases (is_up probe)) [
        | inl up ↦ rw up (
            still (record { curr = b.base; failures = 0 }) (ground arith) (ground arith)
              (ground arith) (λ z. refl))
        | inr not_up ↦ elim (Bool-cases (leb b.threshold (m.failures + 1))) [
          | inl enough ↦
              rw (not_up, enough) (over [] ((true, probe) ∷ history) refl (ground (arith, e, f)))
          | inr few ↦ elim (Option-cases (b.scaled m.curr)) [
            | inl overflow ↦
                rw (not_up, few, overflow)
                  (crashed [] ((true, probe) ∷ history) m.curr refl (ground (arith, e))
                    (ground (arith, e, f)) g overflow)
            | inr (next, product) ↦
                rw (not_up, few, product)
                  (still
                    (record {
                      curr = if ltb b.max_backoff next then b.max_backoff else next;
                      failures = m.failures + 1;
                    })
                    (ground (arith, e)) (ground arith) (ground arith) (λ z. absurd (omega arith)))
          ]
        ]
      ]
  round-Watched down alive probe history (over later before e f) =
      over ((alive, probe) ∷ later) before (ap (λ l. (alive, probe) ∷ l) e) f
  round-Watched panicked alive probe history (crashed later before pause e f g h k) =
      crashed ((alive, probe) ∷ later) before pause (ap (λ l. (alive, probe) ∷ l) e) f g h k
  round-Watched ended alive probe history (gone later before p e) =
      gone ((alive, probe) ∷ later) before p (ap (λ l. (alive, probe) ∷ l) e)

  -- After any rounds, the monitor still watches, with as many failures counted as there were in a row,
  -- fewer than the threshold (than 1 when that is 0), and a pause no longer than the longest allowed,
  -- the base after a success; or it found the node down after exactly so many failures in a row; or
  -- the actor was gone; or its task panicked after fewer failures, on a pause no longer than the
  -- longest allowed whose product with the factor is none of a duration.
  pub rounds-Watched : (history : List (Bool × Option Probe)) → Watched history (rounds history)
  unfolding rounds
  rounds-Watched [] =
      still (record { curr = b.base; failures = 0 }) refl (ground arith) (ground arith) (λ z. refl)
  rounds-Watched ((alive, probe) ∷ before) =
      round-Watched (rounds before) alive probe before (rounds-Watched before)

-- What a monitor that found the node down does to the runtime.
module _ {c : Mpsc} {d : DashMap ℕ ◌==◌} {n : DashMap Text same_text} {Factory : Type 0} where
  unfoldable pub node_down :
      Runtime c d n Factory → Pid → Runtime c d n Factory × List (Restart Factory)
  node_down rt pid =
      let stopped = Runtime.stop rt pid in
      let (supervisor, tasks) = Supervisor.notify_exit d stopped.supervisor pid in
      (record stopped { supervisor = supervisor }, map (λ t. (none, t)) tasks)
