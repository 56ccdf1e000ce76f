-- ===== src/Node/Numbers.antt =====
-- The identifiers that src/node.rs hands to JavaScript and takes back.
use myrmidon.Base.{
  ℕ, ◌^◌, ◌<◌, ◌≤◌, ◌≡◌, refl, ap, ◌∙◌, inl, inr, some, ◌==◌, same_text, same_text_iff, ltb,
  if◌then◌else◌, arith, Bool-cases,
}
use mathlib.Core.Option
use myrmidon.Deps.DashMap.{DashMap}
use myrmidon.Deps.Mpsc.{Mpsc}
use myrmidon.Mailbox.Messages.{Text}
use myrmidon.Registry
use myrmidon.Supervisor.{Pid}
use myrmidon.Runtime
use myrmidon.Runtime.{Runtime, is_alive}
use myrmidon.Runtime.Names
use myrmidon.Deps.JsNumber.{ℤ, pos, negsuc, IsSafe, JsNumber}
use myrmidon.Node.{as_i64, as_u64, register, resolve, js_is_alive, js_stop}

-- An `i64`.
abbrev pub IsI64 : ℤ → Type 0
IsI64 (pos n) = n < 2 ^ 63
IsI64 (negsuc n) = n < 2 ^ 63

pub as_u64-as_i64 : (p : ℕ) → p < 2 ^ 64 → as_u64 (as_i64 p) ≡ p
unfolding as_u64 as_i64
as_u64-as_i64 p h = elim (Bool-cases (ltb p (2 ^ 63))) [
  | inl low ↦ rw (low, as_i64) (ground (arith, low, h))
  | inr high ↦ rw (high, as_i64) (ground (arith, high, h))
]

pub as_i64-as_u64 : (j : ℤ) → IsI64 j → as_i64 (as_u64 j) ≡ j
unfolding as_u64 as_i64
as_i64-as_u64 (pos n) h = ground (arith, h)
as_i64-as_u64 (negsuc n) h = ground (arith, h)

safe_fits : (j : ℤ) → IsSafe j → IsI64 j
safe_fits (pos n) h = omega (arith, h)
safe_fits (negsuc n) h = omega (arith, h)

as_i64-IsSafe : (p : ℕ) → p ≤ 2 ^ 53 → IsSafe (as_i64 p)
unfolding as_i64
as_i64-IsSafe p h = ground (arith, h)

module _ {c : Mpsc} {d : DashMap ℕ ◌==◌} {n : DashMap Text same_text} {Factory : Type 0} where
  -- Through the numbers of JavaScript, which are exact up to 2 ^ 53 either way: a name registered for a
  -- number in this range, negative ones included, resolves to this very number there, and other names
  -- to what they did; and an identifier up to 2 ^ 53 handed to JavaScript and back stands for the actor
  -- that it stood for.
  pub register-resolve :
      (js : JsNumber) (rt : Runtime c d n Factory) (name other : Text) (j : ℤ) (p : Pid)
      → IsSafe j
      → p ≤ 2 ^ 53
      → let there = λ (r : Runtime c d n Factory) (k : Text). Option.map js.number (resolve r k) in
        let after = register rt name (js.number j) in
        (there after name ≡ some j)
        × (there after other ≡ (if same_text name other then some j else there rt other))
        × (js_is_alive rt (js.number (as_i64 p)) ≡ is_alive rt p)
        × (js_stop rt (js.number (as_i64 p)) ≡ Runtime.stop rt p)
  unfolding register resolve js_is_alive js_stop Runtime.Names.register Runtime.Names.resolve
      Registry.register Registry.resolve
  register-resolve js rt name other j p safe small =
      let given = js.number-IsSafe j safe in
      let back : js.number (as_i64 (as_u64 j)) ≡ j =
        ap js.number (as_i64-as_u64 j (safe_fits j safe)) ∙ given in
      let same = (same_text_iff name name).1 refl in
      let same_pid : as_u64 (js.number (as_i64 p)) ≡ p =
        ap as_u64 (js.number-IsSafe (as_i64 p) (as_i64-IsSafe p small))
        ∙ as_u64-as_i64 p (omega (arith, small)) in
      rw given (
        ap (λ o. Option.map js.number (Option.map as_i64 o))
              (n.get-insert rt.registry.names name (as_u64 j) name)
            ∙ rw (same, back) refl,
        ap (λ o. Option.map js.number (Option.map as_i64 o))
              (n.get-insert rt.registry.names name (as_u64 j) other)
            ∙ elim (Bool-cases (same_text name other)) [
              | inl e ↦ rw (e, back) refl
              | inr e ↦ rw e refl
            ],
        ap (is_alive rt) same_pid,
        ap (Runtime.stop rt) same_pid,
      )
