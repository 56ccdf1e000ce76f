-- ===== src/Node/Tests.antt =====
-- The theorems on src/node.rs at concrete states.
use myrmidon.Base.{
  ℕ, ◌+◌, ◌^◌, ◌≡◌, refl, some, List, [], ◌∷◌, ◌==◌, ==_iff, if◌then◌else◌, same_text,
  same_text_iff, arith,
}
use myrmidon.Deps.DashMap.{DashMap, assoc_map}
use myrmidon.Deps.Mpsc.{list_channel}
use myrmidon.Mailbox.Messages.{Text, SystemMessage, Message, user, system}
use myrmidon.Runtime
use myrmidon.Runtime.{Runtime, is_alive}
use mathlib.Core.Option
use myrmidon.Deps.JsNumber.{negsuc, rounding}
use myrmidon.Node.{as_i64, as_u64, register, resolve, js_is_alive, js_stop, Boxes, JsHandler}
use myrmidon.Node.Numbers.{register-resolve}
use myrmidon.Node.Swapping.{Handled, js_handles-Handled}

abbrev d : DashMap ℕ ◌==◌
d = assoc_map ℕ ◌==◌ ==_iff

abbrev n : DashMap Text same_text
n = assoc_map Text same_text same_text_iff

abbrev empty : Runtime list_channel d n ℕ
empty = Runtime.new list_channel d n ℕ

abbrev name : Text
name = b'a' ∷ []

-- The first generation of the second slot.
abbrev some_pid : ℕ
some_pid = 2 ^ 32 + 1

register-resolve_example :
    let there =
      λ (r : Runtime list_channel d n ℕ) (k : Text). Option.map rounding.number (resolve r k) in
    let after = register empty name (rounding.number (negsuc 4)) in
    (there after name ≡ some (negsuc 4))
    × (there after [] ≡ (if same_text name [] then some (negsuc 4) else there empty []))
    × (js_is_alive empty (rounding.number (as_i64 some_pid)) ≡ is_alive empty some_pid)
    × (js_stop empty (rounding.number (as_i64 some_pid)) ≡ Runtime.stop empty some_pid)
register-resolve_example =
    register-resolve rounding empty name [] (negsuc 4) some_pid (omega arith) (omega arith)

-- Beyond, an identifier comes back as that of another slot.
rounded_away : as_u64 (rounding.number (as_i64 (2 ^ 53 + 1))) ≡ 2 ^ 53
unfolding as_u64 as_i64
rounded_away = refl

abbrev boxes : Boxes
boxes = some 8 ∷ some 9 ∷ []

abbrev handler : JsHandler
handler = record { behavior = 7; calls = [] }

abbrev messages : List Message
messages =
    user (1 ∷ [])
    ∷ system (SystemMessage.hot_swap 1)
    ∷ user (2 ∷ [])
    ∷ system (SystemMessage.hot_swap 0)
    ∷ []

js_handles-Handled_example : Handled boxes handler messages
js_handles-Handled_example =
    js_handles-Handled boxes handler messages ((9, refl), ((8, refl), tt)) (refl, (refl, tt))
