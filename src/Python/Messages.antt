-- ===== src/Python/Messages.antt =====
-- The messages that src/py.rs gives to Python, and the matchers that it calls with them.
use myrmidon.Base.{
  ℕ, ◌≡◌, refl, sym, ap, subst, ◌∙◌, ◌↔◌, Bool, false, Option, none, some, [], ◌∷◌, arith,
}
use myrmidon.Mailbox.Messages.{
  Text, Bytes, ExitReason, normal, panic, timeout, killed, oom, other, ExitInfo, exit, hot_swap,
  ping, pong, Message, user, system,
}

pub record PySystemMessage : Type 0 where
  pub type_name : Text
  pub target_pid : Option ℕ
  pub reason : Text
  pub metadata : Option Text

-- The Python objects that the binding makes: `bytes`, a `PySystemMessage`, `None`.
pub data PyObject : Type 0 where
  py_bytes : Bytes → PyObject
  py_system : PySystemMessage → PyObject
  py_none : PyObject

abbrev pub exit_name : Text
exit_name = b'E' ∷ b'X' ∷ b'I' ∷ b'T' ∷ []

abbrev pub hot_swap_name : Text
hot_swap_name = b'H' ∷ b'O' ∷ b'T' ∷ b'_' ∷ b'S' ∷ b'W' ∷ b'A' ∷ b'P' ∷ []

abbrev pub ping_name : Text
ping_name = b'P' ∷ b'I' ∷ b'N' ∷ b'G' ∷ []

abbrev pub pong_name : Text
pong_name = b'P' ∷ b'O' ∷ b'N' ∷ b'G' ∷ []

-- The `match` on the reason of an exit.
unfoldable pub reason_text : ExitReason → Text
reason_text normal = b'n' ∷ b'o' ∷ b'r' ∷ b'm' ∷ b'a' ∷ b'l' ∷ []
reason_text panic = b'p' ∷ b'a' ∷ b'n' ∷ b'i' ∷ b'c' ∷ []
reason_text timeout = b't' ∷ b'i' ∷ b'm' ∷ b'e' ∷ b'o' ∷ b'u' ∷ b't' ∷ []
reason_text killed = b'k' ∷ b'i' ∷ b'l' ∷ b'l' ∷ b'e' ∷ b'd' ∷ []
reason_text oom = b'o' ∷ b'o' ∷ b'm' ∷ []
reason_text (other s) = s

-- A system message that carries nothing.
abbrev pub plain : Text → PySystemMessage
plain name = record { type_name = name; target_pid = none; reason = []; metadata = none }

abbrev pub exited : ExitInfo → PySystemMessage
exited info = record {
  type_name = exit_name;
  target_pid = some info.from;
  reason = reason_text info.reason;
  metadata = info.metadata;
}

unfoldable pub message_to_py : Message → PyObject
message_to_py (user b) = py_bytes b
message_to_py (system (exit info)) = py_system (exited info)
message_to_py (system (hot_swap _)) = py_system (plain hot_swap_name)
message_to_py (system ping) = py_system (plain ping_name)
message_to_py (system pong) = py_system (plain pong_name)

-- What a call of a Python callable gives: an exception, or a value, as a truth value if it is one.
pub data Called : Type 0 where
  raised : Called
  gave : Option Bool → Called

-- `val.extract::<bool>(py).unwrap_or(false)`, and `false` for an exception.
abbrev pub is_match : Called → Bool
is_match raised = false
is_match (gave none) = false
is_match (gave (some b)) = b

unfoldable pub run_python_matcher : (PyObject → Called) → Message → Bool
run_python_matcher matcher (user b) = is_match (matcher (py_bytes b))
run_python_matcher matcher (system (exit info)) = is_match (matcher (py_system (exited info)))
run_python_matcher matcher (system (hot_swap _)) =
    is_match (matcher (py_system (plain hot_swap_name)))
run_python_matcher matcher (system ping) = is_match (matcher (py_system (plain ping_name)))
run_python_matcher matcher (system pong) = is_match (matcher (py_system (plain pong_name)))

-- A matcher judges a message by the very object that is handed out for it.
pub run_python_matcher_lem :
    (matcher : PyObject → Called) (msg : Message)
    → run_python_matcher matcher msg ≡ is_match (matcher (message_to_py msg))
unfolding run_python_matcher message_to_py
run_python_matcher_lem matcher (user b) = refl
run_python_matcher_lem matcher (system (exit info)) = refl
run_python_matcher_lem matcher (system (hot_swap handler_ptr)) = refl
run_python_matcher_lem matcher (system ping) = refl
run_python_matcher_lem matcher (system pong) = refl

-- The text that stands for the reason of an exit.
pub data Reads : ExitReason → Text → Type 0 where
  as_normal : Reads normal (b'n' ∷ b'o' ∷ b'r' ∷ b'm' ∷ b'a' ∷ b'l' ∷ [])
  as_panic : Reads panic (b'p' ∷ b'a' ∷ b'n' ∷ b'i' ∷ b'c' ∷ [])
  as_timeout : Reads timeout (b't' ∷ b'i' ∷ b'm' ∷ b'e' ∷ b'o' ∷ b'u' ∷ b't' ∷ [])
  as_killed : Reads killed (b'k' ∷ b'i' ∷ b'l' ∷ b'l' ∷ b'e' ∷ b'd' ∷ [])
  as_oom : Reads oom (b'o' ∷ b'o' ∷ b'm' ∷ [])
  as_given : (s : Text) → Reads (other s) s

Reads-reason_text : (r : ExitReason) → Reads r (reason_text r)
unfolding reason_text
Reads-reason_text normal = as_normal
Reads-reason_text panic = as_panic
Reads-reason_text timeout = as_timeout
Reads-reason_text killed = as_killed
Reads-reason_text oom = as_oom
Reads-reason_text (other s) = as_given s

reason_text-Reads : {r : ExitReason} {t : Text} → Reads r t → reason_text r ≡ t
unfolding reason_text
reason_text-Reads as_normal = refl
reason_text-Reads as_panic = refl
reason_text-Reads as_timeout = refl
reason_text-Reads as_killed = refl
reason_text-Reads as_oom = refl
reason_text-Reads (as_given s) = refl

-- What Python is not shown of a message: the pointer of a new handler, and whether the reason of an
-- exit is one of the known ones or a text that reads like it.
pub data Alike : Message → Message → Type 0 where
  same_user : (b : Bytes) → Alike (user b) (user b)
  any_swap : (p q : ℕ) → Alike (system (hot_swap p)) (system (hot_swap q))
  same_ping : Alike (system ping) (system ping)
  same_pong : Alike (system pong) (system pong)
  same_exit :
      (from : ℕ) (metadata : Option Text) (r s : ExitReason) (t : Text)
      → Reads r t
      → Reads s t
      → Alike
          (system (exit (record { from = from; reason = r; metadata = metadata })))
          (system (exit (record { from = from; reason = s; metadata = metadata })))

exit-Alike :
    (a b : ExitInfo)
    → a.from ≡ b.from
    → reason_text a.reason ≡ reason_text b.reason
    → a.metadata ≡ b.metadata
    → Alike (system (exit a)) (system (exit b))
exit-Alike a b f r m =
    subst
      (λ from.
        Alike (system (exit a))
          (system (exit (record { from = from; reason = b.reason; metadata = b.metadata }))))
      f
      (subst
        (λ metadata.
          Alike (system (exit a))
            (system (exit (record { from = a.from; reason = b.reason; metadata = metadata }))))
        m
        (same_exit a.from a.metadata a.reason b.reason (reason_text b.reason)
          (subst (Reads a.reason) r (Reads-reason_text a.reason)) (Reads-reason_text b.reason)))

message_to_py-Alike : (m k : Message) → message_to_py m ≡ message_to_py k → Alike m k
unfolding message_to_py
message_to_py-Alike (user b) (user b') e =
    subst (λ x. Alike (user b) (user x)) (ground (arith, e)) (same_user b)
message_to_py-Alike (user b) (system (exit info')) e = absurd (ground (arith, e))
message_to_py-Alike (user b) (system (hot_swap p')) e = absurd (ground (arith, e))
message_to_py-Alike (user b) (system ping) e = absurd (ground (arith, e))
message_to_py-Alike (user b) (system pong) e = absurd (ground (arith, e))
message_to_py-Alike (system (exit info)) (user b') e = absurd (ground (arith, e))
message_to_py-Alike (system (exit info)) (system (exit info')) e =
    exit-Alike info info' (ground (arith, e)) (ground (arith, e)) (ground (arith, e))
message_to_py-Alike (system (exit info)) (system (hot_swap p')) e = absurd (ground (arith, e))
message_to_py-Alike (system (exit info)) (system ping) e = absurd (ground (arith, e))
message_to_py-Alike (system (exit info)) (system pong) e = absurd (ground (arith, e))
message_to_py-Alike (system (hot_swap p)) (user b') e = absurd (ground (arith, e))
message_to_py-Alike (system (hot_swap p)) (system (exit info')) e = absurd (ground (arith, e))
message_to_py-Alike (system (hot_swap p)) (system (hot_swap p')) e = any_swap p p'
message_to_py-Alike (system (hot_swap p)) (system ping) e = absurd (ground (arith, e))
message_to_py-Alike (system (hot_swap p)) (system pong) e = absurd (ground (arith, e))
message_to_py-Alike (system ping) (user b') e = absurd (ground (arith, e))
message_to_py-Alike (system ping) (system (exit info')) e = absurd (ground (arith, e))
message_to_py-Alike (system ping) (system (hot_swap p')) e = absurd (ground (arith, e))
message_to_py-Alike (system ping) (system ping) e = same_ping
message_to_py-Alike (system ping) (system pong) e = absurd (ground (arith, e))
message_to_py-Alike (system pong) (user b') e = absurd (ground (arith, e))
message_to_py-Alike (system pong) (system (exit info')) e = absurd (ground (arith, e))
message_to_py-Alike (system pong) (system (hot_swap p')) e = absurd (ground (arith, e))
message_to_py-Alike (system pong) (system ping) e = absurd (ground (arith, e))
message_to_py-Alike (system pong) (system pong) e = same_pong

of_Alike : {m k : Message} → Alike m k → message_to_py m ≡ message_to_py k
unfolding message_to_py
of_Alike (same_user b) = refl
of_Alike (any_swap p q) = refl
of_Alike same_ping = refl
of_Alike same_pong = refl
of_Alike (same_exit from metadata r s t e f) =
    ap
      (λ reason. py_system (record {
        type_name = exit_name;
        target_pid = some from;
        reason = reason;
        metadata = metadata;
      }))
      (reason_text-Reads e ∙ sym (reason_text-Reads f))

-- Two messages are the same object to Python exactly when they are alike: they agree in all but the
-- pointer of a new handler, and the reasons of exits agree as texts: the names of the known ones, and
-- the text of another one itself.
pub message_to_py_iff : (m k : Message) → (message_to_py m ≡ message_to_py k) ↔ Alike m k
message_to_py_iff m k = (message_to_py-Alike m k, of_Alike)
