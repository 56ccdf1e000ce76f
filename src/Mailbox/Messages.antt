-- ===== src/Mailbox/Messages.antt =====
-- src/mailbox.rs: the messages. Texts and payloads are lists of bytes.
use myrmidon.Base.{ℕ, Bool, true, false, Option, List}

abbrev pub Text : Type 0
Text = List ℕ

abbrev pub Bytes : Type 0
Bytes = List ℕ

pub data ExitReason : Type 0 where
  normal panic timeout killed oom : ExitReason
  other : Text → ExitReason

pub record ExitInfo : Type 0 where
  pub from : ℕ
  pub reason : ExitReason
  pub metadata : Option Text

pub data SystemMessage : Type 0 where
  exit : ExitInfo → SystemMessage
  hot_swap : ℕ → SystemMessage
  ping pong : SystemMessage

pub data Message : Type 0 where
  user : Bytes → Message
  system : SystemMessage → Message

-- `matches!(m, Message::System(_))` and `matches!(m, Message::User(_))`.
abbrev pub is_system : Message → Bool
is_system (user b) = false
is_system (system s) = true

abbrev pub is_user : Message → Bool
is_user (user b) = true
is_user (system s) = false
