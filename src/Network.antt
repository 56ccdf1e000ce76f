-- ===== src/Network.antt =====
-- src/network.rs: the wire protocol. What a connection reads comes from a reader that may give the
-- bytes in any pieces; the runtime is an interface; what is written is kept.
use mathlib.Core.Option
use myrmidon.Base.{
  ℕ, zero, suc, ◌+◌, ◌-◌, ◌*◌, ◌/◌, ◌%◌, ◌^◌, Bool, true, false, Option, none, some, List, [], ◌∷◌,
  ◌++◌, ◌==◌, ◌≡◌, ltb, leb, ◌&&◌, if◌then◌else◌, Result, ok, err, length, take, drop,
}
use myrmidon.Base.BigEndian.{to_be_bytes, from_be_bytes}
use myrmidon.Deps.BufMut.{BufMut}
use myrmidon.Deps.Reader.{ErrorKind, Ending, Reader, closed, failed, elapsed}
pub mod Reading
pub mod Connection
pub mod Refusal
pub mod Resolving
pub mod Totality
pub mod Serving
pub mod Arrival
pub mod Monitor
pub mod Peers
mod Tests

abbrev pub Bytes : Type 0
Bytes = List ℕ

abbrev pub protocol_version : ℕ
protocol_version = 1

pub data MessageType : Type 0 where
  user resolve ping : MessageType

-- `mt as u8`, and `try_from`.
abbrev pub to_byte : MessageType → ℕ
to_byte user = 0
to_byte resolve = 1
to_byte ping = 2

abbrev pub try_from : ℕ → Option MessageType
try_from b =
    if b == 0
    then some user
    else if b == 1
    then some resolve
    else if b == 2
    then some ping
    else none

-- The `u8` read into a buffer of one byte.
abbrev pub byte_of : Bytes → ℕ
byte_of [] = 0
byte_of (b ∷ bs) = b

-- What a first byte of a character in UTF-8 asks for: so many bytes more, the next in a range.
abbrev pub lead : ℕ → Option (ℕ × ℕ × ℕ)
lead b =
    if ltb b 0x80
    then some (0, 0, 0)
    else if ltb b 0xc2
    then none
    else if ltb b 0xe0
    then some (1, 0x80, 0xbf)
    else if b == 0xe0
    then some (2, 0xa0, 0xbf)
    else if b == 0xed
    then some (2, 0x80, 0x9f)
    else if ltb b 0xf0
    then some (2, 0x80, 0xbf)
    else if b == 0xf0
    then some (3, 0x90, 0xbf)
    else if ltb b 0xf4
    then some (3, 0x80, 0xbf)
    else if b == 0xf4
    then some (3, 0x80, 0x8f)
    else none

utf8_from : ℕ → ℕ → ℕ → Bytes → Bool
utf8_from zero lo hi [] = true
utf8_from (suc more) lo hi [] = false
utf8_from zero lo hi (b ∷ s) = elim (lead b) [
  | none ↦ false
  | some (more, next_lo, next_hi) ↦ utf8_from more next_lo next_hi s
]
utf8_from (suc more) lo hi (b ∷ s) = leb lo b && leb b hi && utf8_from more 0x80 0xbf s

-- Whether `String::from_utf8` is `Ok`.
unfoldable pub is_utf8 : Bytes → Bool
unfolding utf8_from
is_utf8 = utf8_from 0 0 0

abbrev pub unwrap_or : ℕ → Option ℕ → ℕ
unwrap_or n none = n
unwrap_or n (some m) = m

-- What `write_all` under its timeout gives.
pub data WriteOutcome : Type 0 where
  complete late : WriteOutcome
  write_failed : ErrorKind → WriteOutcome

-- What the network calls of the runtime. A message changes no limit.
pub record Node : Type 1 where
  pub State : Type 0
  pub send : State → ℕ → Bytes → State
  pub resolve_name : State → Bytes → Option ℕ
  pub max_payload : State → ℕ
  pub max_name_len : State → ℕ
  pub max_payload-send :
      (st : State) (pid : ℕ) (payload : Bytes) → max_payload (send st pid payload) ≡ max_payload st

abbrev pub kind_of : Ending → ErrorKind
kind_of closed = ErrorKind.unexpected_eof
kind_of (failed kind) = kind
kind_of elapsed = ErrorKind.timed_out

module _ (r : Reader) where
  -- The loop, with the bytes still to be read and those in the buffer; `none` when fuel runs out.
  pub read_loop : ℕ → r.Source → ℕ → Bytes → Option (Result Bytes ErrorKind × r.Source)
  read_loop fuel s zero buf = some (ok buf, s)
  read_loop zero s (suc k) buf = none
  read_loop (suc fuel) s (suc k) buf =
      let (outcome, after) = r.read s (suc k) in
      elim outcome [
        | err e ↦ some (err (kind_of e), after)
        | ok chunk ↦ read_loop fuel after (suc k - length chunk) (buf ++ chunk)
      ]

  -- Each read gives a byte at least, so the length of the buffer is fuel enough.
  unfoldable pub read_exact_with_timeout : r.Source → ℕ → Option (Result Bytes ErrorKind × r.Source)
  unfolding read_loop
  read_exact_with_timeout s len = read_loop len s len []

  module _ (node : Node) where
    -- A connection: the runtime, the reading half, what was written, and what the next writes give;
    -- writes past the end of that list succeed.
    pub record Conn : Type 0 where
      pub state : node.State
      pub source : r.Source
      pub written : Bytes
      pub outcomes : List WriteOutcome

    -- What a piece of code gives, unless its fuel runs out.
    abbrev pub Outcome : Type 0 → Type 0
    Outcome A = Option (Result A ErrorKind × Conn)

    -- The operator `?`.
    abbrev pub and_then : {A B : Type 0} → Outcome A → (A → Conn → Outcome B) → Outcome B
    and_then none f = none
    and_then (some (err e, conn)) f = some (err e, conn)
    and_then (some (ok a, conn)) f = f a conn

    pub read_exact : Conn → ℕ → Outcome Bytes
    read_exact conn len =
        Option.map (λ (read, source). (read, record conn { source = source }))
          (read_exact_with_timeout conn.source len)

    pub write_all : Conn → Bytes → Outcome (Unit {0})
    write_all conn buf = elim conn.outcomes [
      | [] ↦ some (ok tt, record conn { written = conn.written ++ buf })
      | outcome ∷ outcomes ↦
          let after = record conn { outcomes = outcomes } in
          elim outcome [
            | complete ↦ some (ok tt, record after { written = conn.written ++ buf })
            | late ↦ some (err ErrorKind.timed_out, after)
            | write_failed kind ↦ some (err kind, after)
          ]
    ]

    -- A frame of type `User` behind its header byte.
    pub user_frame : Conn → Outcome (Unit {0})
    user_frame conn = and_then (read_exact conn 12) (λ meta conn.
        let pid = from_be_bytes (take 8 meta) in
        let len = from_be_bytes (drop 8 meta) in
        if ltb (node.max_payload conn.state) len
        then some (err ErrorKind.invalid_data, conn)
        else and_then (read_exact conn len) (λ payload conn.
          some (ok tt, record conn { state = node.send conn.state pid payload })))

    -- A frame of type `Resolve` behind its header byte.
    pub resolve_frame : Conn → Outcome (Unit {0})
    resolve_frame conn = and_then (read_exact conn 4) (λ len_buf conn.
        let len = from_be_bytes len_buf in
        if ltb (node.max_name_len conn.state) len
        then some (err ErrorKind.invalid_data, conn)
        else and_then (read_exact conn len) (λ name conn.
          if is_utf8 name
          then write_all conn (to_be_bytes 8 (unwrap_or 0 (node.resolve_name conn.state name)))
          else some (err ErrorKind.invalid_data, conn)))

    pub frame : MessageType → Conn → Outcome (Unit {0})
    frame user conn = user_frame conn
    frame resolve conn = resolve_frame conn
    frame ping conn = write_all conn (3 ∷ [])

    -- The loop over the frames; a read that fails at a header ends it well.
    pub frames : ℕ → Conn → Outcome (Unit {0})
    frames zero conn = none
    frames (suc fuel) conn = elim (read_exact conn 1) [
      | none ↦ none
      | some (err e, conn) ↦ some (ok tt, conn)
      | some (ok header, conn) ↦ elim (try_from (byte_of header)) [
        | none ↦ some (err ErrorKind.invalid_data, conn)
        | some msg_type ↦ and_then (frame msg_type conn) (λ done conn. frames fuel conn)
      ]
    ]

    pub handle_connection : ℕ → Conn → Outcome (Unit {0})
    handle_connection fuel conn = and_then (read_exact conn 1) (λ version conn.
        if byte_of version == protocol_version
        then frames fuel conn
        else some (err ErrorKind.invalid_data, conn))

-- The frame that `send_remote` hands to the connection of the peer, or its error.
module _ (b : BufMut) where
  pub user_message : ℕ → Bytes → Bytes
  user_message pid payload =
      let buf = b.put_u64 (b.put_u8 (b.with_capacity (13 + length payload)) (to_byte user)) pid in
      b.freeze (b.put_slice (b.put_u32 buf (length payload % 2 ^ 32)) payload)

  unfoldable pub remote_frame : ℕ → ℕ → Bytes → Result Bytes ErrorKind
  unfolding user_message
  remote_frame max_payload pid payload =
      if ltb max_payload (length payload)
      then err ErrorKind.invalid_input
      else ok (user_message pid payload)

-- What `resolve_remote` writes, and its error when the name is too long; the version and the type are
-- on the wire by then.
unfoldable pub resolve_request : ℕ → Bytes → Bytes × Result (Unit {0}) ErrorKind
resolve_request max_name_len name =
    let start = protocol_version ∷ to_byte resolve ∷ [] in
    if ltb max_name_len (length name)
    then (start, err ErrorKind.invalid_input)
    else (start ++ (to_be_bytes 4 (length name % 2 ^ 32) ++ name), ok tt)

-- The rest of `resolve_remote`: the eight bytes of the answer.
unfoldable pub resolve_answer : (r : Reader) → r.Source → Option (Result ℕ ErrorKind × r.Source)
resolve_answer r s =
    Option.map
      (λ (read, after).
        (elim read [ err e ↦ err e | ok pid_buf ↦ ok (from_be_bytes pid_buf) ], after))
      (read_exact_with_timeout r s 8)

-- What `resolve_remote_async` of src/lib.rs makes of it.
unfoldable pub resolve_remote_async : Result ℕ ErrorKind → Option ℕ
resolve_remote_async (err e) = none
resolve_remote_async (ok zero) = none
resolve_remote_async (ok (suc pid)) = some (suc pid)
