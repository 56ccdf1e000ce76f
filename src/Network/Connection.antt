-- ===== src/Network/Connection.antt =====
-- What `send_remote` of src/network.rs writes, `handle_connection` reads.
use myrmidon.Base.{
  ℕ, zero, suc, ◌+◌, ◌-◌, ◌%◌, ◌^◌, ◌≤◌, ◌<◌, ◌≡◌, refl, sym, ap, ◌∙◌, false, some, List, [], ◌∷◌,
  ◌++◌, ltb, ok, err, length, take, drop, length-append, All, arith, subst,
}
use mathlib.Core.List.{append-nil, append_assoc}
use myrmidon.Base.BigEndian.{
  to_be_bytes, from_be_bytes, length-to_be_bytes, from_be_bytes-to_be_bytes,
}
use myrmidon.Deps.BufMut.{BufMut}
use myrmidon.Deps.Reader.{Reader}
use myrmidon.Network.{
  Bytes, kind_of, protocol_version, Node, Conn, read_exact, user_frame, frame, frames,
  handle_connection, user_message,
}
use myrmidon.Network.Reading.{full, cut, read_exact-Reads, take-append, drop-append}

pub take_front : (xs ys : Bytes) (n : ℕ) → n ≡ length xs → take n (xs ++ ys) ≡ xs
take_front xs ys n e =
    let none_left : n - length xs ≡ 0 = omega (arith, e) in
    take-append n xs ys (omega (arith, e)) ∙ ap (λ k. xs ++ take k ys) none_left ∙ append-nil xs

pub drop_front : (xs ys : Bytes) (n : ℕ) → n ≡ length xs → drop n (xs ++ ys) ≡ ys
drop_front xs ys n e =
    let none_left : n - length xs ≡ 0 = omega (arith, e) in
    drop-append n xs ys (omega (arith, e)) ∙ ap (λ k. drop k ys) none_left

module _ (r : Reader) (node : Node) where
  -- Bytes that are there are read.
  pub read_front :
      (conn : Conn r node) (front rest : Bytes) (n : ℕ)
      → n ≡ length front
      → r.incoming conn.source ≡ front ++ rest
      → (after : r.Source) × (read_exact r node conn n
          ≡ some (ok front, record conn { source = after }))
        × (r.incoming after ≡ rest)
  unfolding read_exact
  read_front conn front rest n e h = elim (read_exact-Reads r conn.source n) [
    | full after enough eq left ending ↦ (
      after,
      rw (eq, h, take_front front rest n e) refl,
      left ∙ ap (drop n) h ∙ drop_front front rest n e,
    )
    | cut after short eq left ↦
        absurd (omega (arith, short, e, ap length h, length-append front rest))
  ]

  -- Where no byte comes, a read fails.
  pub read_nothing :
      (conn : Conn r node) (n : ℕ)
      → r.incoming conn.source ≡ []
      → (after : r.Source) × (read_exact r node conn (suc n)
          ≡ some (err (kind_of (r.ending conn.source)), record conn { source = after }))
  unfolding read_exact
  read_nothing conn n h = elim (read_exact-Reads r conn.source (suc n)) [
    | full after enough eq left ending ↦ absurd (omega (arith, enough, ap length h))
    | cut after short eq left ↦ (after, rw eq refl)
  ]

  -- A user frame behind its header byte sends its payload.
  pub user_frame_lem :
      (conn : Conn r node) (pid : ℕ) (payload rest : Bytes)
      → pid < 2 ^ 64
      → length payload < 2 ^ 32
      → length payload ≤ node.max_payload conn.state
      → r.incoming conn.source
        ≡ (to_be_bytes 8 pid ++ to_be_bytes 4 (length payload)) ++ (payload ++ rest)
      → (after : r.Source) × (user_frame r node conn
          ≡ some (ok tt, record conn { state = node.send conn.state pid payload; source = after }))
        × (r.incoming after ≡ rest)
  unfolding user_frame
  user_frame_lem conn pid payload rest small short allowed h =
      let len = length payload in
      let meta = to_be_bytes 8 pid ++ to_be_bytes 4 len in
      let (after, read_meta, left) =
        read_front conn meta (payload ++ rest) 12
          (omega (
            arith,
            length-append (to_be_bytes 8 pid) (to_be_bytes 4 len),
            length-to_be_bytes 8 pid,
            length-to_be_bytes 4 len,
          ))
          h in
      let (last, read_payload, left') =
        read_front (record conn { source = after }) payload rest len refl left in
      let pid_is : from_be_bytes (take 8 meta) ≡ pid =
        ap from_be_bytes
          (take_front (to_be_bytes 8 pid) (to_be_bytes 4 len) 8 (sym (length-to_be_bytes 8 pid)))
        ∙ from_be_bytes-to_be_bytes 8 pid small in
      let len_is : from_be_bytes (drop 8 meta) ≡ len =
        ap from_be_bytes
          (drop_front (to_be_bytes 8 pid) (to_be_bytes 4 len) 8 (sym (length-to_be_bytes 8 pid)))
        ∙ from_be_bytes-to_be_bytes 4 len short in
      let fits : ltb (node.max_payload conn.state) len ≡ false = ground arith in
      (last, rw (read_meta, user_frame) (rw (pid_is, len_is, fits) (rw read_payload refl)), left')

module _ (b : BufMut) where
  pub user_message_lem :
      (pid : ℕ) (payload : Bytes)
      → length payload < 2 ^ 32
      → user_message b pid payload
        ≡ 0 ∷ ((to_be_bytes 8 pid ++ to_be_bytes 4 (length payload)) ++ payload)
  unfolding user_message
  user_message_lem pid payload short =
      let fits : length payload % 2 ^ 32 ≡ length payload = omega arith in
      let start = b.with_capacity (13 + length payload) in
      let typed = b.put_u8 start 0 in
      let addressed = b.put_u64 typed pid in
      rw (fits, user_message)
        (b.freeze-put_slice (b.put_u32 addressed (length payload)) payload
          ∙ ap (λ l. l ++ payload)
              (b.freeze-put_u32 addressed (length payload)
                ∙ ap (λ l. l ++ to_be_bytes 4 (length payload))
                    (b.freeze-put_u64 typed pid
                      ∙ ap (λ l. l ++ to_be_bytes 8 pid)
                          (b.freeze-put_u8 start 0
                            ∙ ap (λ l. l ++ 0 ∷ [])
                                (b.freeze-with_capacity (13 + length payload))))))

  -- Messages for actors as the peer's connection carries them.
  unfoldable pub sent : List (ℕ × Bytes) → Bytes
  sent [] = []
  sent ((pid, payload) ∷ messages) = user_message b pid payload ++ sent messages

  module _ (r : Reader) (node : Node) where
    -- The runtime that was sent them.
    unfoldable pub delivered : node.State → List (ℕ × Bytes) → node.State
    delivered st [] = st
    delivered st ((pid, payload) ∷ messages) = delivered (node.send st pid payload) messages

    -- What `send_remote` lets through to a node with this limit.
    pub record Sendable (limit : ℕ) (message : ℕ × Bytes) : Type 0 where
      pub pid_fits : message.0 < 2 ^ 64
      pub length_fits : length message.1 < 2 ^ 32
      pub allowed : length message.1 ≤ limit

    frames_lem :
        (messages : List (ℕ × Bytes)) (fuel : ℕ) (conn : Conn r node)
        → length messages < fuel
        → All (Sendable (node.max_payload conn.state)) messages
        → r.incoming conn.source ≡ sent messages
        → (after : r.Source) × (frames r node fuel conn
            ≡ some (ok tt, record conn { state = delivered conn.state messages; source = after }))
    unfolding frames frame sent delivered
    frames_lem messages zero conn lt fit h = absurd (omega arith)
    frames_lem [] (suc fuel) conn lt fit h =
        let (after, nothing) = read_nothing r node conn 0 h in (after, rw (nothing, frames) refl)
    frames_lem ((pid, payload) ∷ messages) (suc fuel) conn lt (fit, fits) h =
        let meta = to_be_bytes 8 pid ++ to_be_bytes 4 (length payload) in
        let wire : r.incoming conn.source ≡ 0 ∷ (meta ++ (payload ++ sent messages)) =
          h
          ∙ ap (λ l. l ++ sent messages) (user_message_lem pid payload fit.length_fits)
          ∙ ap (λ l. 0 ∷ l) (append_assoc meta payload (sent messages)) in
        let (header_read, header, left) =
          read_front r node conn (0 ∷ []) (meta ++ (payload ++ sent messages)) 1 refl wire in
        let (frame_read, done, left') =
          user_frame_lem r node (record conn { source = header_read }) pid payload (sent messages)
            fit.pid_fits fit.length_fits fit.allowed left in
        let next = record conn { state = node.send conn.state pid payload; source = frame_read } in
        let (after, rest) =
          frames_lem messages fuel next (omega (arith, lt))
            (subst (λ k. All (Sendable k) messages)
              (sym (node.max_payload-send conn.state pid payload)) fits)
            left' in
        (after, rw (header, frames) (rw done rest))

    -- A connection that gets the version and then messages framed as `send_remote` frames them, in
    -- whatever pieces, sends each to its actor, in order, with its payload unchanged, writes
    -- nothing and ends well. The identifiers fit 64 bits, the lengths 32 bits and the limit of the
    -- node, and there is fuel for one round more than there are messages.
    pub handle_connection-sent :
        (messages : List (ℕ × Bytes)) (fuel : ℕ) (conn : Conn r node)
        → length messages < fuel
        → All (Sendable (node.max_payload conn.state)) messages
        → r.incoming conn.source ≡ protocol_version ∷ sent messages
        → (after : r.Source) × (handle_connection r node fuel conn
            ≡ some (ok tt, record conn { state = delivered conn.state messages; source = after }))
    unfolding handle_connection
    handle_connection-sent messages fuel conn lt fit h =
        let (version_read, version, left) =
          read_front r node conn (1 ∷ []) (sent messages) 1 refl h in
        let (after, rest) =
          frames_lem messages fuel (record conn { source = version_read }) lt fit left in
        (after, rw version rest)
