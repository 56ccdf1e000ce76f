-- ===== src/Network/Refusal.antt =====
-- What `handle_connection` of src/network.rs refuses: another version, a payload that is too long.
use myrmidon.Base.{
  ℕ, zero, suc, ◌+◌, ◌-◌, ◌^◌, ◌<◌, ◌≡◌, refl, sym, ap, ◌∙◌, true, false, some, List, [], ◌∷◌, ◌++◌,
  ltb, ◌==◌, err, length, drop, length-append, All, arith, subst,
}
use mathlib.Core.List.{append_assoc}
use myrmidon.Base.BigEndian.{
  to_be_bytes, from_be_bytes, length-to_be_bytes, from_be_bytes-to_be_bytes,
}
use myrmidon.Deps.BufMut.{BufMut}
use myrmidon.Deps.Reader.{ErrorKind, Reader}
use myrmidon.Network.{
  Bytes, protocol_version, Node, Conn, user_frame, frame, frames, handle_connection,
}
use myrmidon.Network.Connection.{
  drop_front, read_front, user_frame_lem, user_message_lem, sent, delivered, Sendable,
}

module _ (b : BufMut) (r : Reader) (node : Node) where
  -- The loop on messages and then something else is the loop on the something else.
  frames-sent :
      (messages : List (ℕ × Bytes)) (fuel left : ℕ) (conn : Conn r node) (tail : Bytes)
      → fuel ≡ length messages + left
      → All (Sendable b r node (node.max_payload conn.state)) messages
      → r.incoming conn.source ≡ sent b messages ++ tail
      → (after : r.Source) × (frames r node fuel conn
          ≡ frames r node left
              (record conn { state = delivered b r node conn.state messages; source = after }))
        × (r.incoming after ≡ tail)
  unfolding frames frame sent delivered
  frames-sent [] fuel left conn tail lt fit h =
      (conn.source, ap (λ k. frames r node k conn) (lt ∙ omega arith), h)
  frames-sent (message ∷ messages) zero left conn tail lt fit h = absurd (omega (arith, lt))
  frames-sent ((pid, payload) ∷ messages) (suc fuel) left conn tail lt (fit, fits) h =
      let meta = to_be_bytes 8 pid ++ to_be_bytes 4 (length payload) in
      let rest = sent b messages ++ tail in
      let wire : r.incoming conn.source ≡ 0 ∷ (meta ++ (payload ++ rest)) =
        h
        ∙ ap (λ l. (l ++ sent b messages) ++ tail) (user_message_lem b pid payload fit.length_fits)
        ∙ append_assoc (0 ∷ (meta ++ payload)) (sent b messages) tail
        ∙ ap (λ l. 0 ∷ l) (append_assoc meta payload rest) in
      let (header_read, header, unread) =
        read_front r node conn (0 ∷ []) (meta ++ (payload ++ rest)) 1 refl wire in
      let (frame_read, done, unread') =
        user_frame_lem r node (record conn { source = header_read }) pid payload rest fit.pid_fits
          fit.length_fits fit.allowed unread in
      let next = record conn { state = node.send conn.state pid payload; source = frame_read } in
      let (after, same, at_tail) =
        frames-sent messages fuel left next tail (omega (arith, lt))
          (subst (λ k. All (Sendable b r node k) messages)
            (sym (node.max_payload-send conn.state pid payload)) fits)
          unread' in
      (after, rw (header, frames) (rw done same), at_tail)

  -- A frame whose length is over the limit, behind messages that are within it, ends the connection
  -- with an error: the messages before it have been sent and it has not, and nothing is written.
  -- Identifiers fit 64 bits and lengths 32, and there is more fuel than there are messages.
  pub handle_connection-too_large :
      (messages : List (ℕ × Bytes)) (fuel : ℕ) (conn : Conn r node) (pid len : ℕ) (rest : Bytes)
      → length messages < fuel
      → All (Sendable b r node (node.max_payload conn.state)) messages
      → pid < 2 ^ 64
      → len < 2 ^ 32
      → node.max_payload (delivered b r node conn.state messages) < len
      → r.incoming conn.source
        ≡ protocol_version
          ∷ (sent b messages ++ (0 ∷ ((to_be_bytes 8 pid ++ to_be_bytes 4 len) ++ rest)))
      → (after : r.Source) × (handle_connection r node fuel conn
          ≡ some (
            err ErrorKind.invalid_data,
            record conn { state = delivered b r node conn.state messages; source = after },
          ))
  unfolding handle_connection frames frame user_frame
  handle_connection-too_large messages fuel conn pid len rest lt fit small short over h =
      let meta = to_be_bytes 8 pid ++ to_be_bytes 4 len in
      let tail = 0 ∷ (meta ++ rest) in
      let (version_read, version, unread) =
        read_front r node conn (1 ∷ []) (sent b messages ++ tail) 1 refl h in
      let k = fuel - suc (length messages) in
      let (sent_read, same, at_tail) =
        frames-sent messages fuel (suc k) (record conn { source = version_read }) tail
          (omega (arith, lt)) fit unread in
      let left = record conn {
        state = delivered b r node conn.state messages;
        source = sent_read;
      } in
      let (header_read, header, at_meta) =
        read_front r node left (0 ∷ []) (meta ++ rest) 1 refl at_tail in
      let (meta_read, read_meta, at_rest) =
        read_front r node (record left { source = header_read }) meta rest 12
          (omega (
            arith,
            length-append (to_be_bytes 8 pid) (to_be_bytes 4 len),
            length-to_be_bytes 8 pid,
            length-to_be_bytes 4 len,
          ))
          at_meta in
      let len_is : from_be_bytes (drop 8 meta) ≡ len =
        ap from_be_bytes
          (drop_front (to_be_bytes 8 pid) (to_be_bytes 4 len) 8 (sym (length-to_be_bytes 8 pid)))
        ∙ from_be_bytes-to_be_bytes 4 len short in
      let too_large : ltb (node.max_payload left.state) len ≡ true = ground (arith, over) in
      (
        meta_read,
        rw version (rw same (rw (header, frames) (rw read_meta (rw (len_is, too_large) refl)))),
      )

  -- A peer of another version is refused before anything it says is read further: no message is sent,
  -- nothing is written.
  pub handle_connection-version :
      (fuel version : ℕ) (conn : Conn r node) (rest : Bytes)
      → (version == protocol_version) ≡ false
      → r.incoming conn.source ≡ version ∷ rest
      → (after : r.Source) × (r.incoming after ≡ rest)
        × (handle_connection r node fuel conn
            ≡ some (err ErrorKind.invalid_data, record conn { source = after }))
  unfolding handle_connection
  handle_connection-version fuel version conn rest other h =
      let (version_read, read, unread) = read_front r node conn (version ∷ []) rest 1 refl h in
      (version_read, unread, rw read (rw other refl))
