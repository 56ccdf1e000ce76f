-- ===== src/Network/Resolving.antt =====
-- A remote resolve of src/network.rs, from the name asked for to the identifier learnt.
use myrmidon.Base.{
  ℕ, zero, suc, ◌%◌, ◌^◌, ◌≤◌, ◌<◌, ◌≡◌, refl, sym, ap, ◌∙◌, true, false, Option, none, some, [],
  ◌∷◌, ◌++◌, ltb, ok, length, take, arith, ◌≢◌,
}
use mathlib.Core.List.{append-nil}
use myrmidon.Base.BigEndian.{
  to_be_bytes, from_be_bytes, length-to_be_bytes, from_be_bytes-to_be_bytes,
}
use myrmidon.Deps.Reader.{Reader}
use myrmidon.Network.{
  Bytes, Node, Conn, resolve_frame, frame, frames, write_all, is_utf8, unwrap_or, resolve_request,
  resolve_answer, resolve_remote_async, handle_connection,
}
use myrmidon.Network.Reading.{full, cut, read_exact-Reads}
use myrmidon.Network.Connection.{take_front, read_front, read_nothing}

answer_lem :
    (r : Reader) (s : r.Source) (pid : ℕ)
    → pid < 2 ^ 64
    → r.incoming s ≡ to_be_bytes 8 pid
    → (last : r.Source) × (resolve_answer r s ≡ some (ok pid, last))
unfolding resolve_answer
answer_lem r s pid small h = elim (read_exact-Reads r s 8) [
  | full after enough eq left ending ↦
      let all : take 8 (r.incoming s) ≡ to_be_bytes 8 pid =
        ap (take 8) (h ∙ sym (append-nil (to_be_bytes 8 pid)))
        ∙ take_front (to_be_bytes 8 pid) [] 8 (sym (length-to_be_bytes 8 pid)) in
      (
        after,
        rw eq (
            ap (λ l. some (ok (from_be_bytes l), after)) all
            ∙ ap (λ k. some (ok k, after)) (from_be_bytes-to_be_bytes 8 pid small)),
      )
  | cut after short eq left ↦ absurd (omega (arith, short, ap length h, length-to_be_bytes 8 pid))
]

-- The identifier 0 on the wire stands for no identifier.
read_found :
    (found : Option ℕ) → found ≢ some 0 → resolve_remote_async (ok (unwrap_or 0 found)) ≡ found
unfolding resolve_remote_async
read_found none h = refl
read_found (some zero) h = absurd (h refl)
read_found (some (suc pid)) h = refl

module _ (r : Reader) (node : Node) where
  write_done :
      (conn : Conn r node) (buf : Bytes)
      → conn.outcomes ≡ []
      → write_all r node conn buf ≡ some (ok tt, record conn { written = conn.written ++ buf })
  unfolding write_all
  write_done conn buf e = ground arith

  resolve_frame_lem :
      (conn : Conn r node) (name rest : Bytes)
      → is_utf8 name ≡ true
      → length name < 2 ^ 32
      → length name ≤ node.max_name_len conn.state
      → conn.outcomes ≡ []
      → r.incoming conn.source ≡ to_be_bytes 4 (length name) ++ (name ++ rest)
      → (after : r.Source) × (resolve_frame r node conn
          ≡ some (
            ok tt,
            record conn {
              source = after;
              written =
                  conn.written ++ to_be_bytes 8 (unwrap_or 0 (node.resolve_name conn.state name));
            },
          ))
        × (r.incoming after ≡ rest)
  unfolding resolve_frame
  resolve_frame_lem conn name rest valid short allowed writes h =
      let len = length name in
      let (after, read_len, left) =
        read_front r node conn (to_be_bytes 4 len) (name ++ rest) 4 (sym (length-to_be_bytes 4 len))
          h in
      let (last, read_name, left') =
        read_front r node (record conn { source = after }) name rest len refl left in
      let len_is : from_be_bytes (to_be_bytes 4 len) ≡ len =
        from_be_bytes-to_be_bytes 4 len short in
      let fits : ltb (node.max_name_len conn.state) len ≡ false = ground arith in
      (
        last,
        rw (read_len, resolve_frame)
            (rw (len_is, fits) (rw read_name (rw valid (write_done _ _ writes)))),
        left',
      )

  frames_end :
      (fuel : ℕ) (conn : Conn r node)
      → r.incoming conn.source ≡ []
      → (after : r.Source) × (frames r node (suc fuel) conn
          ≡ some (ok tt, record conn { source = after }))
  unfolding frames
  frames_end fuel conn h =
      let (after, ended) = read_nothing r node conn 0 h in (after, rw (ended, frames) refl)

  request_lem :
      (limit : ℕ) (name : Bytes)
      → length name < 2 ^ 32
      → length name ≤ limit
      → resolve_request limit name ≡ (1 ∷ 1 ∷ (to_be_bytes 4 (length name) ++ name), ok tt)
  unfolding resolve_request
  request_lem limit name short allowed =
      let lets : ltb limit (length name) ≡ false = ground arith in
      let fits : length name % 2 ^ 32 ≡ length name = omega arith in
      rw (lets, fits, resolve_request) refl

  -- A node that gets the request of `resolve_remote` for a name in UTF-8 within 32 bits and both
  -- limits, and whose writes succeed, answers with the identifier of the name or 0, sends nothing
  -- to any actor and ends well, with fuel for two rounds; from that answer, an identifier below 2 ^
  -- 64, the client learns what the name resolves to on the node, unless that is the identifier 0.
  pub resolve_remote-answered :
      (fuel limit : ℕ) (conn : Conn r node) (name : Bytes) (answered : r.Source)
      → let found = node.resolve_name conn.state name in
        is_utf8 name ≡ true
        → length name < 2 ^ 32
        → length name ≤ node.max_name_len conn.state
        → length name ≤ limit
        → conn.outcomes ≡ []
        → r.incoming conn.source ≡ (resolve_request limit name).0
        → r.incoming answered ≡ to_be_bytes 8 (unwrap_or 0 found)
        → unwrap_or 0 found < 2 ^ 64
        → found ≢ some 0
        → (after : r.Source) × (last : r.Source) × (pid : ℕ) × ((resolve_request limit name).1
            ≡ ok tt)
          × (handle_connection r node (suc (suc fuel)) conn
              ≡ some (
                ok tt,
                record conn {
                  source = after;
                  written = conn.written ++ to_be_bytes 8 (unwrap_or 0 found);
                },
              ))
          × (resolve_answer r answered ≡ some (ok pid, last))
          × (resolve_remote_async (ok pid) ≡ found)
  unfolding handle_connection frames frame
  resolve_remote-answered fuel limit conn name answered valid short allowed mine writes h a small
        known =
      let found = node.resolve_name conn.state name in
      let request = request_lem limit name short mine in
      let (version_read, version, left) =
        read_front r node conn (1 ∷ []) (1 ∷ (to_be_bytes 4 (length name) ++ name)) 1 refl
          (h ∙ ap (λ q. q.0) request) in
      let (header_read, header, left') =
        read_front r node (record conn { source = version_read }) (1 ∷ [])
          (to_be_bytes 4 (length name) ++ name) 1 refl left in
      let (frame_read, done, nothing) =
        resolve_frame_lem (record conn { source = header_read }) name [] valid short allowed writes
          (left' ∙ ap (λ l. to_be_bytes 4 (length name) ++ l) (sym (append-nil name))) in
      let answer_written = record conn {
        source = frame_read;
        written = conn.written ++ to_be_bytes 8 (unwrap_or 0 found);
      } in
      let (after, ended) = frames_end fuel answer_written nothing in
      let (last, learnt) = answer_lem r answered (unwrap_or 0 found) small a in
      (
        after,
        last,
        unwrap_or 0 found,
        ap (λ q. q.1) request,
        rw version (rw (header, frames) (rw done ended)),
        learnt,
        read_found found known,
      )
