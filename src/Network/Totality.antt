-- ===== src/Network/Totality.antt =====
-- Every connection of src/network.rs ends, whatever comes in.
use myrmidon.Base.{
  ℕ, zero, suc, ◌+◌, ◌-◌, ◌≤◌, ◌<◌, ◌≡◌, refl, ap, inl, inr, Option, none, some, List, [], ◌∷◌, ltb,
  ◌==◌, Result, ok, err, length, take, drop, arith, Bool-cases, List-cases,
}
use myrmidon.Base.BigEndian.{from_be_bytes}
use myrmidon.Deps.Reader.{ErrorKind, Reader}
use myrmidon.Network.{
  Bytes, kind_of, MessageType, user, resolve, ping, try_from, byte_of, protocol_version, is_utf8,
  Node, Conn, Outcome, WriteOutcome, complete, late, write_failed, and_then, read_exact, write_all,
  user_frame, resolve_frame, frame, frames, handle_connection,
}
use myrmidon.Network.Reading.{full, cut, read_exact-Reads}

length-drop : (n : ℕ) (xs : Bytes) → length (drop n xs) ≡ length xs - n
length-drop zero xs = omega arith
length-drop (suc n) [] = omega arith
length-drop (suc n) (x ∷ xs) = omega (arith, length-drop n xs)

module _ (r : Reader) (node : Node) where
  abbrev pub unread : Conn r node → ℕ
  unread conn = length (r.incoming conn.source)

  -- A piece of code comes to a result with at most so many bytes unread.
  pub record Within (A : Type 0) (bound : ℕ) (outcome : Outcome r node A) : Type 0 where
    pub result : Result A ErrorKind
    pub after : Conn r node
    pub gives : outcome ≡ some (result, after)
    pub left : unread after ≤ bound

  and_then-Within :
      {A B : Type 0} (bound : ℕ) (outcome : Outcome r node A)
      (f : A → Conn r node → Outcome r node B)
      → Within A bound outcome
      → ((a : A) (conn : Conn r node) → unread conn ≤ bound → Within B bound (f a conn))
      → Within B bound (and_then r node outcome f)
  and_then-Within {A} {B} bound outcome f w next = by_result w.result w.gives
    where
      by_result :
          (result : Result A ErrorKind)
          → outcome ≡ some (result, w.after)
          → Within B bound (and_then r node outcome f)
      by_result (ok a) e = rw e (next a w.after w.left)
      by_result (err kind) e =
          rw e (record { result = err kind; after = w.after; gives = refl; left = w.left })

  read_exact-Within :
      (conn : Conn r node) (n bound : ℕ)
      → unread conn ≤ bound
      → Within Bytes bound (read_exact r node conn n)
  unfolding read_exact
  read_exact-Within conn n bound h = elim (read_exact-Reads r conn.source n) [
    | full after enough eq left ending ↦ rw eq (record {
      result = ok (take n (r.incoming conn.source));
      after = record conn { source = after };
      gives = refl;
      left = omega (arith, ap length left, length-drop n (r.incoming conn.source), h);
    })
    | cut after short eq left ↦ rw eq (record {
      result = err (kind_of (r.ending conn.source));
      after = record conn { source = after };
      gives = refl;
      left = omega (arith, ap length left);
    })
  ]

  now :
      {A : Type 0} (bound : ℕ) (result : Result A ErrorKind) (conn : Conn r node)
      → unread conn ≤ bound
      → Within A bound (some (result, conn))
  now bound result conn h = record { result = result; after = conn; gives = refl; left = h }

  write_all-Within :
      (conn : Conn r node) (buf : Bytes) (bound : ℕ)
      → unread conn ≤ bound
      → Within (Unit {0}) bound (write_all r node conn buf)
  unfolding write_all
  write_all-Within conn buf bound h = elim (List-cases conn.outcomes) [
    | inl e ↦ rw (e, write_all) (now bound (ok tt) _ h)
    | inr l ↦ rw (l.eq, write_all) (by_outcome l.first l.rest)
  ]
    where
      by_outcome :
          (outcome : WriteOutcome) (outcomes : List WriteOutcome)
          → Within
              (Unit {0})
              bound
              (write_all r node (record conn { outcomes = outcome ∷ outcomes }) buf)
      by_outcome complete outcomes = now bound (ok tt) _ h
      by_outcome late outcomes = now bound (err ErrorKind.timed_out) _ h
      by_outcome (write_failed kind) outcomes = now bound (err kind) _ h

  user_frame-Within :
      (conn : Conn r node) (bound : ℕ)
      → unread conn ≤ bound
      → Within (Unit {0}) bound (user_frame r node conn)
  unfolding user_frame
  user_frame-Within conn bound h =
      and_then-Within bound _ _ (read_exact-Within conn 12 bound h) (λ meta conn' h'.
        elim (Bool-cases (ltb (node.max_payload conn'.state) (from_be_bytes (drop 8 meta)))) [
          | inl over ↦ rw over (now bound (err ErrorKind.invalid_data) conn' h')
          | inr fits ↦ rw fits (
              and_then-Within bound _ _
                (read_exact-Within conn' (from_be_bytes (drop 8 meta)) bound h')
                (λ payload conn'' h''. now bound (ok tt) _ h''))
        ])

  resolve_frame-Within :
      (conn : Conn r node) (bound : ℕ)
      → unread conn ≤ bound
      → Within (Unit {0}) bound (resolve_frame r node conn)
  unfolding resolve_frame
  resolve_frame-Within conn bound h =
      and_then-Within bound _ _ (read_exact-Within conn 4 bound h) (λ len_buf conn' h'.
        elim (Bool-cases (ltb (node.max_name_len conn'.state) (from_be_bytes len_buf))) [
          | inl over ↦ rw over (now bound (err ErrorKind.invalid_data) conn' h')
          | inr fits ↦ rw fits (
              and_then-Within bound _ _ (read_exact-Within conn' (from_be_bytes len_buf) bound h')
                (λ name conn'' h''. elim (Bool-cases (is_utf8 name)) [
                  | inl valid ↦ rw valid (write_all-Within conn'' _ bound h'')
                  | inr invalid ↦ rw invalid (now bound (err ErrorKind.invalid_data) conn'' h'')
                ]))
        ])

  frame-Within :
      (msg_type : MessageType) (conn : Conn r node) (bound : ℕ)
      → unread conn ≤ bound
      → Within (Unit {0}) bound (frame r node msg_type conn)
  unfolding frame
  frame-Within user conn bound h = user_frame-Within conn bound h
  frame-Within resolve conn bound h = resolve_frame-Within conn bound h
  frame-Within ping conn bound h = write_all-Within conn (3 ∷ []) bound h

  widen :
      {A : Type 0} {small big : ℕ} {outcome : Outcome r node A}
      → Within A small outcome
      → small ≤ big
      → Within A big outcome
  widen w h = record {
    result = w.result;
    after = w.after;
    gives = w.gives;
    left = omega (arith, w.left, h);
  }

  -- A frame behind its header, and the rounds after it.
  by_type :
      (fuel : ℕ) (conn : Conn r node) (bound : ℕ)
      → unread conn ≤ bound
      → ((next : Conn r node)
          → unread next ≤ unread conn
          → Within (Unit {0}) bound (frames r node fuel next))
      → (msg_type : Option MessageType)
      → Within (Unit {0}) bound (elim msg_type [
        | none ↦ some (err ErrorKind.invalid_data, conn)
        | some mt ↦ and_then r node (frame r node mt conn) (λ done next. frames r node fuel next)
      ])
  by_type fuel conn bound h next none = now bound (err ErrorKind.invalid_data) conn h
  by_type fuel conn bound h next (some mt) =
      let w = frame-Within mt conn (unread conn) (omega arith) in by_result w.result w.gives w.left
    where
      by_result :
          {after : Conn r node} (result : Result (Unit {0}) ErrorKind)
          → frame r node mt conn ≡ some (result, after)
          → unread after ≤ unread conn
          → Within
              (Unit {0})
              bound
              (and_then r node (frame r node mt conn) (λ done next. frames r node fuel next))
      by_result {after} (ok done) e left = rw e (next after left)
      by_result {after} (err kind) e left =
          rw e (now bound (err kind) after (omega (arith, left, h)))

  frames-Within :
      (fuel : ℕ) (conn : Conn r node)
      → unread conn < fuel
      → Within (Unit {0}) (unread conn) (frames r node fuel conn)
  unfolding frames read_exact
  frames-Within zero conn h = absurd (omega arith)
  frames-Within (suc fuel) conn h = elim (read_exact-Reads r conn.source 1) [
    | cut after short eq left ↦
        rw (eq, frames)
          (now (unread conn) (ok tt) (record conn { source = after })
            (omega (arith, ap length left)))
    | full after enough eq left ending ↦
        let less : length (r.incoming after) + 1 ≡ unread conn =
          omega (arith, enough, ap length left, length-drop 1 (r.incoming conn.source)) in
        let conn' = record conn { source = after } in
        rw (eq, frames)
          (by_type fuel conn' (unread conn) (omega (arith, less))
            (λ next h'.
              widen (frames-Within fuel next (omega (arith, less, h, h')))
                (omega (arith, less, h')))
            (try_from (byte_of (take 1 (r.incoming conn.source)))))
  ]

  -- Whatever comes in, in whatever pieces, and however it ends, a connection comes to a result, with
  -- fuel for one frame more than there are bytes.
  pub handle_connection-Within :
      (fuel : ℕ) (conn : Conn r node)
      → unread conn < fuel
      → Within (Unit {0}) (unread conn) (handle_connection r node fuel conn)
  unfolding handle_connection
  handle_connection-Within fuel conn h =
      and_then-Within (unread conn) _ _ (read_exact-Within conn 1 (unread conn) (omega arith))
        (λ version conn' h'. elim (Bool-cases (byte_of version == protocol_version)) [
          | inl same ↦ rw same (widen (frames-Within fuel conn' (omega (arith, h, h'))) h')
          | inr other ↦ rw other (now (unread conn) (err ErrorKind.invalid_data) conn' h')
        ])
