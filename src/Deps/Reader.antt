-- ===== src/Deps/Reader.antt =====
-- `AsyncReadExt::read` of tokio under a timeout, as a parameter: what a reader still gets, and how
-- that ends. A call with room gives some of the next bytes, in order, or else the end.
use myrmidon.Base.{ℕ, suc, ◌≤◌, ◌<◌, ◌≡◌, List, [], ◌∷◌, ◌++◌, Result, ok, err, length, arith, refl}

-- `std::io::ErrorKind`, with the operating system's other kinds by number.
pub data ErrorKind : Type 0 where
  unexpected_eof timed_out invalid_data invalid_input connection_aborted : ErrorKind
  other : ℕ → ErrorKind

-- The peer closed, the call failed, or the time was up.
pub data Ending : Type 0 where
  closed : Ending
  failed : ErrorKind → Ending
  elapsed : Ending

-- The next bytes of a source, and the rest.
pub record Chunk (got incoming left : List ℕ) (room : ℕ) : Type 0 where
  pub some_bytes : 0 < length got
  pub has_room : length got ≤ room
  pub in_order : incoming ≡ got ++ left

pub record Reader : Type 1 where
  pub Source : Type 0
  pub incoming : Source → List ℕ
  pub ending : Source → Ending
  pub read : Source → ℕ → Result (List ℕ) Ending × Source
  pub ending-read : (s : Source) (room : ℕ) → ending (read s room).1 ≡ ending s
  pub read_more :
      (s : Source) (room : ℕ) (b : ℕ) (bs : List ℕ)
      → incoming s ≡ b ∷ bs
      → (got : List ℕ) × ((read s (suc room)).0 ≡ ok got)
        × Chunk got (incoming s) (incoming (read s (suc room)).1) (suc room)
  pub read_end :
      (s : Source) (room : ℕ)
      → incoming s ≡ []
      → ((read s (suc room)).0 ≡ err (ending s)) × (incoming (read s (suc room)).1 ≡ [])

-- A source that gives one byte at a time.
pub record Dribble : Type 0 where
  pub bytes : List ℕ
  pub last : Ending

abbrev pub dribble : List ℕ → Ending → Result (List ℕ) Ending × Dribble
dribble [] last = (err last, record { bytes = []; last = last })
dribble (b ∷ bs) last = (ok (b ∷ []), record { bytes = bs; last = last })

pub dribble_last : (bs : List ℕ) (last : Ending) → (dribble bs last).1.last ≡ last
dribble_last [] last = refl
dribble_last (b ∷ bs) last = refl

pub dribble_more :
    (bytes : List ℕ) (last : Ending) (room b : ℕ) (bs : List ℕ)
    → bytes ≡ b ∷ bs
    → (got : List ℕ) × ((dribble bytes last).0 ≡ ok got)
      × Chunk got bytes (dribble bytes last).1.bytes (suc room)
dribble_more [] last room b bs e = absurd (ground arith)
dribble_more (x ∷ xs) last room b bs e =
    (x ∷ [], refl, record { some_bytes = omega arith; has_room = omega arith; in_order = refl })

pub dribble_end :
    (bytes : List ℕ) (last : Ending)
    → bytes ≡ []
    → ((dribble bytes last).0 ≡ err last) × ((dribble bytes last).1.bytes ≡ [])
dribble_end [] last e = (refl, refl)
dribble_end (x ∷ xs) last e = absurd (ground arith)

abbrev pub dribbling : Reader
dribbling = record {
  Source = Dribble;
  incoming = λ s. s.bytes;
  ending = λ s. s.last;
  read = λ s room. dribble s.bytes s.last;
  ending-read = λ s room. dribble_last s.bytes s.last;
  read_more = λ s room b bs e. dribble_more s.bytes s.last room b bs e;
  read_end = λ s room e. dribble_end s.bytes s.last e;
}
