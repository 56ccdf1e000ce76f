-- ===== src/Deps/BufMut.antt =====
-- `bytes::BytesMut`, as a parameter: a buffer that grows at its end, with numbers in big-endian order.
use myrmidon.Base.{ℕ, ◌≡◌, refl, List, [], ◌∷◌, ◌++◌}
use myrmidon.Base.BigEndian.{to_be_bytes}

pub record BufMut : Type 1 where
  pub Buf : Type 0
  pub freeze : Buf → List ℕ
  pub with_capacity : ℕ → Buf
  pub put_u8 : Buf → ℕ → Buf
  pub put_u32 : Buf → ℕ → Buf
  pub put_u64 : Buf → ℕ → Buf
  pub put_slice : Buf → List ℕ → Buf
  pub freeze-with_capacity : (size : ℕ) → freeze (with_capacity size) ≡ []
  pub freeze-put_u8 : (buf : Buf) (v : ℕ) → freeze (put_u8 buf v) ≡ freeze buf ++ v ∷ []
  pub freeze-put_u32 : (buf : Buf) (v : ℕ) → freeze (put_u32 buf v) ≡ freeze buf ++ to_be_bytes 4 v
  pub freeze-put_u64 : (buf : Buf) (v : ℕ) → freeze (put_u64 buf v) ≡ freeze buf ++ to_be_bytes 8 v
  pub freeze-put_slice : (buf : Buf) (bs : List ℕ) → freeze (put_slice buf bs) ≡ freeze buf ++ bs

-- A value that meets the laws: the bytes themselves.
abbrev pub list_buffer : BufMut
list_buffer = record {
  Buf = List ℕ;
  freeze = λ buf. buf;
  with_capacity = λ size. [];
  put_u8 = λ buf v. buf ++ v ∷ [];
  put_u32 = λ buf v. buf ++ to_be_bytes 4 v;
  put_u64 = λ buf v. buf ++ to_be_bytes 8 v;
  put_slice = λ buf bs. buf ++ bs;
  freeze-with_capacity = λ size. refl;
  freeze-put_u8 = λ buf v. refl;
  freeze-put_u32 = λ buf v. refl;
  freeze-put_u64 = λ buf v. refl;
  freeze-put_slice = λ buf bs. refl;
}
