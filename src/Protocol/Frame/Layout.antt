-- ===== src/Protocol/Frame/Layout.antt =====
-- The layout of an encoded frame, and the reader's view of it.
use core_desk.Base.{
  ℕ, zero, suc, ◌+◌, ◌%◌, ◌^◌, ◌<◌, ◌≡◌, refl, sym, ap, ◌∙◌, [], ◌∷◌, ◌++◌, length, arith,
  length-append, append_assoc,
}
use native.Mathlib.Nat.{zero-add, suc-add}
use core_desk.Common.{Text}
use core_desk.Protocol.MessageTypes.{message_type_to_wire}
use core_desk.Protocol.Frame.{
  Frame, set, zeros, copy_at, byte_at, read_u16, read_u32, read_u64, fill_bytes, encode_bytes,
}

-- The 24 bytes before the payload, for a payload of `n` bytes.
abbrev pub header_of : ℕ → ℕ → ℕ → ℕ → Text
header_of type flags id n =
    b'C'
    ∷ b'D'
    ∷ b'S'
    ∷ b'K'
    ∷ 0
    ∷ 1
    ∷ byte_at type 8
    ∷ byte_at type 0
    ∷ byte_at flags 24
    ∷ byte_at flags 16
    ∷ byte_at flags 8
    ∷ byte_at flags 0
    ∷ byte_at id 56
    ∷ byte_at id 48
    ∷ byte_at id 40
    ∷ byte_at id 32
    ∷ byte_at id 24
    ∷ byte_at id 16
    ∷ byte_at id 8
    ∷ byte_at id 0
    ∷ byte_at n 24
    ∷ byte_at n 16
    ∷ byte_at n 8
    ∷ byte_at n 0
    ∷ []

abbrev pub header : Frame → Text
header f = header_of f.type f.flags f.request_id (length f.payload % 2 ^ 32)

set-append :
    (pre : Text) (x v : ℕ) (rest : Text) → set (pre ++ x ∷ rest) (length pre) v ≡ pre ++ v ∷ rest
unfolding set
set-append [] x v rest = refl
set-append (p ∷ pre) x v rest = ap (◌∷◌ p) (set-append pre x v rest)

copy_at-zeros :
    (xs pre : Text) (n : ℕ) → n ≡ length pre → copy_at xs n (pre ++ zeros (length xs)) ≡ pre ++ xs
unfolding copy_at zeros
copy_at-zeros [] pre n e = refl
copy_at-zeros (x ∷ xs) pre n e =
    rw (e, set-append pre 0 x (zeros (length xs)))
      (ap (copy_at xs (length pre + 1)) (sym (append_assoc pre (x ∷ []) (zeros (length xs))))
        ∙ copy_at-zeros xs (pre ++ x ∷ []) (length pre + 1)
            (omega (arith, length-append pre (x ∷ [])))
        ∙ append_assoc pre (x ∷ []) xs)

zeros-add : (m n : ℕ) → zeros (m + n) ≡ zeros m ++ zeros n
unfolding zeros
zeros-add zero n = rw zero-add
zeros-add (suc m) n = rw suc-add (ap (◌∷◌ 0) (zeros-add m n))

fill_bytes-zeros :
    (f : Frame) → fill_bytes f (zeros 24 ++ zeros (length f.payload)) ≡ header f ++ f.payload
unfolding fill_bytes zeros message_type_to_wire
fill_bytes-zeros f = copy_at-zeros f.payload (header f) 24 refl

-- An encoded frame is its header and its payload.
pub encode_bytes_lem : (f : Frame) → encode_bytes f ≡ header f ++ f.payload
unfolding encode_bytes
encode_bytes_lem f = ap (fill_bytes f) (zeros-add 24 (length f.payload)) ∙ fill_bytes-zeros f

module _ (type flags id n : ℕ) (rest : Text) where
  pub read_type : type < 2 ^ 16 → read_u16 (header_of type flags id n ++ rest) 6 ≡ type
  unfolding read_u16
  read_type h = omega arith

  pub read_flags : flags < 2 ^ 32 → read_u32 (header_of type flags id n ++ rest) 8 ≡ flags
  unfolding read_u32
  read_flags h = omega arith

  pub read_length : n < 2 ^ 32 → read_u32 (header_of type flags id n ++ rest) 20 ≡ n
  unfolding read_u32
  read_length h = omega arith

  pub read_id : id < 2 ^ 64 → read_u64 (header_of type flags id n ++ rest) 12 ≡ id
  unfolding read_u64
  read_id h = omega arith
