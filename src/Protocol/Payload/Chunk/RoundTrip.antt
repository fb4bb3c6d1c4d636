-- ===== src/Protocol/Payload/Chunk/RoundTrip.antt =====
-- A file chunk that was encoded is decoded to itself, and fits a frame.
use core_desk.Base.{
  ℕ, ◌+◌, ◌%◌, ◌^◌, ◌≤◌, ◌<◌, le→ltb, ◌≡◌, sym, ap, ◌∙◌, true, [], ◌++◌, length, take, drop, arith,
  length-append, append_assoc, take-append_exact, drop-append_exact, drop-add,
}
use core_desk.Common.{success, Text, check-ok, check-eq-success, void_ok, require}
use core_desk.Protocol.Frame.{max_payload_size}
use core_desk.Protocol.Payload.Checks.{
  file_chunk_prefix_size, max_file_chunk_data_size, validate_transfer_id, is_lower_hex,
}
use core_desk.Protocol.Payload.Chunk.{
  FileChunkPayload, append_be_u64, append_be_u32, read_be_u64, read_be_u32,
  encode_file_chunk_payload, decode_chunk_data, decode_file_chunk_payload, subspan,
}

-- An identifier that passes the check has 32 characters.
length_of_valid : (s : Text) → void_ok (validate_transfer_id s) ≡ true → length s ≡ 32
unfolding validate_transfer_id is_lower_hex require
length_of_valid s h = ground arith

read_be_u64-bytes : (v : ℕ) → v < 2 ^ 64 → read_be_u64 (append_be_u64 [] v) ≡ v
unfolding read_be_u64
read_be_u64-bytes v h = omega arith

read_be_u32-bytes : (v : ℕ) → v < 2 ^ 32 → read_be_u32 (append_be_u32 [] v) ≡ v
unfolding read_be_u32
read_be_u32-bytes v h = omega arith

-- The bytes after the identifier.
abbrev tail_of : FileChunkPayload → Text
tail_of p = append_be_u64 [] p.offset ++ (append_be_u32 [] (length p.chunk % 2 ^ 32) ++ p.chunk)

encode-eq-success :
    (p : FileChunkPayload) (b : Text)
    → encode_file_chunk_payload p ≡ success b
    → (void_ok (validate_transfer_id p.transfer_id) ≡ true)
      × (length p.chunk ≤ max_file_chunk_data_size)
      × (b ≡ p.transfer_id ++ tail_of p)
unfolding encode_file_chunk_payload
encode-eq-success p b h =
    let (v, h1) = check-eq-success _ _ h in
    let small : length p.chunk ≤ max_file_chunk_data_size = ground arith in
    let e : append_be_u32 (append_be_u64 p.transfer_id p.offset) (length p.chunk % 2 ^ 32)
          ++ p.chunk
        ≡ b =
      ground arith in
    (v, small, sym e ∙ assoc₂)
  where
    assoc₂ :
        append_be_u32 (append_be_u64 p.transfer_id p.offset) (length p.chunk % 2 ^ 32) ++ p.chunk
        ≡ p.transfer_id ++ tail_of p
    assoc₂ = simp append_assoc

take_id : (s t : Text) (n : ℕ) → length s ≡ n → take n (s ++ t) ≡ s
take_id s t n e = rw (← e) (take-append_exact s t)

drop_id : (s t : Text) (n : ℕ) → length s ≡ n → drop n (s ++ t) ≡ t
drop_id s t n e = rw (← e) (drop-append_exact s t)

decode_chunk_data-tail :
    (p : FileChunkPayload)
    → length p.transfer_id ≡ 32
    → length p.chunk ≤ max_file_chunk_data_size
    → decode_chunk_data (p.transfer_id ++ tail_of p) p.transfer_id p.offset (length p.chunk)
      ≡ success p
unfolding decode_chunk_data
decode_chunk_data-tail p len small =
    let e : drop file_chunk_prefix_size (p.transfer_id ++ tail_of p) ≡ p.chunk =
      drop-add 32 12 (p.transfer_id ++ tail_of p)
      ∙ ap (drop 12) (drop_id p.transfer_id (tail_of p) 32 len) in
    rw e (ground (arith, length-append p.transfer_id (tail_of p)))

decode-tail :
    (p : FileChunkPayload)
    → void_ok (validate_transfer_id p.transfer_id) ≡ true
    → length p.chunk ≤ max_file_chunk_data_size
    → p.offset < 2 ^ 64
    → decode_file_chunk_payload (p.transfer_id ++ tail_of p) ≡ success p
unfolding decode_file_chunk_payload
decode-tail p v small w =
    let b = p.transfer_id ++ tail_of p in
    let len = length_of_valid p.transfer_id v in
    let n : length b ≡ 44 + length p.chunk =
      omega (arith, length-append p.transfer_id (tail_of p)) in
    let id = take_id p.transfer_id (tail_of p) 32 len in
    let tl = drop_id p.transfer_id (tail_of p) 32 len in
    let off : read_be_u64 (subspan b 32 8) ≡ p.offset =
      ap (λ t. read_be_u64 (take 8 t)) tl ∙ read_be_u64-bytes p.offset w in
    let cnt : read_be_u32 (subspan b 40 4) ≡ length p.chunk =
      ap (λ t. read_be_u32 (take 4 t)) (drop-add 32 8 b ∙ ap (drop 8) tl)
      ∙ read_be_u32-bytes (length p.chunk % 2 ^ 32) (omega arith)
      ∙ omega arith in
    rw
      (
        le→ltb max_payload_size (length b) (omega arith),
        le→ltb (length b) file_chunk_prefix_size (omega arith),
        id,
        check-ok (validate_transfer_id p.transfer_id) v,
        off,
        cnt,
      )
      (decode_chunk_data-tail p len small)

-- A file chunk that was encoded is decoded to itself, whatever bytes it carries, if its offset
-- fits 64 bits; and its encoding fits the payload of a frame.
pub decode-encode_file_chunk :
    (p : FileChunkPayload) (b : Text)
    → p.offset < 2 ^ 64
    → encode_file_chunk_payload p ≡ success b
    → (decode_file_chunk_payload b ≡ success p) × (length b ≤ max_payload_size)
decode-encode_file_chunk p b w h =
    let (v, small, e) = encode-eq-success p b h in
    (
      rw e (decode-tail p v small w),
      rw e
          (omega (arith, length-append p.transfer_id (tail_of p), length_of_valid p.transfer_id v)),
    )
