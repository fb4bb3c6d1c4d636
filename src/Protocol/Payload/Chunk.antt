-- ===== src/Protocol/Payload/Chunk.antt =====
-- The binary payload of FileChunk: a transfer id, an offset, a length and the data.
pub mod RoundTrip
use core_desk.Base.{
  ℕ, zero, suc, ◌+◌, ◌*◌, ◌%◌, ◌^◌, ◌==◌, ltb, not, List, [], ◌∷◌, ◌++◌, length, take, drop,
  if◌then◌else◌,
}
use core_desk.Common.{ErrorCode, Error, Result, success, failure, Text, text, invalid, check}
use core_desk.Protocol.Frame.{max_payload_size, byte_at}
use core_desk.Protocol.Payload.Checks.{
  transfer_id_length, file_chunk_prefix_size, max_file_chunk_data_size, validate_transfer_id,
}

pub record FileChunkPayload : Type 0 where
  pub transfer_id : Text
  pub offset : ℕ
  pub chunk : Text

-- The loop `for (shift = 56; shift >= 0; shift -= 8)`, unrolled.
abbrev pub append_be_u64 : Text → ℕ → Text
append_be_u64 out value =
    out
    ++ byte_at value 56
      ∷ byte_at value 48
      ∷ byte_at value 40
      ∷ byte_at value 32
      ∷ byte_at value 24
      ∷ byte_at value 16
      ∷ byte_at value 8
      ∷ byte_at value 0
      ∷ []

abbrev pub append_be_u32 : Text → ℕ → Text
append_be_u32 out value =
    out ++ byte_at value 24 ∷ byte_at value 16 ∷ byte_at value 8 ∷ byte_at value 0 ∷ []

-- The loops of `read_be_u64` and `read_be_u32`: `value << 8` drops what leaves the word.
read_be : ℕ → Text → ℕ → ℕ
read_be bits [] value = value
read_be bits (byte ∷ bytes) value = read_be bits bytes (value * 256 % 2 ^ bits + byte)

pub read_be_u64 : Text → ℕ
unfolding read_be
read_be_u64 bytes = read_be 64 bytes 0

pub read_be_u32 : Text → ℕ
unfolding read_be
read_be_u32 bytes = read_be 32 bytes 0

abbrev pub chunk_too_large : Text → Error
chunk_too_large message = record { code = ErrorCode.payload_too_large; message = message }

unfoldable pub encode_file_chunk_payload : FileChunkPayload → Result Text
encode_file_chunk_payload payload = check (validate_transfer_id payload.transfer_id) (
    if ltb max_file_chunk_data_size (length payload.chunk)
    then failure (chunk_too_large (text "file chunk payload is too large"))
    else success (
        append_be_u32 (append_be_u64 payload.transfer_id payload.offset)
          (length payload.chunk % 2 ^ 32)
        ++ payload.chunk))

-- `bytes.subspan(offset, count)`.
abbrev pub subspan : Text → ℕ → ℕ → Text
subspan bytes offset count = take count (drop offset bytes)

-- The end of `decode_file_chunk_payload`, from the checks of the length on.
decode_chunk_data : Text → Text → ℕ → ℕ → Result FileChunkPayload
decode_chunk_data bytes transfer_id offset data_length =
    if ltb max_file_chunk_data_size data_length
    then failure (chunk_too_large (text "file chunk data is too large"))
    else if not (length bytes == file_chunk_prefix_size + data_length)
    then failure (invalid (text "file chunk data_length mismatch"))
    else success (record {
      transfer_id = transfer_id;
      offset = offset;
      chunk = drop file_chunk_prefix_size bytes;
    })

unfoldable pub decode_file_chunk_payload : Text → Result FileChunkPayload
unfolding decode_chunk_data read_be_u64 read_be_u32
decode_file_chunk_payload bytes =
    if ltb max_payload_size (length bytes)
    then failure (chunk_too_large (text "file chunk payload is too large"))
    else if ltb (length bytes) file_chunk_prefix_size
    then failure (invalid (text "file chunk payload is too short"))
    else check (validate_transfer_id (take transfer_id_length bytes)) (
        decode_chunk_data bytes (take transfer_id_length bytes)
          (read_be_u64 (subspan bytes transfer_id_length 8))
          (read_be_u32 (subspan bytes (transfer_id_length + 8) 4)))
