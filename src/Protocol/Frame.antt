-- ===== src/Protocol/Frame.antt =====
-- include/coredesk/protocol/Frame.h, FrameCodec.h and src/protocol/FrameCodec.cpp.
pub mod Layout
pub mod Decode
pub mod Accept
mod Append
pub mod Chunks
pub mod Stream
mod Examples
use core_desk.Base.{
  ℕ, zero, suc, ◌+◌, ◌-◌, ◌*◌, ◌/◌, ◌%◌, ◌^◌, ◌==◌, ltb, if◌then◌else◌, Bool, not, ◌&&◌, List, [],
  ◌∷◌, ◌++◌, length, get_or, take, drop,
}
use core_desk.Common.{ErrorCode, Error, Result, success, failure, Text, text}
use core_desk.Protocol.MessageTypes.{
  MessageType, is_known_message_type, message_type_from_wire, message_type_to_wire, protocol_error,
}

pub record Frame : Type 0 where
  pub type : MessageType
  pub flags : ℕ
  pub request_id : ℕ
  pub payload : Text

abbrev pub frame_header_size : ℕ
frame_header_size = 24

abbrev pub max_payload_size : ℕ
max_payload_size = 1024 * 1024

abbrev pub frame_version : ℕ
frame_version = 1

-- `bytes[i] = v`.
pub set : Text → ℕ → ℕ → Text
set [] i v = []
set (x ∷ xs) zero v = v ∷ xs
set (x ∷ xs) (suc i) v = x ∷ set xs i v

-- `std::vector<std::byte> bytes(n)`.
pub zeros : ℕ → Text
zeros zero = []
zeros (suc n) = 0 ∷ zeros n

-- `std::copy(from.begin(), from.end(), bytes.begin() + offset)`.
pub copy_at : Text → ℕ → Text → Text
copy_at [] bytes_offset bytes = bytes
copy_at (x ∷ xs) bytes_offset bytes = copy_at xs (bytes_offset + 1) (set bytes bytes_offset x)

abbrev magic : Text
magic = b'C' ∷ b'D' ∷ b'S' ∷ b'K' ∷ []

-- The byte `(value >> shift) & 0xff`.
abbrev pub byte_at : ℕ → ℕ → ℕ
byte_at value shift = value / 2 ^ shift % 256

pub write_u16 : Text → ℕ → ℕ → Text
unfolding set
write_u16 bytes offset value =
    set (set bytes offset (byte_at value 8)) (offset + 1) (byte_at value 0)

pub write_u32 : Text → ℕ → ℕ → Text
unfolding set
write_u32 bytes offset value =
    let b0 = set bytes offset (byte_at value 24) in
    let b1 = set b0 (offset + 1) (byte_at value 16) in
    let b2 = set b1 (offset + 2) (byte_at value 8) in set b2 (offset + 3) (byte_at value 0)

-- The loop of `write_u64`, with the rounds that are left.
write_u64_from : ℕ → ℕ → Text → ℕ → ℕ → Text
unfolding set
write_u64_from zero i bytes offset value = bytes
write_u64_from (suc n) i bytes offset value =
    write_u64_from n (i + 1) (set bytes (offset + i) (byte_at value ((7 - i) * 8))) offset value

pub write_u64 : Text → ℕ → ℕ → Text
unfolding write_u64_from
write_u64 bytes offset value = write_u64_from 8 0 bytes offset value

-- The bytes are below 256, so that `|` of shifted bytes is their sum.
pub read_u16 : Text → ℕ → ℕ
read_u16 bytes offset = get_or bytes offset 0 * 256 + get_or bytes (offset + 1) 0

pub read_u32 : Text → ℕ → ℕ
read_u32 bytes offset =
    get_or bytes offset 0 * 2 ^ 24
    + get_or bytes (offset + 1) 0 * 2 ^ 16
    + get_or bytes (offset + 2) 0 * 2 ^ 8
    + get_or bytes (offset + 3) 0

-- The loop of `read_u64`: `value << 8` drops what leaves the word.
read_u64_from : ℕ → ℕ → Text → ℕ → ℕ → ℕ
read_u64_from zero i bytes offset value = value
read_u64_from (suc n) i bytes offset value =
    read_u64_from n (i + 1) bytes offset (value * 256 % 2 ^ 64 + get_or bytes (offset + i) 0)

pub read_u64 : Text → ℕ → ℕ
unfolding read_u64_from
read_u64 bytes offset = read_u64_from 8 0 bytes offset 0

pub has_magic : Text → Bool
has_magic bytes =
    get_or bytes 0 0 == b'C'
    && get_or bytes 1 0 == b'D'
    && get_or bytes 2 0 == b'S'
    && get_or bytes 3 0 == b'K'

-- The copies and writes of `FrameEncoder::encode`, into a vector of zeros.
pub fill_bytes : Frame → Text → Text
unfolding copy_at write_u16 write_u32 write_u64
fill_bytes frame bytes =
    let b1 = copy_at magic 0 bytes in
    let b2 = write_u16 b1 4 frame_version in
    let b3 = write_u16 b2 6 (message_type_to_wire frame.type) in
    let b4 = write_u32 b3 8 frame.flags in
    let b5 = write_u64 b4 12 frame.request_id in
    let b6 = write_u32 b5 20 (length frame.payload % 2 ^ 32) in
    copy_at frame.payload frame_header_size b6

pub encode_bytes : Frame → Text
encode_bytes frame = fill_bytes frame (zeros (frame_header_size + length frame.payload))

abbrev pub too_large : Error
too_large = record {
  code = ErrorCode.payload_too_large;
  message = text "frame payload exceeds 1 MiB";
}

-- `FrameEncoder::encode`.
unfoldable pub encode : Frame → Result Text
encode frame =
    if not (is_known_message_type frame.type)
    then failure (protocol_error (text "unknown message type"))
    else if ltb max_payload_size (length frame.payload)
    then failure too_large
    else if ltb (2 ^ 32 - 1) (length frame.payload)
    then failure (record {
      code = ErrorCode.payload_too_large;
      message = text "frame payload exceeds uint32 range";
    })
    else success (encode_bytes frame)

-- What one round of the loop in `FrameDecoder::push` does: it leaves the loop, returns an error,
-- or takes a frame off the buffer.
pub data Round : Type 0 where
  stop : Round
  fail : Error → Round
  emit : Frame → Text → Round

body_round : MessageType → Text → Round
body_round type buffer =
    let payload_length = read_u32 buffer 20 in
    let total_size = frame_header_size + payload_length in
    if ltb max_payload_size payload_length
    then fail too_large
    else if ltb (length buffer) total_size
    then stop
    else emit
        (record {
          type = type;
          flags = read_u32 buffer 8;
          request_id = read_u64 buffer 12;
          payload = take payload_length (drop frame_header_size buffer);
        })
        (drop total_size buffer)

-- The round, once the buffer holds a header.
header_round : Text → Round
unfolding body_round
header_round buffer =
    if not (has_magic buffer)
    then fail (protocol_error (text "bad frame magic"))
    else if not (read_u16 buffer 4 == frame_version)
    then fail (protocol_error (text "bad frame version"))
    else elim (message_type_from_wire (read_u16 buffer 6)) [
      | failure e ↦ fail e
      | success type ↦ body_round type buffer
    ]

pub round : Text → Round
unfolding header_round
round buffer = if ltb (length buffer) frame_header_size then stop else header_round buffer

-- The loop, on fuel. The buffer is cleared where an error is returned.
pub drain : ℕ → List Frame → Text → Text × Result (List Frame)
drain zero frames buffer = (buffer, success frames)
drain (suc fuel) frames buffer = elim (round buffer) [
  | stop ↦ (buffer, success frames)
  | fail e ↦ ([], failure e)
  | emit frame rest ↦ drain fuel (frames ++ frame ∷ []) rest
]

-- `FrameDecoder::push`: the new buffer and the result.
unfoldable pub push : Text → Text → Text × Result (List Frame)
unfolding drain
push buffer bytes = let b = buffer ++ bytes in drain (suc (length b)) [] b

-- `FrameDecoder::reset`.
unfoldable pub reset : Text → Text
reset buffer = []
