-- ===== src/Protocol/Frame/Decode.antt =====
-- What the decoder makes of an encoded frame, and what it accepts.
use core_desk.Base.{
  ℕ, ◌+◌, ◌-◌, ◌^◌, ◌%◌, ◌≤◌, ◌<◌, le→ltb, ◌≡◌, refl, ap, ◌∙◌, true, ◌++◌, length, drop, arith,
  length-append, take-append_exact, drop-append_exact, append_assoc, drop-add, drop-add,
}
use core_desk.Common.{success, Text}
use core_desk.Protocol.MessageTypes.{is_known_message_type, message_type_from_wire}
use core_desk.Protocol.MessageTypes.Laws.{is_known-lt, message_type_from_wire-known}
use core_desk.Protocol.Frame.{
  Frame, frame_header_size, max_payload_size, read_u16, read_u32, read_u64, has_magic, encode_bytes,
  encode, emit, body_round, round,
}
use core_desk.Protocol.Frame.Layout.{
  header, encode_bytes_lem, read_type, read_flags, read_id, read_length,
}

-- The fields fit their words.
pub record Fits (f : Frame) : Type 0 where
  pub flags : f.flags < 2 ^ 32
  pub request_id : f.request_id < 2 ^ 64

-- `encode` succeeds.
pub record Sendable (f : Frame) : Type 0 where
  pub known : is_known_message_type f.type ≡ true
  pub small : length f.payload ≤ max_payload_size

-- A whole frame at the front of the buffer is taken off it.
body_round_lem :
    (t : ℕ) (buffer payload rest : Text)
    → read_u32 buffer 20 ≡ length payload
    → length payload ≤ max_payload_size
    → drop frame_header_size buffer ≡ payload ++ rest
    → length buffer ≡ frame_header_size + length (payload ++ rest)
    → body_round t buffer
      ≡ emit
          (record {
            type = t;
            flags = read_u32 buffer 8;
            request_id = read_u64 buffer 12;
            payload = payload;
          })
          rest
unfolding body_round
body_round_lem t buffer payload rest en small ed el = rw (
  en,
  body_round,
  le→ltb max_payload_size (length payload) small,
  le→ltb (length buffer) (frame_header_size + length payload)
      (omega (arith, length-append payload rest)),
  drop-add frame_header_size (length payload) buffer,
  ed,
  take-append_exact payload rest,
  drop-append_exact payload rest,
)

-- A good header leads to the payload.
round_lem :
    (t : ℕ) (buffer : Text)
    → frame_header_size ≤ length buffer
    → has_magic buffer ≡ true
    → read_u16 buffer 4 ≡ 1
    → message_type_from_wire (read_u16 buffer 6) ≡ success t
    → round buffer ≡ body_round t buffer
unfolding round
round_lem t buffer long m v ty = rw (le→ltb (length buffer) frame_header_size long, m, v, ty, round)

module _ (f : Frame) (rest : Text) (w : Fits f) where
  body_round-header :
      length f.payload ≤ max_payload_size
      → body_round f.type (header f ++ (f.payload ++ rest)) ≡ emit f rest
  body_round-header small =
      body_round_lem f.type (header f ++ (f.payload ++ rest)) f.payload rest
        (omega (
          arith,
          read_length f.type f.flags f.request_id (length f.payload % 2 ^ 32) (f.payload ++ rest),
        ))
        small refl (omega arith)
      ∙ rw (
        read_flags f.type f.flags f.request_id (length f.payload % 2 ^ 32) (f.payload ++ rest)
            w.flags,
        read_id f.type f.flags f.request_id (length f.payload % 2 ^ 32) (f.payload ++ rest)
            w.request_id,
      )

  round-header : Sendable f → round (header f ++ (f.payload ++ rest)) ≡ emit f rest
  unfolding has_magic read_u16
  round-header s =
      let known = is_known-lt f.type s.known in
      round_lem f.type (header f ++ (f.payload ++ rest)) (omega arith) refl refl (
        rw (
          read_type f.type f.flags f.request_id (length f.payload % 2 ^ 32) (f.payload ++ rest)
              known,
          message_type_from_wire-known f.type s.known,
        ))
      ∙ body_round-header s.small

pub encode-Sendable : (f : Frame) → Sendable f → encode f ≡ success (encode_bytes f)
unfolding encode
encode-Sendable f s = rw s.known (
    rw (
      le→ltb max_payload_size (length f.payload) s.small,
      le→ltb (2 ^ 32 - 1) (length f.payload) (omega arith),
    ))

pub encode-eq-success :
    (f : Frame) (b : Text) → encode f ≡ success b → Sendable f × (b ≡ encode_bytes f)
unfolding encode
encode-eq-success f b h = ground arith

-- Decoding undoes encoding: a frame that `encode` accepts and whose numbers fit their words is
-- taken off the front of any buffer that starts with its bytes, and the rest is kept.
pub round-encode :
    (f : Frame) (b rest : Text) → Fits f → encode f ≡ success b → round (b ++ rest) ≡ emit f rest
round-encode f b rest w h =
    let (s, e) = encode-eq-success f b h in
    rw (e, encode_bytes_lem f)
      (ap round (append_assoc (header f) f.payload rest) ∙ round-header f rest w s)
