-- ===== src/Protocol/Frame/Examples.antt =====
-- The frame codec at concrete inputs.
use mathlib.Core.List.{flatten}
use core_desk.Base.{none, ◌≡◌, refl, [], ◌∷◌, ◌++◌, arith}
use core_desk.Common.{ErrorCode, success, failure, Text, text}
use core_desk.Protocol.MessageTypes.{
  is_known_message_type, message_type_from_wire, message_type_to_wire, ping, pong,
}
use core_desk.Protocol.Frame.{
  Frame, encode, encode_bytes, fill_bytes, zeros, emit, round, push, reset, read_u16, read_u32,
  read_u64, has_magic,
}
use core_desk.Protocol.Frame.Decode.{Fits, Sendable, round-encode}
use core_desk.Protocol.Frame.Accept.{round_sound}
use core_desk.Protocol.Frame.Chunks.{Waits, push-Waits}
use core_desk.Protocol.Frame.Stream.{feed, as_read, stream, feed-flatten, feed-stream}

abbrev request : Frame
request = record { type = ping; flags = 3; request_id = 513; payload = 9 ∷ 200 ∷ [] }

abbrev reply : Frame
reply = record { type = pong; flags = 0; request_id = 513; payload = [] }

abbrev request_bytes : Text
request_bytes =
    b'C' ∷ b'D' ∷ b'S' ∷ b'K' ∷ 0 ∷ 1 ∷ 0 ∷ 1 ∷ 0 ∷ 0 ∷ 0 ∷ 3 ∷ 0 ∷ 0 ∷ 0 ∷ 0 ∷ 0 ∷ 0 ∷ 2 ∷ 1 ∷ 0
    ∷ 0 ∷ 0 ∷ 2 ∷ 9 ∷ 200 ∷ []

-- The reply without its first three bytes.
abbrev encoded_tail : Text
encoded_tail =
    b'K' ∷ 0 ∷ 1 ∷ 0 ∷ 2 ∷ 0 ∷ 0 ∷ 0 ∷ 0 ∷ 0 ∷ 0 ∷ 0 ∷ 0 ∷ 0 ∷ 0 ∷ 2 ∷ 1 ∷ 0 ∷ 0 ∷ 0 ∷ 0 ∷ []

codec : Unit {0}
unfolding encode encode_bytes fill_bytes zeros round push reset read_u16 read_u32 read_u64 has_magic
    is_known_message_type message_type_from_wire message_type_to_wire
codec = tt

encode-request : encode request ≡ success request_bytes
unfolding codec
encode-request = refl

push-request : push request_bytes (b'C' ∷ []) ≡ (b'C' ∷ [], success (request ∷ []))
unfolding codec
push-request = refl

push_bad_magic :
    push [] (text "GET / HTTP/1.1 and so on.")
    ≡ ([], failure (record { code = ErrorCode.protocol_error; message = text "bad frame magic" }))
unfolding codec text
push_bad_magic = refl

request-Fits : Fits request
request-Fits = omega arith

request-Sendable : Sendable request
unfolding is_known_message_type
request-Sendable = record { known = refl; small = omega arith }

reply-Fits : Fits reply
reply-Fits = omega arith

reply-Sendable : Sendable reply
unfolding is_known_message_type
reply-Sendable = record { known = refl; small = omega arith }

round-encode_example : round (request_bytes ++ 1 ∷ []) ≡ emit request (1 ∷ [])
round-encode_example = round-encode request request_bytes (1 ∷ []) request-Fits encode-request

round_sound_example :
    Fits request
    × (encode request ≡ success (encode_bytes request))
    × (request_bytes ++ 7 ∷ [] ≡ encode_bytes request ++ 7 ∷ [])
unfolding codec
round_sound_example = round_sound (request_bytes ++ 7 ∷ []) request (7 ∷ []) (omega arith) refl

push-Waits_example : Waits (push request_bytes (b'C' ∷ []))
push-Waits_example = push-Waits request_bytes (b'C' ∷ [])

feed-flatten_example :
    as_read (feed [] (request_bytes ∷ [] ∷ (b'C' ∷ []) ∷ []))
    ≡ push [] (flatten (request_bytes ∷ [] ∷ (b'C' ∷ []) ∷ []))
unfolding round
feed-flatten_example = feed-flatten [] (request_bytes ∷ [] ∷ (b'C' ∷ []) ∷ []) refl

feed-stream_example :
    feed [] (request_bytes ∷ (b'C' ∷ b'D' ∷ b'S' ∷ []) ∷ encoded_tail ∷ [])
    ≡ record { frames = request ∷ reply ∷ []; buffer = []; error = none }
unfolding stream flatten codec
feed-stream_example =
    feed-stream (request ∷ reply ∷ [])
      (request_bytes ∷ (b'C' ∷ b'D' ∷ b'S' ∷ []) ∷ encoded_tail ∷ [])
      (request-Fits, (reply-Fits, tt)) (request-Sendable, (reply-Sendable, tt)) refl
