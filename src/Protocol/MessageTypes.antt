-- ===== src/Protocol/MessageTypes.antt =====
-- include/coredesk/protocol/MessageTypes.h and the message type functions of
-- src/protocol/FrameCodec.cpp. `MessageType` is an enumeration over `std::uint16_t`: a cast makes
-- a value of it from any 16-bit number, so the model's type is that number.
pub mod Laws
use core_desk.Base.{ℕ, ◌==◌, Bool, true, false, List, [], ◌∷◌, ◌||◌, if◌then◌else◌}
use core_desk.Common.{ErrorCode, Error, Result, success, failure, Text, text}

abbrev pub MessageType : Type 0
MessageType = ℕ

module _ where
  abbrev pub ping : MessageType
  ping = 1

  abbrev pub pong : MessageType
  pong = 2

  abbrev pub scan_request : MessageType
  scan_request = 10

  abbrev pub search_request : MessageType
  search_request = 20

  abbrev pub hello : MessageType
  hello = 100

  abbrev pub hello_ack : MessageType
  hello_ack = 101

  abbrev pub file_offer : MessageType
  file_offer = 110

  abbrev pub file_accept : MessageType
  file_accept = 111

  abbrev pub file_reject : MessageType
  file_reject = 112

  abbrev pub file_chunk : MessageType
  file_chunk = 113

  abbrev pub file_finish : MessageType
  file_finish = 114

  abbrev pub file_result : MessageType
  file_result = 115

-- The enumerators, in the order of their declaration.
pub message_types : List MessageType
message_types =
    ping ∷ pong ∷ scan_request ∷ 11 ∷ 12 ∷ 13 ∷ 14 ∷ 15 ∷ search_request ∷ 21 ∷ 30 ∷ 31 ∷ 40 ∷ 41
    ∷ 42 ∷ 43 ∷ 44 ∷ 45 ∷ 46 ∷ 47 ∷ 48 ∷ 49 ∷ 50 ∷ hello ∷ hello_ack ∷ file_offer ∷ file_accept
    ∷ file_reject ∷ file_chunk ∷ file_finish ∷ file_result ∷ []

-- The cases of the `switch`.
is_one_of : MessageType → List MessageType → Bool
is_one_of type [] = false
is_one_of type (t ∷ ts) = type == t || is_one_of type ts

unfoldable pub is_known_message_type : MessageType → Bool
unfolding is_one_of message_types
is_known_message_type type = is_one_of type message_types

abbrev pub protocol_error : Text → Error
protocol_error message = record { code = ErrorCode.protocol_error; message = message }

unfoldable pub message_type_from_wire : ℕ → Result MessageType
message_type_from_wire value =
    if is_known_message_type value
    then success value
    else failure (protocol_error (text "unknown message type"))

unfoldable pub message_type_to_wire : MessageType → ℕ
message_type_to_wire type = type
