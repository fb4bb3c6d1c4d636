-- ===== src/Protocol/MessageTypes/Laws.antt =====
-- Facts about the message type functions.
use core_desk.Base.{ℕ, ◌<◌, ◌^◌, ◌≡◌, true, List, [], ◌∷◌, All, arith}
use core_desk.Common.{success}
use core_desk.Protocol.MessageTypes.{
  MessageType, message_types, is_one_of, is_known_message_type, message_type_from_wire,
}

is_one_of-lt : (t k : ℕ) (ts : List ℕ) → All (λ x. x < k) ts → is_one_of t ts ≡ true → t < k
unfolding is_one_of
is_one_of-lt t k [] a h = cc
is_one_of-lt t k (x ∷ ts) a h = ground (arith, is_one_of-lt t k ts a.1)

-- A known type fits a 16-bit word.
pub is_known-lt : (t : MessageType) → is_known_message_type t ≡ true → t < 2 ^ 16
unfolding is_known_message_type
is_known-lt t h = is_one_of-lt t (2 ^ 16) message_types (omega arith) h

pub message_type_from_wire-known :
    (t : MessageType) → is_known_message_type t ≡ true → message_type_from_wire t ≡ success t
unfolding message_type_from_wire
message_type_from_wire-known t h = rw h
