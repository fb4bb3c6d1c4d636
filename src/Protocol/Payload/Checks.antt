-- ===== src/Protocol/Payload/Checks.antt =====
-- The checks of src/protocol/JsonPayload.cpp on the texts and sizes of a payload.
use core_desk.Base.{
  ℕ, ◌+◌, ◌-◌, ◌==◌, leb, ltb, Bool, not, ◌&&◌, ◌||◌, [], ◌∷◌, length, all_of, is_nil, contains,
}
use core_desk.Common.{Text, text, VoidResult, require}
use core_desk.Protocol.Frame.{max_payload_size}

abbrev pub transfer_id_length : ℕ
transfer_id_length = 32

abbrev pub sha256_length : ℕ
sha256_length = 64

abbrev pub file_chunk_prefix_size : ℕ
file_chunk_prefix_size = transfer_id_length + 8 + 4

abbrev pub max_file_chunk_data_size : ℕ
max_file_chunk_data_size = max_payload_size - file_chunk_prefix_size

abbrev pub is_lower_hex_digit : ℕ → Bool
is_lower_hex_digit ch = leb b'0' ch && leb ch b'9' || leb b'a' ch && leb ch b'f'

unfoldable pub is_lower_hex : Text → ℕ → Bool
is_lower_hex s size = length s == size && all_of is_lower_hex_digit s

unfoldable pub is_safe_transfer_file_name : Text → Bool
is_safe_transfer_file_name name =
    not (is_nil name)
    && not (contains name (b'/' ∷ []))
    && not (contains name (b'\\' ∷ []))
    && not (contains name (b'.' ∷ b'.' ∷ []))

unfoldable pub validate_transfer_id : Text → VoidResult
validate_transfer_id transfer_id =
    require (is_lower_hex transfer_id transfer_id_length) (text "invalid transfer_id")

unfoldable pub validate_sha256 : Text → VoidResult
validate_sha256 sha256 = require (is_lower_hex sha256 sha256_length) (text "invalid sha256")

unfoldable pub validate_file_name : Text → VoidResult
validate_file_name file_name =
    require (is_safe_transfer_file_name file_name) (text "invalid file_name")

unfoldable pub validate_chunk_size : ℕ → VoidResult
validate_chunk_size chunk_size =
    require (not (chunk_size == 0 || ltb max_file_chunk_data_size chunk_size))
      (text "invalid chunk_size")

unfoldable pub validate_non_empty_path : Text → VoidResult
validate_non_empty_path path = require (not (is_nil path)) (text "path must not be empty")
