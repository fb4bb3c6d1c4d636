-- ===== src/Protocol/Json/ErrorNames.antt =====
-- `error_code_to_protocol` and `error_code_from_protocol` of src/protocol/JsonPayload.cpp.
use core_desk.Base.{◌≡◌, refl, text_eq, if◌then◌else◌}
use core_desk.Common.{ErrorCode, Result, success, failure, Text, text, invalid}

unfoldable pub error_code_to_protocol : ErrorCode → Text
error_code_to_protocol ErrorCode.ok_code = text "OK"
error_code_to_protocol ErrorCode.invalid_argument = text "INVALID_ARGUMENT"
error_code_to_protocol ErrorCode.path_not_found = text "PATH_NOT_FOUND"
error_code_to_protocol ErrorCode.permission_denied = text "PERMISSION_DENIED"
error_code_to_protocol ErrorCode.busy = text "BUSY"
error_code_to_protocol ErrorCode.cancelled = text "CANCELLED"
error_code_to_protocol ErrorCode.index_not_ready = text "INDEX_NOT_READY"
error_code_to_protocol ErrorCode.protocol_error = text "PROTOCOL_ERROR"
error_code_to_protocol ErrorCode.payload_too_large = text "PAYLOAD_TOO_LARGE"
error_code_to_protocol ErrorCode.connection_failed = text "CONNECTION_FAILED"
error_code_to_protocol ErrorCode.timeout = text "TIMEOUT"
error_code_to_protocol ErrorCode.target_exists = text "TARGET_EXISTS"
error_code_to_protocol ErrorCode.io_error = text "IO_ERROR"
error_code_to_protocol ErrorCode.hash_mismatch = text "HASH_MISMATCH"
error_code_to_protocol ErrorCode.internal_error = text "INTERNAL_ERROR"

unfoldable pub error_code_from_protocol : Text → Result ErrorCode
error_code_from_protocol code =
    if text_eq code (text "OK")
    then success ErrorCode.ok_code
    else if text_eq code (text "INVALID_ARGUMENT")
    then success ErrorCode.invalid_argument
    else if text_eq code (text "PATH_NOT_FOUND")
    then success ErrorCode.path_not_found
    else if text_eq code (text "PERMISSION_DENIED")
    then success ErrorCode.permission_denied
    else if text_eq code (text "BUSY")
    then success ErrorCode.busy
    else if text_eq code (text "CANCELLED")
    then success ErrorCode.cancelled
    else if text_eq code (text "INDEX_NOT_READY")
    then success ErrorCode.index_not_ready
    else if text_eq code (text "PROTOCOL_ERROR")
    then success ErrorCode.protocol_error
    else if text_eq code (text "PAYLOAD_TOO_LARGE")
    then success ErrorCode.payload_too_large
    else if text_eq code (text "CONNECTION_FAILED")
    then success ErrorCode.connection_failed
    else if text_eq code (text "TIMEOUT")
    then success ErrorCode.timeout
    else if text_eq code (text "TARGET_EXISTS")
    then success ErrorCode.target_exists
    else if text_eq code (text "IO_ERROR")
    then success ErrorCode.io_error
    else if text_eq code (text "HASH_MISMATCH")
    then success ErrorCode.hash_mismatch
    else if text_eq code (text "INTERNAL_ERROR")
    then success ErrorCode.internal_error
    else failure (invalid (text "unknown error code"))

-- Every code has a name of its own, from which it is read back.
pub error_code_from_protocol-to_protocol :
    (code : ErrorCode) → error_code_from_protocol (error_code_to_protocol code) ≡ success code
unfolding error_code_from_protocol error_code_to_protocol text text_eq
error_code_from_protocol-to_protocol ErrorCode.ok_code = refl
error_code_from_protocol-to_protocol _ = refl
