-- ===== src/Protocol/Payload/SendFile.antt =====
-- The payloads of a request to send a file, and the answer to a failed request.
pub mod RoundTrip
use core_desk.Base.Int.{pos}
use core_desk.Base.{ℕ, Bool, [], ◌∷◌, not, is_nil, ◌==◌, ◌&&◌}
use core_desk.Common.{Result, success, Text, ◌>>=◌, ErrorCode, check, require, text, is_ok_code}
use core_desk.Protocol.Json.{JsonLibrary}
use core_desk.Protocol.Json.Fields.{
  required_bool, required_string, required_u16, dump_json, decode_payload,
}
use core_desk.Protocol.Json.ErrorNames.{error_code_to_protocol, error_code_from_protocol}

pub record SendFileRequestPayload : Type 0 where
  pub file_path : Text
  pub host : Text
  pub port : ℕ

pub record SendFileAcceptedPayload : Type 0 where
  pub accepted : Bool

pub record SendFileResultPayload : Type 0 where
  pub success : Bool
  pub code : ErrorCode
  pub message : Text

pub record ErrorResponsePayload : Type 0 where
  pub ok : Bool
  pub code : ErrorCode
  pub message : Text

module _ (lib : JsonLibrary) where
  open lib use {object, string, boolean, integer}

  unfoldable pub encode_send_file_request_payload : SendFileRequestPayload → Result Text
  encode_send_file_request_payload payload =
      check (require (not (is_nil payload.file_path)) (text "file_path must not be empty")) (
        check (require (not (is_nil payload.host)) (text "host must not be empty")) (
          check (require (not (payload.port == 0)) (text "port must be in range 1..65535")) (
            dump_json lib (
              object (
                ("file_path", string payload.file_path)
                ∷ ("host", string payload.host)
                ∷ ("port", integer (pos payload.port))
                ∷ [])))))

  unfoldable pub decode_send_file_request_payload : Text → Result SendFileRequestPayload
  decode_send_file_request_payload bytes = decode_payload lib bytes λ json. do
    file_path ← required_string lib json "file_path"
    host ← required_string lib json "host"
    port ← required_u16 lib json "port"
    check (require (not (is_nil file_path)) (text "file_path must not be empty")) (
        check (require (not (is_nil host)) (text "host must not be empty")) (
          check (require (not (port == 0)) (text "port must be in range 1..65535"))
            (success (record { file_path = file_path; host = host; port = port }))))

  unfoldable pub encode_send_file_accepted_payload : SendFileAcceptedPayload → Result Text
  encode_send_file_accepted_payload payload =
      dump_json lib (object (("accepted", boolean payload.accepted) ∷ []))

  unfoldable pub decode_send_file_accepted_payload : Text → Result SendFileAcceptedPayload
  decode_send_file_accepted_payload bytes = decode_payload lib bytes λ json. do
    accepted ← required_bool lib json "accepted"
    success (record { accepted = accepted })

  unfoldable pub encode_send_file_result_payload : SendFileResultPayload → Result Text
  encode_send_file_result_payload payload = dump_json lib (
      object (
        ("success", boolean payload.success)
        ∷ ("code", string (error_code_to_protocol payload.code))
        ∷ ("message", string payload.message)
        ∷ []))

  unfoldable pub decode_send_file_result_payload : Text → Result SendFileResultPayload
  decode_send_file_result_payload bytes = decode_payload lib bytes λ json. do
    succeeded ← required_bool lib json "success"
    code_text ← required_string lib json "code"
    message ← required_string lib json "message"
    error_code_from_protocol code_text >>= λ code.
        check
          (require (not (succeeded && not (is_ok_code code)))
            (text "successful result must use OK"))
          (check
            (require (not (not succeeded && is_ok_code code))
              (text "failed result must not use OK"))
            (success (record { success = succeeded; code = code; message = message })))

  unfoldable pub encode_error_response_payload : ErrorResponsePayload → Result Text
  encode_error_response_payload payload = dump_json lib (
      object (
        ("ok", boolean payload.ok)
        ∷ ("code", string (error_code_to_protocol payload.code))
        ∷ ("message", string payload.message)
        ∷ []))

  unfoldable pub decode_error_response_payload : Text → Result ErrorResponsePayload
  decode_error_response_payload bytes = decode_payload lib bytes λ json. do
    ok ← required_bool lib json "ok"
    code_text ← required_string lib json "code"
    message ← required_string lib json "message"
    error_code_from_protocol code_text >>= λ code.
        success (record { ok = ok; code = code; message = message })
