-- ===== src/Protocol/Payload/Transfer.antt =====
-- The payloads of a file transfer: FileOffer, FileAccept, FileReject, FileFinish and FileResult.
pub mod RoundTrip
pub mod Safety
use core_desk.Base.Int.{pos}
use core_desk.Base.{ℕ, Bool, [], ◌∷◌, ◌==◌}
use core_desk.Common.{Result, success, Text, ◌>>=◌, ErrorCode, check, require, text}
use core_desk.Protocol.Json.{JsonLibrary}
use core_desk.Protocol.Json.Fields.{
  required_bool, required_string, required_u64, dump_json, decode_payload,
}
use core_desk.Protocol.Json.ErrorNames.{error_code_to_protocol, error_code_from_protocol}
use core_desk.Protocol.Payload.Checks.{
  validate_chunk_size, validate_file_name, validate_sha256, validate_transfer_id,
}

pub record FileOfferPayload : Type 0 where
  pub transfer_id : Text
  pub file_name : Text
  pub file_size : ℕ
  pub chunk_size : ℕ
  pub sha256 : Text

pub record FileAcceptPayload : Type 0 where
  pub transfer_id : Text
  pub start_offset : ℕ

pub record FileRejectPayload : Type 0 where
  pub transfer_id : Text
  pub code : ErrorCode
  pub message : Text

pub record FileFinishPayload : Type 0 where
  pub transfer_id : Text

pub record FileResultPayload : Type 0 where
  pub transfer_id : Text
  pub ok : Bool
  pub code : ErrorCode
  pub message : Text

module _ (lib : JsonLibrary) where
  open lib use {object, string, boolean, integer}

  unfoldable pub encode_file_offer_payload : FileOfferPayload → Result Text
  encode_file_offer_payload payload = check (validate_transfer_id payload.transfer_id) (
      check (validate_file_name payload.file_name) (
        check (validate_chunk_size payload.chunk_size) (
          check (validate_sha256 payload.sha256) (
            dump_json lib (
              object (
                ("transfer_id", string payload.transfer_id)
                ∷ ("file_name", string payload.file_name)
                ∷ ("file_size", integer (pos payload.file_size))
                ∷ ("chunk_size", integer (pos payload.chunk_size))
                ∷ ("sha256", string payload.sha256)
                ∷ []))))))

  unfoldable pub decode_file_offer_payload : Text → Result FileOfferPayload
  decode_file_offer_payload bytes = decode_payload lib bytes λ json. do
    transfer_id ← required_string lib json "transfer_id"
    file_name ← required_string lib json "file_name"
    file_size ← required_u64 lib json "file_size"
    chunk_size ← required_u64 lib json "chunk_size"
    sha256 ← required_string lib json "sha256"
    check (validate_transfer_id transfer_id) (
        check (validate_file_name file_name) (
          check (validate_chunk_size chunk_size) (
            check (validate_sha256 sha256) (
              success (record {
                transfer_id = transfer_id;
                file_name = file_name;
                file_size = file_size;
                chunk_size = chunk_size;
                sha256 = sha256;
              })))))

  unfoldable pub encode_file_accept_payload : FileAcceptPayload → Result Text
  encode_file_accept_payload payload = check (validate_transfer_id payload.transfer_id) (
      check (require (payload.start_offset == 0) (text "start_offset must be 0 in v1.0")) (
        dump_json lib (
          object (
            ("transfer_id", string payload.transfer_id)
            ∷ ("start_offset", integer (pos payload.start_offset))
            ∷ []))))

  unfoldable pub decode_file_accept_payload : Text → Result FileAcceptPayload
  decode_file_accept_payload bytes = decode_payload lib bytes λ json. do
    transfer_id ← required_string lib json "transfer_id"
    start_offset ← required_u64 lib json "start_offset"
    check (validate_transfer_id transfer_id) (
        check (require (start_offset == 0) (text "start_offset must be 0 in v1.0"))
          (success (record { transfer_id = transfer_id; start_offset = start_offset })))

  unfoldable pub encode_file_reject_payload : FileRejectPayload → Result Text
  encode_file_reject_payload payload = check (validate_transfer_id payload.transfer_id) (
      dump_json lib (
        object (
          ("transfer_id", string payload.transfer_id)
          ∷ ("code", string (error_code_to_protocol payload.code))
          ∷ ("message", string payload.message)
          ∷ [])))

  unfoldable pub decode_file_reject_payload : Text → Result FileRejectPayload
  decode_file_reject_payload bytes = decode_payload lib bytes λ json. do
    transfer_id ← required_string lib json "transfer_id"
    code_text ← required_string lib json "code"
    message ← required_string lib json "message"
    check (validate_transfer_id transfer_id) (
        error_code_from_protocol code_text >>= λ code.
        success (record { transfer_id = transfer_id; code = code; message = message }))

  unfoldable pub encode_file_finish_payload : FileFinishPayload → Result Text
  encode_file_finish_payload payload =
      check (validate_transfer_id payload.transfer_id)
        (dump_json lib (object (("transfer_id", string payload.transfer_id) ∷ [])))

  unfoldable pub decode_file_finish_payload : Text → Result FileFinishPayload
  decode_file_finish_payload bytes = decode_payload lib bytes λ json. do
    transfer_id ← required_string lib json "transfer_id"
    check (validate_transfer_id transfer_id) (success (record { transfer_id = transfer_id }))

  unfoldable pub encode_file_result_payload : FileResultPayload → Result Text
  encode_file_result_payload payload = check (validate_transfer_id payload.transfer_id) (
      dump_json lib (
        object (
          ("transfer_id", string payload.transfer_id)
          ∷ ("ok", boolean payload.ok)
          ∷ ("code", string (error_code_to_protocol payload.code))
          ∷ ("message", string payload.message)
          ∷ [])))

  unfoldable pub decode_file_result_payload : Text → Result FileResultPayload
  decode_file_result_payload bytes = decode_payload lib bytes λ json. do
    transfer_id ← required_string lib json "transfer_id"
    ok ← required_bool lib json "ok"
    code_text ← required_string lib json "code"
    message ← required_string lib json "message"
    check (validate_transfer_id transfer_id) (
        error_code_from_protocol code_text >>= λ code.
        success (record { transfer_id = transfer_id; ok = ok; code = code; message = message }))
