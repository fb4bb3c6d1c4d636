-- ===== src/Protocol/Payload/SendFile/RoundTrip.antt =====
-- A payload of this kind that was encoded is decoded to itself.
use core_desk.Base.{◌<◌, ◌^◌, ◌≡◌, refl, ◌∙◌, true, ◌&&◌, not, is_nil, ◌==◌}
use core_desk.Common.{success, Text, check-eq-success, check-ok, void_ok, require, text, is_ok_code}
use core_desk.Protocol.Json.{JsonLibrary, JsonLaws, member}
use core_desk.Protocol.Json.Laws.{
  decode_payload-dump, required_bool-object, required_string-object, required_u16-object,
}
use core_desk.Protocol.Json.ErrorNames.{
  error_code_to_protocol, error_code_from_protocol-to_protocol,
}
use core_desk.Protocol.Payload.SendFile.{
  SendFileRequestPayload, encode_send_file_request_payload, decode_send_file_request_payload,
  SendFileAcceptedPayload, encode_send_file_accepted_payload, decode_send_file_accepted_payload,
  SendFileResultPayload, encode_send_file_result_payload, decode_send_file_result_payload,
  ErrorResponsePayload, encode_error_response_payload, decode_error_response_payload,
}

module _ {lib : JsonLibrary} (law : JsonLaws lib) where
  pub decode-encode_send_file_request :
      (p : SendFileRequestPayload) (b : Text)
      → p.port < 2 ^ 16
      → encode_send_file_request_payload lib p ≡ success b
      → decode_send_file_request_payload lib b ≡ success p
  unfolding encode_send_file_request_payload decode_send_file_request_payload member
  decode-encode_send_file_request p b w_port h =
      let (v0, h0) = check-eq-success _ _ h in
      let (v1, h1) = check-eq-success _ _ h0 in
      let (v2, h2) = check-eq-success _ _ h1 in
      decode_payload-dump law _ b _ h2
      ∙ rw (
        required_string-object law _ "file_path" p.file_path refl,
        required_string-object law _ "host" p.host refl,
        required_u16-object law _ "port" p.port refl w_port,
        check-ok (require (not (is_nil p.file_path)) (text "file_path must not be empty")) v0,
        check-ok (require (not (is_nil p.host)) (text "host must not be empty")) v1,
        check-ok (require (not (p.port == 0)) (text "port must be in range 1..65535")) v2,
      )

  pub decode-encode_send_file_accepted :
      (p : SendFileAcceptedPayload) (b : Text)
      → encode_send_file_accepted_payload lib p ≡ success b
      → decode_send_file_accepted_payload lib b ≡ success p
  unfolding encode_send_file_accepted_payload decode_send_file_accepted_payload member
  decode-encode_send_file_accepted p b h =
      decode_payload-dump law _ b _ h ∙ rw (required_bool-object law _ "accepted" p.accepted refl)

  pub decode-encode_send_file_result :
      (p : SendFileResultPayload) (b : Text)
      → void_ok (
          require
            (not (p.success && not (is_ok_code p.code)))
            (text "successful result must use OK"))
        ≡ true
      → void_ok (
          require (not (not p.success && is_ok_code p.code)) (text "failed result must not use OK"))
        ≡ true
      → encode_send_file_result_payload lib p ≡ success b
      → decode_send_file_result_payload lib b ≡ success p
  unfolding encode_send_file_result_payload decode_send_file_result_payload member
  decode-encode_send_file_result p b c0 c1 h =
      decode_payload-dump law _ b _ h
      ∙ rw (
        required_bool-object law _ "success" p.success refl,
        required_string-object law _ "code" (error_code_to_protocol p.code) refl,
        required_string-object law _ "message" p.message refl,
        error_code_from_protocol-to_protocol p.code,
        check-ok
            (require (not (p.success && not (is_ok_code p.code)))
              (text "successful result must use OK"))
            c0,
        check-ok
            (require (not (not p.success && is_ok_code p.code))
              (text "failed result must not use OK"))
            c1,
      )

  pub decode-encode_error_response :
      (p : ErrorResponsePayload) (b : Text)
      → encode_error_response_payload lib p ≡ success b
      → decode_error_response_payload lib b ≡ success p
  unfolding encode_error_response_payload decode_error_response_payload member
  decode-encode_error_response p b h =
      decode_payload-dump law _ b _ h
      ∙ rw (
        required_bool-object law _ "ok" p.ok refl,
        required_string-object law _ "code" (error_code_to_protocol p.code) refl,
        required_string-object law _ "message" p.message refl,
        error_code_from_protocol-to_protocol p.code,
      )
