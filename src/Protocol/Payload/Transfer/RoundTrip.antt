-- ===== src/Protocol/Payload/Transfer/RoundTrip.antt =====
-- A payload of this kind that was encoded is decoded to itself.
use core_desk.Base.{◌≡◌, refl, ◌∙◌, ◌==◌}
use core_desk.Common.{success, Text, check-eq-success, check-ok, require, text}
use core_desk.Protocol.Json.{JsonLibrary, JsonLaws, member}
use core_desk.Protocol.Json.Laws.{
  decode_payload-dump, required_bool-object, required_string-object, required_u64-object,
}
use core_desk.Protocol.Json.ErrorNames.{
  error_code_to_protocol, error_code_from_protocol-to_protocol,
}
use core_desk.Protocol.Payload.Checks.{
  validate_transfer_id, validate_sha256, validate_file_name, validate_chunk_size,
}
use core_desk.Protocol.Payload.Transfer.{
  FileOfferPayload, encode_file_offer_payload, decode_file_offer_payload, FileAcceptPayload,
  encode_file_accept_payload, decode_file_accept_payload, FileRejectPayload,
  encode_file_reject_payload, decode_file_reject_payload, FileFinishPayload,
  encode_file_finish_payload, decode_file_finish_payload, FileResultPayload,
  encode_file_result_payload, decode_file_result_payload,
}

module _ {lib : JsonLibrary} (law : JsonLaws lib) where
  pub decode-encode_file_offer :
      (p : FileOfferPayload) (b : Text)
      → encode_file_offer_payload lib p ≡ success b
      → decode_file_offer_payload lib b ≡ success p
  unfolding encode_file_offer_payload decode_file_offer_payload member
  decode-encode_file_offer p b h =
      let (v0, h0) = check-eq-success _ _ h in
      let (v1, h1) = check-eq-success _ _ h0 in
      let (v2, h2) = check-eq-success _ _ h1 in
      let (v3, h3) = check-eq-success _ _ h2 in
      decode_payload-dump law _ b _ h3
      ∙ rw (
        required_string-object law _ "transfer_id" p.transfer_id refl,
        required_string-object law _ "file_name" p.file_name refl,
        required_u64-object law _ "file_size" p.file_size refl,
        required_u64-object law _ "chunk_size" p.chunk_size refl,
        required_string-object law _ "sha256" p.sha256 refl,
        check-ok (validate_transfer_id p.transfer_id) v0,
        check-ok (validate_file_name p.file_name) v1,
        check-ok (validate_chunk_size p.chunk_size) v2,
        check-ok (validate_sha256 p.sha256) v3,
      )

  pub decode-encode_file_accept :
      (p : FileAcceptPayload) (b : Text)
      → encode_file_accept_payload lib p ≡ success b
      → decode_file_accept_payload lib b ≡ success p
  unfolding encode_file_accept_payload decode_file_accept_payload member
  decode-encode_file_accept p b h =
      let (v0, h0) = check-eq-success _ _ h in
      let (v1, h1) = check-eq-success _ _ h0 in
      decode_payload-dump law _ b _ h1
      ∙ rw (
        required_string-object law _ "transfer_id" p.transfer_id refl,
        required_u64-object law _ "start_offset" p.start_offset refl,
        check-ok (validate_transfer_id p.transfer_id) v0,
        check-ok (require (p.start_offset == 0) (text "start_offset must be 0 in v1.0")) v1,
      )

  pub decode-encode_file_reject :
      (p : FileRejectPayload) (b : Text)
      → encode_file_reject_payload lib p ≡ success b
      → decode_file_reject_payload lib b ≡ success p
  unfolding encode_file_reject_payload decode_file_reject_payload member
  decode-encode_file_reject p b h =
      let (v0, h0) = check-eq-success _ _ h in
      decode_payload-dump law _ b _ h0
      ∙ rw (
        required_string-object law _ "transfer_id" p.transfer_id refl,
        required_string-object law _ "code" (error_code_to_protocol p.code) refl,
        required_string-object law _ "message" p.message refl,
        check-ok (validate_transfer_id p.transfer_id) v0,
        error_code_from_protocol-to_protocol p.code,
      )

  pub decode-encode_file_finish :
      (p : FileFinishPayload) (b : Text)
      → encode_file_finish_payload lib p ≡ success b
      → decode_file_finish_payload lib b ≡ success p
  unfolding encode_file_finish_payload decode_file_finish_payload member
  decode-encode_file_finish p b h =
      let (v0, h0) = check-eq-success _ _ h in
      decode_payload-dump law _ b _ h0
      ∙ rw (
        required_string-object law _ "transfer_id" p.transfer_id refl,
        check-ok (validate_transfer_id p.transfer_id) v0,
      )

  pub decode-encode_file_result :
      (p : FileResultPayload) (b : Text)
      → encode_file_result_payload lib p ≡ success b
      → decode_file_result_payload lib b ≡ success p
  unfolding encode_file_result_payload decode_file_result_payload member
  decode-encode_file_result p b h =
      let (v0, h0) = check-eq-success _ _ h in
      decode_payload-dump law _ b _ h0
      ∙ rw (
        required_string-object law _ "transfer_id" p.transfer_id refl,
        required_bool-object law _ "ok" p.ok refl,
        required_string-object law _ "code" (error_code_to_protocol p.code) refl,
        required_string-object law _ "message" p.message refl,
        check-ok (validate_transfer_id p.transfer_id) v0,
        error_code_from_protocol-to_protocol p.code,
      )
