-- ===== src/Protocol/Payload/Lan/RoundTrip.antt =====
-- A payload of this kind that was encoded is decoded to itself.
use core_desk.Base.{◌<◌, ◌^◌, ◌≡◌, refl, ◌∙◌}
use core_desk.Common.{success, Text, check-eq-success, check-ok}
use core_desk.Protocol.Json.{JsonLibrary, JsonLaws, member}
use core_desk.Protocol.Json.Laws.{
  decode_payload-dump, required_bool-object, required_string-object, required_u16-object,
  required_u64-object,
}
use core_desk.Protocol.Payload.Checks.{validate_non_empty_path}
use core_desk.Protocol.Payload.Lan.{
  EnableLanTransferRequestPayload, encode_enable_lan_transfer_request_payload,
  decode_enable_lan_transfer_request_payload, enable_lan_transfer_request_payload,
  EnableLanTransferResponsePayload, encode_enable_lan_transfer_response_payload,
  decode_enable_lan_transfer_response_payload, DisableLanTransferRequestPayload,
  encode_disable_lan_transfer_request_payload, decode_disable_lan_transfer_request_payload,
  disable_lan_transfer_request_payload, DisableLanTransferResponsePayload,
  encode_disable_lan_transfer_response_payload, decode_disable_lan_transfer_response_payload,
  SetReceiveDirectoryRequestPayload, encode_set_receive_directory_request_payload,
  decode_set_receive_directory_request_payload, SetReceiveDirectoryResponsePayload,
  encode_set_receive_directory_response_payload, decode_set_receive_directory_response_payload,
  GetTransferStatusRequestPayload, encode_get_transfer_status_request_payload,
  decode_get_transfer_status_request_payload, get_transfer_status_request_payload,
  GetTransferStatusResponsePayload, encode_get_transfer_status_response_payload,
  decode_get_transfer_status_response_payload,
}

module _ {lib : JsonLibrary} (law : JsonLaws lib) where
  pub decode-encode_enable_lan_transfer_request :
      (p : EnableLanTransferRequestPayload) (b : Text)
      → encode_enable_lan_transfer_request_payload lib p ≡ success b
      → decode_enable_lan_transfer_request_payload lib b ≡ success p
  unfolding encode_enable_lan_transfer_request_payload decode_enable_lan_transfer_request_payload
      member
  decode-encode_enable_lan_transfer_request enable_lan_transfer_request_payload b h =
      decode_payload-dump law _ b _ h

  pub decode-encode_enable_lan_transfer_response :
      (p : EnableLanTransferResponsePayload) (b : Text)
      → p.port < 2 ^ 16
      → encode_enable_lan_transfer_response_payload lib p ≡ success b
      → decode_enable_lan_transfer_response_payload lib b ≡ success p
  unfolding encode_enable_lan_transfer_response_payload decode_enable_lan_transfer_response_payload
      member
  decode-encode_enable_lan_transfer_response p b w_port h =
      decode_payload-dump law _ b _ h
      ∙ rw (
        required_bool-object law _ "success" p.success refl,
        required_u16-object law _ "port" p.port refl w_port,
      )

  pub decode-encode_disable_lan_transfer_request :
      (p : DisableLanTransferRequestPayload) (b : Text)
      → encode_disable_lan_transfer_request_payload lib p ≡ success b
      → decode_disable_lan_transfer_request_payload lib b ≡ success p
  unfolding encode_disable_lan_transfer_request_payload decode_disable_lan_transfer_request_payload
      member
  decode-encode_disable_lan_transfer_request disable_lan_transfer_request_payload b h =
      decode_payload-dump law _ b _ h

  pub decode-encode_disable_lan_transfer_response :
      (p : DisableLanTransferResponsePayload) (b : Text)
      → encode_disable_lan_transfer_response_payload lib p ≡ success b
      → decode_disable_lan_transfer_response_payload lib b ≡ success p
  unfolding encode_disable_lan_transfer_response_payload
      decode_disable_lan_transfer_response_payload member
  decode-encode_disable_lan_transfer_response p b h =
      decode_payload-dump law _ b _ h ∙ rw (required_bool-object law _ "success" p.success refl)

  pub decode-encode_set_receive_directory_request :
      (p : SetReceiveDirectoryRequestPayload) (b : Text)
      → encode_set_receive_directory_request_payload lib p ≡ success b
      → decode_set_receive_directory_request_payload lib b ≡ success p
  unfolding encode_set_receive_directory_request_payload
      decode_set_receive_directory_request_payload member
  decode-encode_set_receive_directory_request p b h =
      let (v0, h0) = check-eq-success _ _ h in
      decode_payload-dump law _ b _ h0
      ∙ rw (
        required_string-object law _ "path" p.path refl,
        check-ok (validate_non_empty_path p.path) v0,
      )

  pub decode-encode_set_receive_directory_response :
      (p : SetReceiveDirectoryResponsePayload) (b : Text)
      → encode_set_receive_directory_response_payload lib p ≡ success b
      → decode_set_receive_directory_response_payload lib b ≡ success p
  unfolding encode_set_receive_directory_response_payload
      decode_set_receive_directory_response_payload member
  decode-encode_set_receive_directory_response p b h =
      let (v0, h0) = check-eq-success _ _ h in
      decode_payload-dump law _ b _ h0
      ∙ rw (
        required_bool-object law _ "success" p.success refl,
        required_string-object law _ "path" p.path refl,
        check-ok (validate_non_empty_path p.path) v0,
      )

  pub decode-encode_get_transfer_status_request :
      (p : GetTransferStatusRequestPayload) (b : Text)
      → encode_get_transfer_status_request_payload lib p ≡ success b
      → decode_get_transfer_status_request_payload lib b ≡ success p
  unfolding encode_get_transfer_status_request_payload decode_get_transfer_status_request_payload
      member
  decode-encode_get_transfer_status_request get_transfer_status_request_payload b h =
      decode_payload-dump law _ b _ h

  pub decode-encode_get_transfer_status_response :
      (p : GetTransferStatusResponsePayload) (b : Text)
      → p.port < 2 ^ 16
      → encode_get_transfer_status_response_payload lib p ≡ success b
      → decode_get_transfer_status_response_payload lib b ≡ success p
  unfolding encode_get_transfer_status_response_payload decode_get_transfer_status_response_payload
      member
  decode-encode_get_transfer_status_response p b w_port h =
      let (v0, h0) = check-eq-success _ _ h in
      decode_payload-dump law _ b _ h0
      ∙ rw (
        required_bool-object law _ "enabled" p.enabled refl,
        required_u16-object law _ "port" p.port refl w_port,
        required_string-object law _ "receive_directory" p.receive_directory refl,
        required_u64-object law _ "active_transfers" p.active_transfers refl,
        check-ok (validate_non_empty_path p.receive_directory) v0,
      )
