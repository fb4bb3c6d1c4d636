-- ===== src/Protocol/Payload/Lan.antt =====
-- The payloads that switch LAN transfer on and off and report its state.
pub mod RoundTrip
use core_desk.Base.Int.{pos}
use core_desk.Base.{ℕ, Bool, [], ◌∷◌}
use core_desk.Common.{Result, success, Text, ◌>>=◌, check}
use core_desk.Protocol.Json.{JsonLibrary}
use core_desk.Protocol.Json.Fields.{
  required_bool, required_string, required_u16, required_u64, dump_json, decode_payload,
}
use core_desk.Protocol.Payload.Checks.{validate_non_empty_path}

pub data EnableLanTransferRequestPayload : Type 0 where
  enable_lan_transfer_request_payload : EnableLanTransferRequestPayload

pub record EnableLanTransferResponsePayload : Type 0 where
  pub success : Bool
  pub port : ℕ

pub data DisableLanTransferRequestPayload : Type 0 where
  disable_lan_transfer_request_payload : DisableLanTransferRequestPayload

pub record DisableLanTransferResponsePayload : Type 0 where
  pub success : Bool

pub record SetReceiveDirectoryRequestPayload : Type 0 where
  pub path : Text

pub record SetReceiveDirectoryResponsePayload : Type 0 where
  pub success : Bool
  pub path : Text

pub data GetTransferStatusRequestPayload : Type 0 where
  get_transfer_status_request_payload : GetTransferStatusRequestPayload

pub record GetTransferStatusResponsePayload : Type 0 where
  pub enabled : Bool
  pub port : ℕ
  pub receive_directory : Text
  pub active_transfers : ℕ

module _ (lib : JsonLibrary) where
  open lib use {object, string, boolean, integer}

  unfoldable pub encode_enable_lan_transfer_request_payload :
      EnableLanTransferRequestPayload → Result Text
  encode_enable_lan_transfer_request_payload _ = dump_json lib (object [])

  unfoldable pub decode_enable_lan_transfer_request_payload :
      Text → Result EnableLanTransferRequestPayload
  decode_enable_lan_transfer_request_payload bytes =
      decode_payload lib bytes λ json. success enable_lan_transfer_request_payload

  unfoldable pub encode_enable_lan_transfer_response_payload :
      EnableLanTransferResponsePayload → Result Text
  encode_enable_lan_transfer_response_payload payload =
      dump_json lib
        (object (("success", boolean payload.success) ∷ ("port", integer (pos payload.port)) ∷ []))

  unfoldable pub decode_enable_lan_transfer_response_payload :
      Text → Result EnableLanTransferResponsePayload
  decode_enable_lan_transfer_response_payload bytes = decode_payload lib bytes λ json. do
    succeeded ← required_bool lib json "success"
    port ← required_u16 lib json "port"
    success (record { success = succeeded; port = port })

  unfoldable pub encode_disable_lan_transfer_request_payload :
      DisableLanTransferRequestPayload → Result Text
  encode_disable_lan_transfer_request_payload _ = dump_json lib (object [])

  unfoldable pub decode_disable_lan_transfer_request_payload :
      Text → Result DisableLanTransferRequestPayload
  decode_disable_lan_transfer_request_payload bytes =
      decode_payload lib bytes λ json. success disable_lan_transfer_request_payload

  unfoldable pub encode_disable_lan_transfer_response_payload :
      DisableLanTransferResponsePayload → Result Text
  encode_disable_lan_transfer_response_payload payload =
      dump_json lib (object (("success", boolean payload.success) ∷ []))

  unfoldable pub decode_disable_lan_transfer_response_payload :
      Text → Result DisableLanTransferResponsePayload
  decode_disable_lan_transfer_response_payload bytes = decode_payload lib bytes λ json. do
    succeeded ← required_bool lib json "success"
    success (record { success = succeeded })

  unfoldable pub encode_set_receive_directory_request_payload :
      SetReceiveDirectoryRequestPayload → Result Text
  encode_set_receive_directory_request_payload payload =
      check (validate_non_empty_path payload.path)
        (dump_json lib (object (("path", string payload.path) ∷ [])))

  unfoldable pub decode_set_receive_directory_request_payload :
      Text → Result SetReceiveDirectoryRequestPayload
  decode_set_receive_directory_request_payload bytes = decode_payload lib bytes λ json. do
    path ← required_string lib json "path"
    check (validate_non_empty_path path) (success (record { path = path }))

  unfoldable pub encode_set_receive_directory_response_payload :
      SetReceiveDirectoryResponsePayload → Result Text
  encode_set_receive_directory_response_payload payload =
      check (validate_non_empty_path payload.path) (
        dump_json lib
          (object (("success", boolean payload.success) ∷ ("path", string payload.path) ∷ [])))

  unfoldable pub decode_set_receive_directory_response_payload :
      Text → Result SetReceiveDirectoryResponsePayload
  decode_set_receive_directory_response_payload bytes = decode_payload lib bytes λ json. do
    succeeded ← required_bool lib json "success"
    path ← required_string lib json "path"
    check (validate_non_empty_path path) (success (record { success = succeeded; path = path }))

  unfoldable pub encode_get_transfer_status_request_payload :
      GetTransferStatusRequestPayload → Result Text
  encode_get_transfer_status_request_payload _ = dump_json lib (object [])

  unfoldable pub decode_get_transfer_status_request_payload :
      Text → Result GetTransferStatusRequestPayload
  decode_get_transfer_status_request_payload bytes =
      decode_payload lib bytes λ json. success get_transfer_status_request_payload

  unfoldable pub encode_get_transfer_status_response_payload :
      GetTransferStatusResponsePayload → Result Text
  encode_get_transfer_status_response_payload payload =
      check (validate_non_empty_path payload.receive_directory) (
        dump_json lib (
          object (
            ("enabled", boolean payload.enabled)
            ∷ ("port", integer (pos payload.port))
            ∷ ("receive_directory", string payload.receive_directory)
            ∷ ("active_transfers", integer (pos payload.active_transfers))
            ∷ [])))

  unfoldable pub decode_get_transfer_status_response_payload :
      Text → Result GetTransferStatusResponsePayload
  decode_get_transfer_status_response_payload bytes = decode_payload lib bytes λ json. do
    enabled ← required_bool lib json "enabled"
    port ← required_u16 lib json "port"
    receive_directory ← required_string lib json "receive_directory"
    active_transfers ← required_u64 lib json "active_transfers"
    check (validate_non_empty_path receive_directory) (
        success (record {
          enabled = enabled;
          port = port;
          receive_directory = receive_directory;
          active_transfers = active_transfers;
        }))
