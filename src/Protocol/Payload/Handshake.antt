-- ===== src/Protocol/Payload/Handshake.antt =====
-- The payloads that open a transfer connection: Hello and HelloAck.
pub mod RoundTrip
use core_desk.Base.Int.{pos}
use core_desk.Base.{ℕ, [], ◌∷◌, ◌==◌}
use core_desk.Common.{Result, success, Text, ◌>>=◌, check, require, text}
use core_desk.Protocol.Json.{JsonLibrary}
use core_desk.Protocol.Json.Fields.{required_string, required_u32, dump_json, decode_payload}
use core_desk.Protocol.Frame.{frame_version}

pub record HelloPayload : Type 0 where
  pub protocol_version : ℕ
  pub node_name : Text

pub record HelloAckPayload : Type 0 where
  pub protocol_version : ℕ
  pub node_name : Text

module _ (lib : JsonLibrary) where
  open lib use {object, string, integer}

  unfoldable pub encode_hello_payload : HelloPayload → Result Text
  encode_hello_payload payload =
      check (require (payload.protocol_version == frame_version) (text "invalid protocol_version"))
        (dump_json lib (
          object (
            ("protocol_version", integer (pos payload.protocol_version))
            ∷ ("node_name", string payload.node_name)
            ∷ [])))

  unfoldable pub decode_hello_payload : Text → Result HelloPayload
  decode_hello_payload bytes = decode_payload lib bytes λ json. do
    protocol_version ← required_u32 lib json "protocol_version"
    node_name ← required_string lib json "node_name"
    check (require (protocol_version == frame_version) (text "invalid protocol_version"))
        (success (record { protocol_version = protocol_version; node_name = node_name }))

  unfoldable pub encode_hello_ack_payload : HelloAckPayload → Result Text
  encode_hello_ack_payload payload =
      check (require (payload.protocol_version == frame_version) (text "invalid protocol_version"))
        (dump_json lib (
          object (
            ("protocol_version", integer (pos payload.protocol_version))
            ∷ ("node_name", string payload.node_name)
            ∷ [])))

  unfoldable pub decode_hello_ack_payload : Text → Result HelloAckPayload
  decode_hello_ack_payload bytes = decode_payload lib bytes λ json. do
    protocol_version ← required_u32 lib json "protocol_version"
    node_name ← required_string lib json "node_name"
    check (require (protocol_version == frame_version) (text "invalid protocol_version"))
        (success (record { protocol_version = protocol_version; node_name = node_name }))
