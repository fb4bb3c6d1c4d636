-- ===== src/Protocol/Payload/Handshake/RoundTrip.antt =====
-- A payload of this kind that was encoded is decoded to itself.
use core_desk.Base.{◌<◌, ◌^◌, ◌≡◌, refl, ◌∙◌, ◌==◌}
use core_desk.Common.{success, Text, check-eq-success, check-ok, require, text}
use core_desk.Protocol.Json.{JsonLibrary, JsonLaws, member}
use core_desk.Protocol.Json.Laws.{decode_payload-dump, required_string-object, required_u32-object}
use core_desk.Protocol.Frame.{frame_version}
use core_desk.Protocol.Payload.Handshake.{
  HelloPayload, encode_hello_payload, decode_hello_payload, HelloAckPayload,
  encode_hello_ack_payload, decode_hello_ack_payload,
}

module _ {lib : JsonLibrary} (law : JsonLaws lib) where
  pub decode-encode_hello :
      (p : HelloPayload) (b : Text)
      → p.protocol_version < 2 ^ 32
      → encode_hello_payload lib p ≡ success b
      → decode_hello_payload lib b ≡ success p
  unfolding encode_hello_payload decode_hello_payload member
  decode-encode_hello p b w_protocol_version h =
      let (v0, h0) = check-eq-success _ _ h in
      decode_payload-dump law _ b _ h0
      ∙ rw (
        required_u32-object law _ "protocol_version" p.protocol_version refl w_protocol_version,
        required_string-object law _ "node_name" p.node_name refl,
        check-ok (require (p.protocol_version == frame_version) (text "invalid protocol_version"))
            v0,
      )

  pub decode-encode_hello_ack :
      (p : HelloAckPayload) (b : Text)
      → p.protocol_version < 2 ^ 32
      → encode_hello_ack_payload lib p ≡ success b
      → decode_hello_ack_payload lib b ≡ success p
  unfolding encode_hello_ack_payload decode_hello_ack_payload member
  decode-encode_hello_ack p b w_protocol_version h =
      let (v0, h0) = check-eq-success _ _ h in
      decode_payload-dump law _ b _ h0
      ∙ rw (
        required_u32-object law _ "protocol_version" p.protocol_version refl w_protocol_version,
        required_string-object law _ "node_name" p.node_name refl,
        check-ok (require (p.protocol_version == frame_version) (text "invalid protocol_version"))
            v0,
      )
