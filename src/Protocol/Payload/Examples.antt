-- ===== src/Protocol/Payload/Examples.antt =====
-- The payload codecs at concrete payloads, over the sample library.
use core_desk.Base.Int.{pos, negsuc}
use core_desk.Base.{◌≤◌, ◌≡◌, refl, true, false, [], ◌∷◌, length, text_eq, contains, arith}
use core_desk.Common.{Result, success, failure, Text, text, check, require, void_ok}
use core_desk.Protocol.Frame.{max_payload_size}
use core_desk.Protocol.Json.Fields.{
  required_string, required_u64, dump_json, decode_payload, parse_json,
}
use core_desk.Protocol.Json.Sample.{sample, sample_laws, running}
use core_desk.Protocol.Payload.Checks.{
  is_lower_hex, is_safe_transfer_file_name, validate_transfer_id, validate_file_name,
  validate_chunk_size, validate_sha256,
}
use core_desk.Protocol.Payload.Search.{
  SearchResponsePayload, SearchResultPayload, is_valid_result_type, encode_search_response_payload,
}
use core_desk.Protocol.Payload.Transfer.{
  FileOfferPayload, encode_file_offer_payload, decode_file_offer_payload,
}
use core_desk.Protocol.Payload.Transfer.Safety.{IsAcceptable, decode_file_offer-IsAcceptable}
use core_desk.Protocol.Payload.Chunk.{
  FileChunkPayload, encode_file_chunk_payload, decode_file_chunk_payload,
}
use core_desk.Protocol.Payload.Chunk.RoundTrip.{decode-encode_file_chunk}
use core_desk.Protocol.Payload.Kinds.{Kind, encode_kind, decode_kind, decode-encode}

abbrev some_id : Text
some_id = text "00112233445566778899aabbccddeeff"

abbrev some_hash : Text
some_hash = text "00112233445566778899aabbccddeeff00112233445566778899aabbccddeeff"

abbrev offer : FileOfferPayload
offer = record {
  transfer_id = some_id;
  file_name = text "report.txt";
  file_size = 70000;
  chunk_size = 65536;
  sha256 = some_hash;
}

codecs : Unit {0}
unfolding encode_file_offer_payload decode_file_offer_payload check require required_string
    required_u64 dump_json decode_payload parse_json
codecs = tt

checks : Unit {0}
unfolding is_lower_hex is_safe_transfer_file_name validate_transfer_id validate_file_name
    validate_chunk_size validate_sha256 text text_eq contains
checks = tt

abbrev bytes_of : Result Text → Text
bytes_of (success b) = b
bytes_of (failure e) = []

offer_bytes : Text
unfolding codecs checks running
offer_bytes = bytes_of (encode_file_offer_payload sample offer)

encode_offer : encode_file_offer_payload sample offer ≡ success offer_bytes
unfolding codecs checks running offer_bytes
encode_offer = refl

decode-encode_example : decode_kind sample Kind.file_offer offer_bytes ≡ success offer
unfolding encode_kind
decode-encode_example = decode-encode sample_laws Kind.file_offer offer offer_bytes tt encode_offer

decode_offer : decode_file_offer_payload sample offer_bytes ≡ success offer
unfolding decode_kind
decode_offer =
    decode-encode sample_laws Kind.file_offer offer offer_bytes tt
      (unfold encode_kind in encode_offer)

decode_file_offer-IsAcceptable_example : IsAcceptable offer
decode_file_offer-IsAcceptable_example =
    decode_file_offer-IsAcceptable sample offer_bytes offer decode_offer

-- A name that climbs out of its directory is refused.
refuse_parent : void_ok (validate_file_name (text "../x")) ≡ false
unfolding checks require
refuse_parent = refl

abbrev hit : SearchResultPayload
hit = record {
  name = text "a.txt";
  path = text "/r/a.txt";
  relative_path = text "a.txt";
  size = 12;
  modified_ms = negsuc 4;
  type = text "file";
  score = pos 100;
}

abbrev response : SearchResponsePayload
response = record {
  generation = 3;
  stale = true;
  elapsed_us = 15;
  from_cache = false;
  results = hit ∷ [];
}

response_bytes : Text
unfolding encode_search_response_payload codecs checks running is_valid_result_type
response_bytes = bytes_of (encode_search_response_payload sample response)

abbrev chunk : FileChunkPayload
chunk = record { transfer_id = some_id; offset = 65536; chunk = 1 ∷ 2 ∷ 255 ∷ [] }

chunk_bytes : Text
unfolding encode_file_chunk_payload codecs checks
chunk_bytes = bytes_of (encode_file_chunk_payload chunk)

decode-encode_file_chunk_example :
    (decode_file_chunk_payload chunk_bytes ≡ success chunk)
    × (length chunk_bytes ≤ max_payload_size)
unfolding encode_file_chunk_payload codecs checks chunk_bytes
decode-encode_file_chunk_example = decode-encode_file_chunk chunk chunk_bytes (omega arith) refl
