-- ===== src/Network/Server/SessionExample.antt =====
-- A session over the file system in memory.
use core_desk.Base.{
  false, ℕ, ◌≡◌, refl, true, [], ◌∷◌, Option, none, some, not, ◌&&◌, arith, text_eq, contains,
}
use core_desk.Common.{Text, text, Result, success, failure, check, require, void_ok}
use core_desk.Protocol.Json.Sample.{sample, running}
use core_desk.Protocol.Json.Fields.{
  required_string, required_u64, dump_json, decode_payload, parse_json,
}
use core_desk.Protocol.MessageTypes.{file_offer, file_chunk, file_finish}
use core_desk.Protocol.Frame.{Frame}
use core_desk.Protocol.Payload.Checks.{
  is_lower_hex, is_safe_transfer_file_name, validate_transfer_id, validate_file_name,
  validate_chunk_size, validate_sha256,
}
use core_desk.Protocol.Payload.Chunk.{
  FileChunkPayload, encode_file_chunk_payload, decode_file_chunk_payload,
}
use core_desk.Protocol.Payload.Transfer.{
  FileOfferPayload, encode_file_offer_payload, decode_file_offer_payload,
  encode_file_accept_payload, encode_file_finish_payload, decode_file_finish_payload,
}
use core_desk.Network.Qt.Memory.{memory, memory_laws, is_some}
use core_desk.Network.Server.{Connection, new_connection, Server}
use core_desk.Network.Server.Receive.{path_join, validate_offer_target}
use core_desk.Network.Server.Handlers.{dispatch_frames}
use core_desk.Network.Server.Session.Reliable.{IsReliable, Answers}
use core_desk.Network.Server.Session.Chunks.{Carries}
use core_desk.Network.Server.Session.{session-content}

abbrev some_id : Text
some_id = text "00112233445566778899aabbccddeeff"

abbrev offer : FileOfferPayload
offer = record {
  transfer_id = some_id;
  file_name = text "b";
  file_size = 3;
  chunk_size = 65536;
  sha256 = text "00112233445566778899aabbccddeeff00112233445566778899aabbccddeeff";
}

abbrev bytes_of : Result Text → Text
bytes_of (success b) = b
bytes_of (failure e) = []

moves :
    (old new : Option Text) (b : Text)
    → old ≡ some b
    → new ≡ none
    → (is_some old && not (is_some new)) ≡ true
moves old new b there free = rw (there, free)

memory-IsReliable : IsReliable memory
memory-IsReliable = record {
  opens = λ w p. refl;
  writes = λ w p b. refl;
  flushes = λ w p. refl;
  renames = λ w old new b there free. moves (w.files old) (w.files new) b there free;
  drained = λ w k. refl;
  takes = λ w k b. refl;
}

abbrev greeted : Connection
greeted = record (new_connection 1) { hello_complete = true }

codecs : Unit {0}
unfolding encode_file_offer_payload decode_file_offer_payload encode_file_accept_payload
    encode_file_finish_payload decode_file_finish_payload check require required_string required_u64
    dump_json decode_payload parse_json is_lower_hex is_safe_transfer_file_name validate_transfer_id
    validate_file_name validate_chunk_size validate_sha256 text text_eq contains
codecs = tt

offer_payload : Text
unfolding codecs running
offer_payload = bytes_of (encode_file_offer_payload sample offer)

decoded_offer : decode_file_offer_payload sample offer_payload ≡ success offer
unfolding codecs running offer_payload
decoded_offer = refl

abbrev chunk : FileChunkPayload
chunk = record { transfer_id = some_id; offset = 0; chunk = 7 ∷ 8 ∷ 9 ∷ [] }

chunk_payload : Text
unfolding encode_file_chunk_payload text codecs
chunk_payload = bytes_of (encode_file_chunk_payload chunk)

decoded_chunk : decode_file_chunk_payload chunk_payload ≡ success chunk
unfolding chunk_payload encode_file_chunk_payload decode_file_chunk_payload text codecs
decoded_chunk = refl

finish_payload : Text
unfolding codecs running
finish_payload = bytes_of (encode_file_finish_payload sample (record { transfer_id = some_id }))

decoded_finish :
    decode_file_finish_payload sample finish_payload ≡ success (record { transfer_id = some_id })
unfolding codecs running finish_payload
decoded_finish = refl

abbrev frame : ℕ → Text → Frame
frame type payload = record { type = type; flags = 0; request_id = 4; payload = payload }

accept_payload : Text
unfolding codecs running
accept_payload =
    bytes_of
      (encode_file_accept_payload sample (record { transfer_id = some_id; start_offset = 0 }))

answers : Answers sample 4 offer
unfolding accept_payload codecs running
answers = record { payload = accept_payload; encoded = refl; short = omega arith }

abbrev ready : Server memory
ready = record {
  node_name = text "node";
  receive_directory = text "in";
  active_transfer = none;
  connections = greeted ∷ [];
  world = record { files = λ p. none; writes = λ p. [] };
  terminated = false;
}

free_target : void_ok (validate_offer_target memory offer ready) ≡ true
unfolding validate_offer_target text text_eq
free_target = refl

carried : Carries some_id 0 (frame file_chunk chunk_payload ∷ []) (7 ∷ 8 ∷ 9 ∷ [])
unfolding Carries
carried = (refl, chunk, decoded_chunk, refl, refl, [], refl, refl)

session-content_example :
    memory.content
      (dispatch_frames memory sample 1
        (frame file_offer offer_payload
          ∷ frame file_chunk chunk_payload
          ∷ frame file_finish finish_payload
          ∷ [])
        ready).world
      (path_join ready.receive_directory offer.file_name)
    ≡ some (7 ∷ 8 ∷ 9 ∷ [])
session-content_example =
    session-content memory_laws sample memory-IsReliable 1 greeted refl refl ready
      (frame file_offer offer_payload) (frame file_finish finish_payload)
      (frame file_chunk chunk_payload ∷ []) offer (record { transfer_id = some_id })
      (7 ∷ 8 ∷ 9 ∷ []) (λ t at. absurd (cc)) refl refl free_target refl refl decoded_offer answers
      refl decoded_finish refl carried refl refl
