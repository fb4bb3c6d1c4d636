-- ===== src/Network/Client/Examples.antt =====
-- The client over sockets and files in memory.
use core_desk.Base.{◌≡◌, refl, inl, true, false, List, [], ◌∷◌, none, some}
use core_desk.Common.{text, success, check, require}
use core_desk.Protocol.Json.Sample.{sample, running}
use core_desk.Protocol.Json.Fields.{dump_json}
use core_desk.Protocol.Payload.Handshake.{encode_hello_payload}
use core_desk.Network.Qt.Memory.{Memory, memory, memory_sockets}
use core_desk.Network.Client.{
  TransferState, OfferState, Client, is_sending, is_connected, is_open, schedule_send_pump,
}
use core_desk.Network.Client.Transfer.{handle_bytes_written}
use core_desk.Network.Client.Handlers.{Event, handle, run}
use core_desk.Network.Client.Flow.{IsFlowing}
use core_desk.Network.Client.Liveness.{GoesOn, run-GoesOn}
use core_desk.Network.Client.Quiet.{Silent}
use core_desk.Network.Client.Silence.{run-Silent}

abbrev disk : Memory
disk = record { files = λ p. none; writes = λ p. [] }

abbrev client_in : TransferState → Client memory
client_in state = record {
  node_name = text "node";
  socket = 1;
  decoder = [];
  handshake_complete = true;
  transfer_state = state;
  offer_state = OfferState.no_offer;
  next_request_id = 3;
  pending_hello_request_id = 0;
  pending_offer_request_id = 2;
  pending_finish_request_id = 0;
  pending_offer_transfer_id = text "00112233445566778899aabbccddeeff";
  hash_generation = 1;
  send_offset = 0;
  send_file_size = 1;
  hash_thread = false;
  hash_jobs = [];
  send_file = some (text "in/a");
  send_pump_scheduled = false;
  write_remainder = [];
  remainder_flush_scheduled = false;
  test_write_acceptance_limit = none;
  notices = [];
  world = disk;
  terminated = false;
}

sender : Client memory
sender = record (client_in TransferState.sending) { send_pump_scheduled = true }

sender-IsFlowing : IsFlowing sample sender
unfolding sender encode_hello_payload running text check require dump_json
sender-IsFlowing = record {
  greets = refl;
  opened = λ sends. refl;
  flushing = λ on full. absurd (cc);
  pushing = λ sends on empty. inl refl;
}

abbrev drained : List (Event memory sample)
drained = Event.written_event 5 ∷ []

sends : is_sending (run memory sample drained sender).transfer_state ≡ true
unfolding sender handle handle_bytes_written schedule_send_pump
sends = refl

connected : is_connected memory (run memory sample drained sender) ≡ true
unfolding sender handle handle_bytes_written schedule_send_pump
connected = refl

run-GoesOn_example :
    (is_open (run memory sample drained sender).send_file ≡ true)
    × GoesOn sample memory_sockets (run memory sample drained sender)
run-GoesOn_example =
    run-GoesOn sample memory_sockets drained sender sender-IsFlowing sends connected

abbrev aftermath : List (Event memory sample)
aftermath =
    Event.read_event (1 ∷ 2 ∷ [])
    ∷ Event.error_event (text "reset")
    ∷ Event.send_pump_event
    ∷ Event.hash_event (success (text "00"))
    ∷ Event.disconnected_event disk
    ∷ []

run-Silent_example :
    Silent
      (client_in TransferState.failed)
      (run memory sample aftermath (client_in TransferState.failed))
run-Silent_example =
    run-Silent sample aftermath (client_in TransferState.failed) refl
      (refl, (refl, (refl, (refl, (refl, tt)))))
