-- ===== src/Network/Client/Transfer.antt =====
-- adapters/qt_network/TcpTransferClient: the transfer of one file, from its hash to its finish.
use core_desk.Base.{
  ℕ, ◌+◌, ◌/◌, ◌%◌, ◌==◌, ltb, true, false, not, ◌&&◌, ◌||◌, if◌then◌else◌, List, [], ◌∷◌, ◌++◌,
  Option, none, some, length, is_nil, drop,
}
use core_desk.Common.{Text, text, ErrorCode, Result, success, failure, VoidResult, void_ok}
use core_desk.Protocol.Json.{JsonLibrary}
use core_desk.Protocol.MessageTypes.{hello, file_offer, file_chunk, file_finish}
use core_desk.Protocol.Frame.{Frame, frame_version}
use core_desk.Protocol.Payload.Handshake.{encode_hello_payload}
use core_desk.Protocol.Payload.Chunk.{encode_file_chunk_payload}
use core_desk.Protocol.Payload.Transfer.{
  FileOfferPayload, encode_file_offer_payload, encode_file_finish_payload,
}
use core_desk.Network.Qt.{Qt}
use core_desk.Network.Client.{
  TransferState, OfferState, HashJob, Client, file_chunk_size, pending_write_high_water_mark,
  increment, is_sending, is_offering, is_finishing, is_idle, is_finished, is_connected,
  total_pending_write_bytes, closed_file, cleanup_transfer_file, fail_transfer, connection_error,
  handle_error, abort, schedule_remainder_flush, schedule_send_pump, write_result,
  after_write_to_socket, send_frame,
}

abbrev hex_digit : ℕ → ℕ
hex_digit n = if ltb n 10 then 48 + n else 87 + n

abbrev pub to_lower_hex : List ℕ → Text
to_lower_hex [] = []
to_lower_hex (b ∷ bs) = hex_digit (b / 16) ∷ hex_digit (b % 16) ∷ to_lower_hex bs

module _ (qt : Qt) where
  abbrev pub frame_of : ℕ → ℕ → Text → Frame
  frame_of type request_id payload = record {
    type = type;
    flags = 0;
    request_id = request_id;
    payload = payload;
  }

  -- `if (!written.ok()) { fail_transfer(written.error()); socket_->abort(); }`.
  abbrev pub abort_failed : Client qt × VoidResult → Client qt
  abort_failed (c, written) =
      if void_ok written then c else abort qt (fail_transfer qt written.error c)

  unfoldable pub cleanup_hash_worker : Client qt → Client qt
  cleanup_hash_worker c = record c { hash_thread = false }

  unfoldable pub start_hash_worker : Text → Client qt → Client qt
  unfolding cleanup_hash_worker
  start_hash_worker path c =
      let c1 : Client qt = cleanup_hash_worker c in
      let generation : ℕ = increment c1.hash_generation in
      let job : HashJob = record {
        generation = generation;
        path = path;
        file_size = qt.file_size c1.world path;
        file_name = qt.file_name path;
      } in
      record c1 {
        hash_generation = generation;
        hash_thread = true;
        hash_jobs = c1.hash_jobs ++ job ∷ [];
      }

  unfoldable pub send_file : Text → Client qt → Client qt × Result ℕ
  unfolding cleanup_transfer_file start_hash_worker
  send_file path c =
      if c.hash_thread
        || is_offering c.transfer_state
        || is_sending c.transfer_state
        || is_finishing c.transfer_state
      then (
        c,
        failure (record { code = ErrorCode.busy; message = text "file transfer already active" }),
      )
      else if not (qt.is_file c.world path)
      then (
        c,
        failure (record { code = ErrorCode.path_not_found; message = text "file does not exist" }),
      )
      else (
        start_hash_worker path (record (cleanup_transfer_file qt c) {
          send_offset = 0;
          send_file_size = qt.file_size c.world path;
          transfer_state = TransferState.offering;
          offer_state = OfferState.no_offer;
        }),
        success 0,
      )

  unfoldable pub flush_taken : ℕ → Client qt → Client qt
  unfolding schedule_remainder_flush schedule_send_pump
  flush_taken n c =
      let rest : Text = drop n c.write_remainder in
      let c1 : Client qt = record c { write_remainder = rest } in
      if is_nil rest then schedule_send_pump qt c1 else schedule_remainder_flush qt c1

  -- `flush_write_remainder` after `write_to_socket`.
  unfoldable pub remainder_written : Option ℕ → Client qt → Client qt
  unfolding fail_transfer abort flush_taken
  remainder_written none c =
      abort qt (fail_transfer qt (connection_error qt (qt.socket_error c.world c.socket)) c)
  remainder_written (some n) c = flush_taken n c

  unfoldable pub flush_write_remainder : Client qt → Client qt
  unfolding schedule_send_pump remainder_written
  flush_write_remainder c =
      let c1 : Client qt = record c { remainder_flush_scheduled = false } in
      if is_nil c.write_remainder
      then schedule_send_pump qt c1
      else if not (is_connected qt c) || is_finished c.transfer_state || is_idle c.transfer_state
      then record c1 { write_remainder = [] }
      else remainder_written (write_result qt c c.write_remainder)
          (after_write_to_socket qt c.write_remainder c1)

  unfoldable pub handle_bytes_written : Client qt → Client qt
  unfolding schedule_remainder_flush schedule_send_pump
  handle_bytes_written c =
      if is_nil c.write_remainder then schedule_send_pump qt c else schedule_remainder_flush qt c

  -- `send_next_chunk` after the frame was sent.
  unfoldable pub chunk_sent : ℕ → Client qt × VoidResult → Client qt
  unfolding fail_transfer abort schedule_send_pump
  chunk_sent size (c, written) =
      if void_ok written
      then schedule_send_pump qt (record c { send_offset = c.send_offset + size })
      else abort qt (fail_transfer qt written.error c)

  unfoldable pub send_chunk : ℕ → Result Text → Client qt → Client qt
  unfolding fail_transfer send_frame chunk_sent
  send_chunk size (failure e) c = fail_transfer qt e c
  send_chunk size (success payload) c = chunk_sent size (
      send_frame qt (frame_of file_chunk c.next_request_id payload)
        (record c { next_request_id = increment c.next_request_id }))

  -- The read of a chunk from the open file.
  unfoldable pub read_chunk : Text → Client qt → Client qt
  unfolding fail_transfer send_chunk
  read_chunk path c =
      let chunk : Text = qt.read c.world path file_chunk_size in
      let c1 : Client qt = record c { world = qt.after_read c.world path file_chunk_size } in
      if is_nil chunk && qt.read_failed c1.world path
      then fail_transfer qt
          (record { code = ErrorCode.io_error; message = qt.file_error c1.world path }) c1
      else send_chunk (length chunk)
          (encode_file_chunk_payload (record {
            transfer_id = c.pending_offer_transfer_id;
            offset = c.send_offset;
            chunk = chunk;
          }))
          c1

  module _ (lib : JsonLibrary) where
    unfoldable pub hello_encoded : Result Text → Client qt → Client qt
    unfolding handle_error fail_transfer abort send_frame
    hello_encoded (failure e) c = handle_error qt e.message c
    hello_encoded (success payload) c = abort_failed (
        send_frame qt (frame_of hello c.next_request_id payload) (record c {
          transfer_state = TransferState.hello_sent;
          pending_hello_request_id = c.next_request_id;
          next_request_id = increment c.next_request_id;
        }))

    unfoldable pub send_hello : Client qt → Client qt
    unfolding hello_encoded
    send_hello c =
        hello_encoded
          (encode_hello_payload lib
            (record { protocol_version = frame_version; node_name = c.node_name }))
          c

    -- `send_file_offer` after the frame was sent.
    unfoldable pub offer_sent : ℕ → Client qt × VoidResult → Client qt × ℕ
    unfolding fail_transfer
    offer_sent request_id (c, written) =
        if void_ok written then (c, request_id) else (fail_transfer qt written.error c, 0)

    unfoldable pub offer_encoded : Text → Result Text → Client qt → Client qt × ℕ
    unfolding handle_error send_frame offer_sent
    offer_encoded id (failure e) c = (handle_error qt e.message c, 0)
    offer_encoded id (success payload) c = offer_sent c.next_request_id (
        send_frame qt (frame_of file_offer c.next_request_id payload) (record c {
          pending_offer_request_id = c.next_request_id;
          next_request_id = increment c.next_request_id;
          pending_offer_transfer_id = id;
          transfer_state = TransferState.offering;
          offer_state = OfferState.offered;
        }))

    unfoldable pub send_file_offer : FileOfferPayload → Client qt → Client qt × ℕ
    unfolding offer_encoded
    send_file_offer offer c =
        if not c.handshake_complete
          || not (is_idle c.transfer_state) && not (is_offering c.transfer_state)
        then (c, 0)
        else offer_encoded offer.transfer_id (encode_file_offer_payload lib offer) c

    -- `handle_hash_result` after `send_file_offer`.
    unfoldable pub offer_made : Client qt × ℕ → Client qt
    unfolding cleanup_transfer_file
    offer_made (c, request_id) =
        if request_id == 0
        then record (cleanup_transfer_file qt c) { transfer_state = TransferState.failed }
        else c

    -- The offer of the file that was hashed.
    unfoldable pub offer_file : HashJob → Text → Client qt → Client qt
    unfolding fail_transfer send_file_offer offer_made
    offer_file job sha256 c =
        let c1 : Client qt = record c { world = qt.after_open_to_read c.world job.path } in
        let opened : qt.World = closed_file qt c.send_file c1.world in
        if not (qt.opens_to_read c.world job.path)
        then fail_transfer qt
            (record { code = ErrorCode.io_error; message = qt.file_error c1.world job.path }) c1
        else offer_made (
            send_file_offer
              (record {
                transfer_id = to_lower_hex (qt.random_bytes opened);
                file_name = job.file_name;
                file_size = job.file_size;
                chunk_size = file_chunk_size;
                sha256 = sha256;
              })
              (record c1 {
                send_file = some job.path;
                send_offset = 0;
                send_file_size = job.file_size;
                world = qt.after_random opened;
              }))

    unfoldable pub hashed : HashJob → Result Text → Client qt → Client qt
    unfolding fail_transfer offer_file
    hashed job (failure e) c = fail_transfer qt e c
    hashed job (success sha256) c = offer_file job sha256 c

    unfoldable pub handle_hash_result : HashJob → Result Text → Client qt → Client qt
    unfolding cleanup_hash_worker hashed
    handle_hash_result job sha256 c =
        let c1 : Client qt = cleanup_hash_worker c in
        if not (job.generation == c1.hash_generation) || not (is_offering c1.transfer_state)
        then c1
        else hashed job sha256 c1

    unfoldable pub finish_encoded : Result Text → Client qt → Client qt
    unfolding fail_transfer cleanup_transfer_file send_frame abort
    finish_encoded (failure e) c = fail_transfer qt e c
    finish_encoded (success payload) c = abort_failed (
        send_frame qt (frame_of file_finish c.next_request_id payload)
          (record (cleanup_transfer_file qt c) {
            transfer_state = TransferState.finishing;
            pending_finish_request_id = c.next_request_id;
            next_request_id = increment c.next_request_id;
          }))

    unfoldable pub send_file_finish : Client qt → Client qt
    unfolding finish_encoded
    send_file_finish c =
        if not (is_sending c.transfer_state)
        then c
        else finish_encoded
            (encode_file_finish_payload lib (record { transfer_id = c.pending_offer_transfer_id }))
            c

    -- `send_next_chunk` with the file that is open.
    unfoldable pub pump : Text → Client qt → Client qt
    unfolding fail_transfer send_file_finish read_chunk
    pump path c =
        if not (is_connected qt c)
        then fail_transfer qt (connection_error qt (text "socket disconnected while sending")) c
        else if not (ltb (total_pending_write_bytes qt c) pending_write_high_water_mark)
        then c
        else if not (ltb c.send_offset c.send_file_size) || qt.at_end c.world path
        then send_file_finish c
        else read_chunk path c

    unfoldable pub pump_open : Option Text → Client qt → Client qt
    unfolding pump
    pump_open none c = c
    pump_open (some path) c = if is_sending c.transfer_state then pump path c else c

    unfoldable pub send_next_chunk : Client qt → Client qt
    unfolding pump_open
    send_next_chunk c = pump_open c.send_file (record c { send_pump_scheduled = false })
