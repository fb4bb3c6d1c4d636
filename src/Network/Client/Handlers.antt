-- ===== src/Network/Client/Handlers.antt =====
-- adapters/qt_network/TcpTransferClient: the handlers of the frames and of the socket's signals.
use core_desk.Base.{
  ℕ, ◌==◌, Bool, true, false, not, ◌||◌, ◌&&◌, if◌then◌else◌, List, [], ◌∷◌, text_eq, is_nil,
}
use core_desk.Common.{Text, text, ErrorCode, Error, Result, success, failure}
use core_desk.Protocol.Json.{JsonLibrary}
use core_desk.Protocol.Json.Fields.{throws}
use core_desk.Protocol.MessageTypes.{hello_ack, file_accept, file_reject, file_result}
use core_desk.Protocol.Frame.{Frame, push}
use core_desk.Protocol.Payload.Handshake.{HelloAckPayload, decode_hello_ack_payload}
use core_desk.Protocol.Payload.Transfer.{
  FileOfferPayload, FileAcceptPayload, FileRejectPayload, FileResultPayload,
  decode_file_accept_payload, decode_file_reject_payload, decode_file_result_payload,
}
use core_desk.Network.Qt.{Qt}
use core_desk.Network.Client.{
  TransferState, OfferState, Notice, HashJob, Client, is_offering, is_finishing, is_hello_sent,
  is_finished, is_open, tell, cleanup_transfer_file, fail_transfer, handle_error,
  handle_disconnected, abort, disconnect_socket, connect_to_host, disconnect_from_host,
  schedule_send_pump,
}
use core_desk.Network.Client.Transfer.{
  send_file, send_hello, send_file_offer, handle_hash_result, send_next_chunk, handle_bytes_written,
  flush_write_remainder,
}

module _ (qt : Qt) (lib : JsonLibrary) where
  -- A decoder throws, and no caller up to the slot catches it.
  abbrev pub terminate : Client qt → Client qt
  terminate c = record c { terminated = true }

  -- `fail_transfer(error); socket_->abort();` and `handle_error(message);
  -- socket_->disconnectFromHost();`, as the handlers of the frames end.
  unfoldable pub fail_and_abort : ErrorCode → Text → Client qt → Client qt
  unfolding fail_transfer abort
  fail_and_abort code message c =
      abort qt (fail_transfer qt (record { code = code; message = message }) c)

  unfoldable pub report_and_disconnect : Text → Client qt → Client qt
  unfolding handle_error disconnect_socket
  report_and_disconnect message c = disconnect_socket qt (handle_error qt message c)

  unfoldable pub fail_and_disconnect : Error → Client qt → Client qt
  unfolding fail_transfer disconnect_socket
  fail_and_disconnect e c = disconnect_socket qt (fail_transfer qt e c)

  unfoldable pub acknowledged : Result HelloAckPayload → Client qt → Client qt
  unfolding report_and_disconnect
  acknowledged (failure e) c = report_and_disconnect e.message c
  acknowledged (success ack) c = tell qt Notice.handshake_notice (record c {
    handshake_complete = true;
    pending_hello_request_id = 0;
    transfer_state = TransferState.idle;
  })

  unfoldable pub handle_hello_ack : Frame → Client qt → Client qt
  unfolding fail_and_abort acknowledged
  handle_hello_ack frame c =
      if not (is_hello_sent c.transfer_state)
        || not (frame.request_id == c.pending_hello_request_id)
      then fail_and_abort ErrorCode.protocol_error (text "unexpected HelloAck") c
      else if throws lib frame.payload
      then terminate c
      else acknowledged (decode_hello_ack_payload lib frame.payload) c

  -- `handle_file_accept` after its callback.
  unfoldable pub start_sending : Client qt → Client qt
  unfolding schedule_send_pump
  start_sending c =
      if is_offering c.transfer_state && is_open c.send_file
      then schedule_send_pump qt (record c { transfer_state = TransferState.sending })
      else record c { transfer_state = TransferState.idle }

  -- The payload is of the offer that is pending.
  abbrev pub is_pending_offer : Frame → Text → Client qt → Bool
  is_pending_offer frame id c =
      frame.request_id == c.pending_offer_request_id && text_eq id c.pending_offer_transfer_id

  unfoldable pub accept_decoded : Frame → Result FileAcceptPayload → Client qt → Client qt
  unfolding report_and_disconnect start_sending
  accept_decoded frame (failure e) c = report_and_disconnect e.message c
  accept_decoded frame (success p) c =
      if not (is_pending_offer frame p.transfer_id c)
      then report_and_disconnect (text "unexpected FileAccept") c
      else start_sending (
          tell qt (Notice.accept_notice frame.request_id p)
            (record c { offer_state = OfferState.accepted }))

  unfoldable pub handle_file_accept : Frame → Client qt → Client qt
  unfolding fail_and_abort accept_decoded
  handle_file_accept frame c =
      if not (is_offering c.transfer_state)
      then fail_and_abort ErrorCode.protocol_error (text "unexpected FileAccept state") c
      else if throws lib frame.payload
      then terminate c
      else accept_decoded frame (decode_file_accept_payload lib frame.payload) c

  unfoldable pub rejected_offer : Frame → FileRejectPayload → Client qt → Client qt
  unfolding cleanup_transfer_file
  rejected_offer frame p c =
      tell qt (Notice.reject_notice frame.request_id p) (record (cleanup_transfer_file qt c) {
        offer_state = OfferState.rejected;
        send_pump_scheduled = false;
        write_remainder = [];
        remainder_flush_scheduled = false;
        transfer_state = if is_open c.send_file then TransferState.failed else TransferState.idle;
      })

  unfoldable pub reject_decoded : Frame → Result FileRejectPayload → Client qt → Client qt
  unfolding report_and_disconnect rejected_offer
  reject_decoded frame (failure e) c = report_and_disconnect e.message c
  reject_decoded frame (success p) c =
      if not (is_pending_offer frame p.transfer_id c)
      then report_and_disconnect (text "unexpected FileReject") c
      else rejected_offer frame p c

  unfoldable pub handle_file_reject : Frame → Client qt → Client qt
  unfolding fail_and_abort reject_decoded
  handle_file_reject frame c =
      if not (is_offering c.transfer_state)
      then fail_and_abort ErrorCode.protocol_error (text "unexpected FileReject state") c
      else if throws lib frame.payload
      then terminate c
      else reject_decoded frame (decode_file_reject_payload lib frame.payload) c

  unfoldable pub result_decoded : Frame → Result FileResultPayload → Client qt → Client qt
  unfolding fail_and_disconnect cleanup_transfer_file
  result_decoded frame (failure e) c = fail_and_disconnect e c
  result_decoded frame (success p) c =
      if not (frame.request_id == c.pending_finish_request_id)
        || not (text_eq p.transfer_id c.pending_offer_transfer_id)
      then fail_and_disconnect
          (record { code = ErrorCode.invalid_argument; message = text "unexpected FileResult" }) c
      else tell qt (Notice.result_notice frame.request_id p) (record (cleanup_transfer_file qt c) {
        transfer_state = if p.ok then TransferState.completed else TransferState.failed;
      })

  unfoldable pub handle_file_result : Frame → Client qt → Client qt
  unfolding fail_and_abort result_decoded
  handle_file_result frame c =
      if is_finished c.transfer_state
      then c
      else if not (is_finishing c.transfer_state)
      then fail_and_abort ErrorCode.protocol_error (text "unexpected FileResult state") c
      else if throws lib frame.payload
      then terminate c
      else result_decoded frame (decode_file_result_payload lib frame.payload) c

  unfoldable pub dispatch_frame : Frame → Client qt → Client qt
  unfolding handle_hello_ack handle_file_accept handle_file_reject handle_file_result
      report_and_disconnect
  dispatch_frame frame c =
      if frame.type == hello_ack
      then handle_hello_ack frame c
      else if frame.type == file_accept
      then handle_file_accept frame c
      else if frame.type == file_reject
      then handle_file_reject frame c
      else if frame.type == file_result
      then handle_file_result frame c
      else report_and_disconnect (text "unexpected TCP transfer frame") c

  unfoldable pub dispatch_frames : List Frame → Client qt → Client qt
  unfolding dispatch_frame
  dispatch_frames [] c = c
  dispatch_frames (frame ∷ frames) c =
      if c.terminated then c else dispatch_frames frames (dispatch_frame frame c)

  unfoldable pub take_read : Text × Result (List Frame) → Client qt → Client qt
  unfolding report_and_disconnect dispatch_frames
  take_read (buffer, failure e) c =
      report_and_disconnect (if is_nil e.message then text "protocol error" else e.message)
        (record c { decoder = buffer })
  take_read (buffer, success frames) c = dispatch_frames frames (record c { decoder = buffer })

  unfoldable pub handle_ready_read : Text → Client qt → Client qt
  unfolding take_read
  handle_ready_read bytes c = take_read (push c.decoder bytes) c

  unfoldable pub handle_connected : Client qt → Client qt
  unfolding send_hello
  handle_connected c = send_hello qt lib c

  -- The result of the hash worker that was started first.
  unfoldable pub take_hash_result : Result Text → List HashJob → Client qt → Client qt
  unfolding handle_hash_result
  take_hash_result sha256 [] c = c
  take_hash_result sha256 (job ∷ jobs) c =
      handle_hash_result qt lib job sha256 (record c { hash_jobs = jobs })

  -- Calls of the owner and events. A timer that was started can fire after its flag was reset, so that
  -- its event is possible at any time. The world that an event brings is what the socket and the files are
  -- by then.
  pub data Event : Type 0 where
    connect_event : Text → ℕ → Event
    disconnect_event send_pump_event flush_event : Event
    send_file_event : Text → Event
    offer_event : FileOfferPayload → Event
    connected_event disconnected_event : qt.World → Event
    written_event : ℕ → Event
    read_event error_event : Text → Event
    hash_event : Result Text → Event

  unfoldable pub handle : Event → Client qt → Client qt
  unfolding connect_to_host disconnect_from_host send_next_chunk flush_write_remainder send_file
      send_file_offer handle_connected handle_bytes_written handle_disconnected handle_ready_read
      handle_error take_hash_result
  handle (Event.connect_event host port) c = connect_to_host qt host port c
  handle Event.disconnect_event c = disconnect_from_host qt c
  handle Event.send_pump_event c = send_next_chunk qt lib c
  handle Event.flush_event c = flush_write_remainder qt c
  handle (Event.send_file_event path) c = (send_file qt path c).0
  handle (Event.offer_event offer) c = (send_file_offer qt lib offer c).0
  handle (Event.connected_event w) c = handle_connected (record c { world = w })
  handle (Event.written_event n) c =
      handle_bytes_written qt (record c { world = qt.after_bytes_written c.world c.socket n })
  handle (Event.disconnected_event w) c = handle_disconnected qt (record c { world = w })
  handle (Event.read_event bytes) c = handle_ready_read bytes c
  handle (Event.error_event message) c = handle_error qt message c
  handle (Event.hash_event sha256) c = take_hash_result sha256 c.hash_jobs c

  abbrev pub run : List Event → Client qt → Client qt
  run [] c = c
  run (e ∷ es) c = if c.terminated then c else run es (handle e c)
