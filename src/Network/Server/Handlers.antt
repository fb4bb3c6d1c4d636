-- ===== src/Network/Server/Handlers.antt =====
-- adapters/qt_network/TcpTransferServer: the handlers of the frames and of the socket's signals.
use core_desk.Base.{
  ℕ, ◌+◌, ◌==◌, true, not, ◌&&◌, if◌then◌else◌, [], ◌∷◌, List, ◌++◌, Option, none, some, length,
  text_eq,
}
use core_desk.Common.{
  Text, text, ErrorCode, Error, Result, success, failure, VoidResult, void_success, void_failure,
  void_ok, invalid,
}
use core_desk.Protocol.Json.{JsonLibrary}
use core_desk.Protocol.Json.Fields.{throws}
use core_desk.Protocol.MessageTypes.{
  hello, hello_ack, file_offer, file_accept, file_chunk, file_finish,
}
use core_desk.Protocol.Frame.{Frame, push, frame_version}
use core_desk.Protocol.Payload.Handshake.{
  HelloPayload, decode_hello_payload, encode_hello_ack_payload,
}
use core_desk.Protocol.Payload.Chunk.{FileChunkPayload, decode_file_chunk_payload}
use core_desk.Protocol.Payload.Transfer.{
  FileOfferPayload, FileFinishPayload, decode_file_offer_payload, encode_file_accept_payload,
  decode_file_finish_payload,
}
use core_desk.Network.Qt.{Qt}
use core_desk.Network.Server.{
  ReceiveState, ActiveTransfer, Connection, new_connection, find, has, emplace, Server,
  unknown_transfer_id, validate_chunk_bounds, on_connection, in_world, owns,
  cleanup_active_transfer, handle_disconnected, close_protocol_error, send_frame, send_file_reject,
  reply, handle_bytes_written, flush_write_remainder,
}
use core_desk.Network.Server.Receive.{
  error_of, is_open, validate_offer_target, begin_receive, fail_receive, reject_connection_receive,
  complete_receive,
}

module _ (qt : Qt) (lib : JsonLibrary) where
  -- A decoder throws, and no caller up to the slot catches it.
  abbrev pub terminate : Server qt → Server qt
  terminate s = record s { terminated = true }

  -- `send_frame` of the acknowledgement, or the protocol error where it has no encoding.
  unfoldable pub acknowledge : ℕ → ℕ → Result Text → Server qt → Server qt
  unfolding close_protocol_error send_frame
  acknowledge k request_id (failure e) s = close_protocol_error qt k s
  acknowledge k request_id (success payload) s =
      send_frame qt k (reply qt hello_ack request_id payload)
        (on_connection qt k (λ c. record c { hello_complete = true }) s)

  unfoldable pub answer_hello : ℕ → ℕ → Result HelloPayload → Server qt → Server qt
  unfolding close_protocol_error acknowledge
  answer_hello k request_id (failure e) s = close_protocol_error qt k s
  answer_hello k request_id (success p) s =
      acknowledge k request_id
        (encode_hello_ack_payload lib
          (record { protocol_version = frame_version; node_name = s.node_name }))
        s

  unfoldable pub handle_hello : ℕ → Frame → Server qt → Server qt
  unfolding close_protocol_error answer_hello
  handle_hello k frame s = elim (find k s.connections) [
    | none ↦ close_protocol_error qt k s
    | some c ↦
        if c.hello_complete
        then close_protocol_error qt k s
        else if throws lib frame.payload
        then terminate s
        else answer_hello k frame.request_id (decode_hello_payload lib frame.payload) s
  ]

  unfoldable pub accept_offer : ℕ → ℕ → Result Text → Server qt → Server qt
  unfolding close_protocol_error send_frame
  accept_offer k request_id (failure e) s = close_protocol_error qt k s
  accept_offer k request_id (success payload) s =
      send_frame qt k (reply qt file_accept request_id payload) s

  -- `handle_file_offer` after `begin_receive`.
  unfoldable pub answer_offer : ℕ → ℕ → FileOfferPayload → Server qt × VoidResult → Server qt
  unfolding send_file_reject accept_offer
  answer_offer k request_id offer (s, ready) =
      if void_ok ready
      then accept_offer k request_id
          (encode_file_accept_payload lib
            (record { transfer_id = offer.transfer_id; start_offset = 0 }))
          s
      else send_file_reject qt lib k request_id offer.transfer_id ready.error s

  unfoldable pub take_offer : ℕ → ℕ → Result FileOfferPayload → Server qt → Server qt
  unfolding validate_offer_target begin_receive send_file_reject answer_offer
  take_offer k request_id (failure e) s =
      send_file_reject qt lib k request_id unknown_transfer_id e s
  take_offer k request_id (success offer) s =
      let valid : VoidResult = validate_offer_target qt offer s in
      if void_ok valid
      then answer_offer k request_id offer (begin_receive qt k request_id offer s)
      else send_file_reject qt lib k request_id offer.transfer_id valid.error s

  unfoldable pub handle_file_offer : ℕ → Frame → Server qt → Server qt
  unfolding take_offer
  handle_file_offer k frame s =
      if throws lib frame.payload
      then terminate s
      else take_offer k frame.request_id (decode_file_offer_payload lib frame.payload) s

  -- What a payload that does not decode leads to, in a chunk as in a finish.
  unfoldable pub refuse_payload : ℕ → ℕ → Error → Server qt → Server qt
  unfolding fail_receive reject_connection_receive
  refuse_payload k request_id e s =
      if owns qt k s.active_transfer
      then fail_receive qt lib k request_id e s
      else reject_connection_receive qt lib k request_id unknown_transfer_id e s

  abbrev pub not_owner : Error
  not_owner = invalid (text "socket does not own the active transfer")

  abbrev pub wrong_transfer : Error
  wrong_transfer = invalid (text "transfer_id does not match active transfer")

  abbrev pub received : FileChunkPayload → ActiveTransfer → ActiveTransfer
  received p t = record t {
    hash = t.hash ++ p.chunk;
    expected_offset = t.expected_offset + length p.chunk;
    state = ReceiveState.receiving;
  }

  -- The chunk of the transfer that is open, after the checks of its id and its offset.
  unfoldable pub write_chunk : ℕ → ℕ → FileChunkPayload → ActiveTransfer → Server qt → Server qt
  unfolding fail_receive validate_chunk_bounds
  write_chunk k request_id p t s =
      let bounds : VoidResult =
        validate_chunk_bounds t.expected_offset t.file_size (length p.chunk) in
      let s1 : Server qt = in_world qt (qt.after_append s.world t.part_path p.chunk) s in
      if not (void_ok bounds)
      then fail_receive qt lib k request_id bounds.error s
      else if qt.writes_all s.world t.part_path p.chunk
      then record s1 { active_transfer = some (received p t) }
      else fail_receive qt lib k request_id
          (error_of ErrorCode.io_error (text "failed to write chunk")) s1

  unfoldable pub own_chunk : ℕ → ℕ → FileChunkPayload → ActiveTransfer → Server qt → Server qt
  unfolding fail_receive write_chunk
  own_chunk k request_id p t s =
      if not (text_eq p.transfer_id t.transfer_id && is_open t.state)
      then fail_receive qt lib k request_id wrong_transfer s
      else if not (p.offset == t.expected_offset)
      then fail_receive qt lib k request_id (invalid (text "unexpected chunk offset")) s
      else write_chunk k request_id p t s

  -- By the transfer that is active.
  unfoldable pub active_chunk :
      ℕ → ℕ → FileChunkPayload → Option ActiveTransfer → Server qt → Server qt
  unfolding reject_connection_receive own_chunk
  active_chunk k request_id p none s =
      reject_connection_receive qt lib k request_id p.transfer_id not_owner s
  active_chunk k request_id p (some t) s =
      if t.socket == k
      then own_chunk k request_id p t s
      else reject_connection_receive qt lib k request_id p.transfer_id not_owner s

  unfoldable pub take_chunk : ℕ → ℕ → Result FileChunkPayload → Server qt → Server qt
  unfolding refuse_payload active_chunk
  take_chunk k request_id (failure e) s = refuse_payload k request_id e s
  take_chunk k request_id (success p) s = active_chunk k request_id p s.active_transfer s

  unfoldable pub handle_file_chunk : ℕ → Frame → Server qt → Server qt
  unfolding take_chunk
  handle_file_chunk k frame s =
      take_chunk k frame.request_id (decode_file_chunk_payload frame.payload) s

  unfoldable pub own_finish : ℕ → ℕ → FileFinishPayload → ActiveTransfer → Server qt → Server qt
  unfolding fail_receive complete_receive
  own_finish k request_id p t s =
      if not (text_eq p.transfer_id t.transfer_id && is_open t.state)
      then fail_receive qt lib k request_id wrong_transfer s
      else complete_receive qt lib k request_id
          (record s { active_transfer = some (record t { state = ReceiveState.finishing }) })

  -- By the transfer that is active.
  unfoldable pub active_finish :
      ℕ → ℕ → FileFinishPayload → Option ActiveTransfer → Server qt → Server qt
  unfolding reject_connection_receive own_finish
  active_finish k request_id p none s =
      reject_connection_receive qt lib k request_id p.transfer_id not_owner s
  active_finish k request_id p (some t) s =
      if t.socket == k
      then own_finish k request_id p t s
      else reject_connection_receive qt lib k request_id p.transfer_id not_owner s

  unfoldable pub take_finish : ℕ → ℕ → Result FileFinishPayload → Server qt → Server qt
  unfolding refuse_payload active_finish
  take_finish k request_id (failure e) s = refuse_payload k request_id e s
  take_finish k request_id (success p) s = active_finish k request_id p s.active_transfer s

  unfoldable pub handle_file_finish : ℕ → Frame → Server qt → Server qt
  unfolding take_finish
  handle_file_finish k frame s =
      if throws lib frame.payload
      then terminate s
      else take_finish k frame.request_id (decode_file_finish_payload lib frame.payload) s

  unfoldable pub dispatch_frame : ℕ → Frame → Server qt → Server qt
  unfolding handle_hello handle_file_offer handle_file_chunk handle_file_finish close_protocol_error
  dispatch_frame k frame s = elim (find k s.connections) [
    | none ↦ s
    | some c ↦
        if frame.type == hello
        then handle_hello k frame s
        else if not c.hello_complete
        then close_protocol_error qt k s
        else if frame.type == file_offer
        then handle_file_offer k frame s
        else if frame.type == file_chunk
        then handle_file_chunk k frame s
        else if frame.type == file_finish
        then handle_file_finish k frame s
        else close_protocol_error qt k s
  ]

  -- The frames of one read, until the connection is gone or the program ends.
  unfoldable pub dispatch_frames : ℕ → List Frame → Server qt → Server qt
  unfolding dispatch_frame
  dispatch_frames k [] s = s
  dispatch_frames k (frame ∷ frames) s =
      if has k s.connections && not s.terminated
      then dispatch_frames k frames (dispatch_frame k frame s)
      else s

  unfoldable pub take_read : ℕ → Text × Result (List Frame) → Server qt → Server qt
  unfolding close_protocol_error dispatch_frames
  take_read k (buffer, failure e) s =
      close_protocol_error qt k (on_connection qt k (λ c. record c { decoder = buffer }) s)
  take_read k (buffer, success frames) s =
      dispatch_frames k frames (on_connection qt k (λ c. record c { decoder = buffer }) s)

  -- With the bytes that `readAll` returned.
  unfoldable pub handle_ready_read : ℕ → Text → Server qt → Server qt
  unfolding take_read
  handle_ready_read k bytes s = elim (find k s.connections) [
    | none ↦ s
    | some c ↦ take_read k (push c.decoder bytes) s
  ]

  -- With the sockets that `nextPendingConnection` returned.
  unfoldable pub handle_new_connection : List ℕ → Server qt → Server qt
  handle_new_connection [] s = s
  handle_new_connection (k ∷ ks) s =
      handle_new_connection ks (record s { connections = emplace (new_connection k) s.connections })

  unfoldable pub set_receive_directory : Text → Server qt → Server qt
  set_receive_directory directory s = record s { receive_directory = directory }

  unfoldable pub listen : Text → ℕ → Server qt → Server qt × VoidResult
  listen address port s =
      let s1 : Server qt = in_world qt (qt.after_listen s.world address port) s in
      (
        s1,
        if qt.listens s.world address port
            then void_success
            else void_failure (error_of ErrorCode.connection_failed (qt.server_error s1.world)),
      )

  -- `disconnect(this)` comes first, so no handler of this object runs here.
  abbrev pub disconnect_all : List Connection → qt.World → qt.World
  disconnect_all [] w = w
  disconnect_all (c ∷ cs) w = disconnect_all cs (qt.after_disconnect w c.socket)

  unfoldable pub close : Server qt → Server qt
  unfolding cleanup_active_transfer
  close s =
      let w : qt.World = disconnect_all s.connections s.world in
      cleanup_active_transfer qt true (record s {
        connections = [];
        world = if qt.is_listening w then qt.after_server_close w else w;
      })

  unfoldable pub active_transfer_count : Server qt → ℕ
  active_transfer_count s = elim s.active_transfer [ none ↦ 0 | some t ↦ 1 ]

  pub data Event : Type 0 where
    connected_event : List ℕ → Event
    read_event : ℕ → Text → Event
    written_event disconnected_event timer_event : ℕ → Event
    directory_event : Text → Event
    listen_event : Text → ℕ → Event
    close_event : Event

  unfoldable pub handle : Event → Server qt → Server qt
  unfolding handle_new_connection handle_ready_read handle_bytes_written handle_disconnected
      flush_write_remainder set_receive_directory listen close
  handle (Event.connected_event ks) s = handle_new_connection ks s
  handle (Event.read_event k bytes) s = handle_ready_read k bytes s
  handle (Event.written_event k) s = handle_bytes_written qt k s
  handle (Event.disconnected_event k) s = handle_disconnected qt k s
  handle (Event.timer_event k) s = flush_write_remainder qt k s
  handle (Event.directory_event directory) s = set_receive_directory directory s
  handle (Event.listen_event address port) s = (listen address port s).0
  handle Event.close_event s = close s

  abbrev pub run : List Event → Server qt → Server qt
  run [] s = s
  run (e ∷ es) s = if s.terminated then s else run es (handle e s)
