-- ===== src/Network/Client.antt =====
-- adapters/qt_network/TcpTransferClient: the state of the client, how it sends a frame, and how it
-- fails. A call of a callback is a notice; that a callback calls the client back before it returns is
-- left out. Of what the logger is told nothing comes back.
pub mod Transfer
pub mod Handlers
pub mod Flow
pub mod Sent
pub mod Writes
pub mod Pump
pub mod Offers
pub mod Flowing
pub mod Liveness
pub mod Quiet
pub mod Silence
pub mod Examples
use core_desk.Base.{
  ℕ, ◌+◌, ◌*◌, ◌%◌, ◌^◌, ltb, Bool, true, false, not, ◌||◌, if◌then◌else◌, List, [], ◌∷◌, ◌++◌,
  Option, none, some, length, take, drop, is_nil,
}
use core_desk.Common.{
  Text, text, ErrorCode, Error, Result, success, failure, VoidResult, void_success, void_failure,
}
use core_desk.Protocol.Frame.{Frame, encode}
use core_desk.Protocol.Payload.Transfer.{FileAcceptPayload, FileRejectPayload, FileResultPayload}
use core_desk.Network.Qt.{Qt}

pub data TransferState : Type 0 where
  idle connecting hello_sent offering sending finishing completed failed : TransferState

pub data OfferState : Type 0 where
  no_offer offered accepted rejected : OfferState

-- A call of a callback.
pub data Notice : Type 0 where
  handshake_notice disconnected_notice : Notice
  accept_notice : ℕ → FileAcceptPayload → Notice
  reject_notice : ℕ → FileRejectPayload → Notice
  result_notice : ℕ → FileResultPayload → Notice
  error_notice : Error → Notice

-- What a hash worker was started with.
pub record HashJob : Type 0 where
  pub generation : ℕ
  pub path : Text
  pub file_size : ℕ
  pub file_name : Text

-- The decoder is its buffer, and the open file its path. `hash_jobs` are the workers whose result has
-- not been handled, in the order of their start; `notices` the callbacks that were called.
pub record Client (qt : Qt) : Type 0 where
  pub node_name : Text
  pub socket : ℕ
  pub decoder : Text
  pub handshake_complete : Bool
  pub transfer_state : TransferState
  pub offer_state : OfferState
  pub next_request_id : ℕ
  pub pending_hello_request_id : ℕ
  pub pending_offer_request_id : ℕ
  pub pending_finish_request_id : ℕ
  pub pending_offer_transfer_id : Text
  pub hash_generation : ℕ
  pub send_offset : ℕ
  pub send_file_size : ℕ
  pub hash_thread : Bool
  pub hash_jobs : List HashJob
  pub send_file : Option Text
  pub send_pump_scheduled : Bool
  pub write_remainder : Text
  pub remainder_flush_scheduled : Bool
  pub test_write_acceptance_limit : Option ℕ
  pub notices : List Notice
  pub world : qt.World
  -- Whether an exception has left a slot, which ends the program.
  pub terminated : Bool

abbrev pub file_chunk_size : ℕ
file_chunk_size = 256 * 1024

abbrev pub pending_write_high_water_mark : ℕ
pending_write_high_water_mark = 2 * 1024 * 1024

-- The next 64-bit number.
abbrev pub increment : ℕ → ℕ
increment n = (n + 1) % 2 ^ 64

module _ where
  abbrev pub is_sending : TransferState → Bool
  is_sending TransferState.sending = true
  is_sending _ = false

  abbrev pub is_offering : TransferState → Bool
  is_offering TransferState.offering = true
  is_offering _ = false

  abbrev pub is_finishing : TransferState → Bool
  is_finishing TransferState.finishing = true
  is_finishing _ = false

  abbrev pub is_idle : TransferState → Bool
  is_idle TransferState.idle = true
  is_idle _ = false

  abbrev pub is_hello_sent : TransferState → Bool
  is_hello_sent TransferState.hello_sent = true
  is_hello_sent _ = false

  -- `Completed` or `Failed`.
  abbrev pub is_finished : TransferState → Bool
  is_finished TransferState.completed = true
  is_finished TransferState.failed = true
  is_finished _ = false

  -- `Offering`, `Sending` or `Finishing`.
  abbrev pub is_active : TransferState → Bool
  is_active TransferState.offering = true
  is_active TransferState.sending = true
  is_active TransferState.finishing = true
  is_active _ = false

abbrev pub is_open : Option Text → Bool
is_open none = false
is_open (some p) = true

module _ (qt : Qt) where
  abbrev pub tell : Notice → Client qt → Client qt
  tell n c = record c { notices = c.notices ++ n ∷ [] }

  abbrev pub is_connected : Client qt → Bool
  is_connected c = qt.is_connected c.world c.socket

  abbrev pub total_pending_write_bytes : Client qt → ℕ
  total_pending_write_bytes c = qt.bytes_to_write c.world c.socket + length c.write_remainder

  abbrev pub closed_file : Option Text → qt.World → qt.World
  closed_file none w = w
  closed_file (some p) w = qt.after_close w p

  unfoldable pub cleanup_transfer_file : Client qt → Client qt
  cleanup_transfer_file c = record c { send_file = none; world = closed_file c.send_file c.world }

  unfoldable pub fail_transfer : Error → Client qt → Client qt
  unfolding cleanup_transfer_file
  fail_transfer e c =
      if is_finished c.transfer_state
      then c
      else tell (Notice.error_notice e) (record (cleanup_transfer_file c) {
        send_pump_scheduled = false;
        write_remainder = [];
        remainder_flush_scheduled = false;
        transfer_state = TransferState.failed;
      })

  abbrev pub connection_error : Text → Error
  connection_error message = record { code = ErrorCode.connection_failed; message = message }

  unfoldable pub handle_error : Text → Client qt → Client qt
  unfolding fail_transfer
  handle_error message c =
      if is_finished c.transfer_state
      then c
      else if is_idle c.transfer_state
      then tell (Notice.error_notice (connection_error message)) c
      else fail_transfer (connection_error message) c

  unfoldable pub handle_disconnected : Client qt → Client qt
  unfolding cleanup_transfer_file
  handle_disconnected c = tell Notice.disconnected_notice (record (cleanup_transfer_file c) {
    handshake_complete = false;
    hash_generation = increment c.hash_generation;
    transfer_state = if is_active c.transfer_state then TransferState.failed else c.transfer_state;
    offer_state = OfferState.no_offer;
    pending_offer_request_id = 0;
    pending_finish_request_id = 0;
    pending_offer_transfer_id = [];
    send_pump_scheduled = false;
    write_remainder = [];
    remainder_flush_scheduled = false;
    decoder = [];
  })

  -- `socket_->abort()` and `socket_->disconnectFromHost()`, with the handler of `disconnected` where
  -- the call signals it.
  unfoldable pub abort : Client qt → Client qt
  unfolding handle_disconnected
  abort c =
      let c1 : Client qt = record c { world = qt.after_abort c.world c.socket } in
      if qt.aborts_now c.world c.socket then handle_disconnected c1 else c1

  unfoldable pub disconnect_socket : Client qt → Client qt
  unfolding handle_disconnected
  disconnect_socket c =
      let c1 : Client qt = record c { world = qt.after_disconnect c.world c.socket } in
      if qt.disconnects_now c.world c.socket then handle_disconnected c1 else c1

  -- What `connect_to_host` and `disconnect_from_host` do before they use the socket.
  unfoldable pub reset_connection : Client qt → Client qt
  reset_connection c = record c {
    handshake_complete = false;
    transfer_state = TransferState.connecting;
    pending_hello_request_id = 0;
    write_remainder = [];
    remainder_flush_scheduled = false;
    decoder = [];
  }

  unfoldable pub reset_transfer : Client qt → Client qt
  unfolding cleanup_transfer_file
  reset_transfer c = record (cleanup_transfer_file c) {
    handshake_complete = false;
    transfer_state = TransferState.idle;
    offer_state = OfferState.no_offer;
    pending_offer_request_id = 0;
    pending_finish_request_id = 0;
    pending_offer_transfer_id = [];
    send_pump_scheduled = false;
    write_remainder = [];
    remainder_flush_scheduled = false;
    decoder = [];
  }

  abbrev pub connect_socket : Text → ℕ → Client qt → Client qt
  connect_socket host port c = record c { world = qt.after_connect c.world c.socket host port }

  unfoldable pub connect_to_host : Text → ℕ → Client qt → Client qt
  unfolding abort reset_connection
  connect_to_host host port c =
      let c1 : Client qt = reset_connection c in
      connect_socket host port (if qt.is_unconnected c1.world c1.socket then c1 else abort c1)

  unfoldable pub disconnect_from_host : Client qt → Client qt
  unfolding reset_transfer disconnect_socket
  disconnect_from_host c =
      let c1 : Client qt = reset_transfer c in
      if qt.is_unconnected c1.world c1.socket then c1 else disconnect_socket c1

  -- The timer that is started is an event of its own.
  unfoldable pub schedule_remainder_flush : Client qt → Client qt
  schedule_remainder_flush c =
      if c.remainder_flush_scheduled
        || is_nil c.write_remainder
        || not (is_connected c)
        || is_finished c.transfer_state
        || is_idle c.transfer_state
      then c
      else record c { remainder_flush_scheduled = true }

  unfoldable pub schedule_send_pump : Client qt → Client qt
  schedule_send_pump c =
      if c.send_pump_scheduled
        || not (is_sending c.transfer_state)
        || not (is_connected c)
        || not (is_nil c.write_remainder)
        || not (ltb (total_pending_write_bytes c) pending_write_high_water_mark)
      then c
      else record c { send_pump_scheduled = true }

  -- What `write_to_socket` hands to the socket.
  abbrev pub writable : Option ℕ → Text → Text
  writable none bytes = bytes
  writable (some limit) bytes = take limit bytes

  abbrev pub write_result : Client qt → Text → Option ℕ
  write_result c bytes = qt.accepted c.world c.socket (writable c.test_write_acceptance_limit bytes)

  abbrev pub after_write_to_socket : Text → Client qt → Client qt
  after_write_to_socket bytes c = record c {
    world = qt.after_write c.world c.socket (writable c.test_write_acceptance_limit bytes);
  }

  -- `send_frame` after the socket took `n` bytes, if it did not fail.
  unfoldable pub frame_written : Text → Option ℕ → Client qt → Client qt × VoidResult
  unfolding schedule_remainder_flush
  frame_written bytes none c =
      (c, void_failure (connection_error (qt.socket_error c.world c.socket)))
  frame_written bytes (some n) c = (
    if ltb n (length bytes)
        then schedule_remainder_flush (record c { write_remainder = drop n bytes })
        else c,
    void_success,
  )

  unfoldable pub send_bytes : Result Text → Client qt → Client qt × VoidResult
  unfolding frame_written
  send_bytes (failure e) c = (c, void_failure e)
  send_bytes (success bytes) c =
      frame_written bytes (write_result c bytes) (after_write_to_socket bytes c)

  unfoldable pub send_frame : Frame → Client qt → Client qt × VoidResult
  unfolding send_bytes
  send_frame frame c =
      if not (is_connected c)
      then (c, void_failure (connection_error (text "socket is not connected")))
      else if not (is_nil c.write_remainder)
      then (
        c,
        void_failure (record {
          code = ErrorCode.busy;
          message = text "previous frame is not fully accepted";
        }),
      )
      else send_bytes (encode frame) c
