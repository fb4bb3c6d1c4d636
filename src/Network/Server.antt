-- ===== src/Network/Server.antt =====
-- adapters/qt_network/TcpTransferServer: the state of the server, its connections, and how it sends
-- a frame or drops a connection. Of what the logger is told nothing comes back.
pub mod Receive
pub mod Handlers
pub mod Calm
pub mod Closes
pub mod Sends
pub mod Invariant
pub mod Paths
pub mod Delivery
pub mod Offers
pub mod Frames
pub mod Reads
pub mod Safety
pub mod Isolation
pub mod Ends
pub mod Session
pub mod SessionExample
pub mod Examples
use core_desk.Base.{
  ℕ, ◌+◌, ◌-◌, ◌*◌, ◌==◌, ltb, Bool, true, false, not, ◌||◌, ◌&&◌, if◌then◌else◌, List, [], ◌∷◌,
  ◌++◌, Option, none, some, length, drop, is_nil,
}
use core_desk.Common.{
  Text, text, ErrorCode, Error, Result, success, failure, VoidResult, void_success, void_failure,
  invalid,
}
use core_desk.Protocol.Json.{JsonLibrary}
use core_desk.Protocol.MessageTypes.{file_reject, file_result}
use core_desk.Protocol.Frame.{Frame, encode}
use core_desk.Protocol.Payload.Transfer.{
  FileRejectPayload, FileResultPayload, encode_file_reject_payload, encode_file_result_payload,
}
use core_desk.Network.Qt.{Qt}

pub data ReceiveState : Type 0 where
  idle accepted receiving finishing : ReceiveState

-- The hash is the bytes that were added to it. The part file is named by its path; that it is open
-- is the world's.
pub record ActiveTransfer : Type 0 where
  pub state : ReceiveState
  pub socket : ℕ
  pub offer_request_id : ℕ
  pub transfer_id : Text
  pub sha256 : Text
  pub file_size : ℕ
  pub expected_offset : ℕ
  pub target_path : Text
  pub part_path : Text
  pub hash : Text

-- The decoder is its buffer.
pub record Connection : Type 0 where
  pub socket : ℕ
  pub decoder : Text
  pub hello_complete : Bool
  pub write_remainder : Text
  pub remainder_flush_scheduled : Bool
  pub disconnect_after_write : Bool

abbrev pub new_connection : ℕ → Connection
new_connection k = record {
  socket = k;
  decoder = [];
  hello_complete = false;
  write_remainder = [];
  remainder_flush_scheduled = false;
  disconnect_after_write = false;
}

-- `connections_`, a map from sockets: a list of connections of different sockets.
module _ where
  abbrev pub find : ℕ → List Connection → Option Connection
  find k [] = none
  find k (c ∷ cs) = if c.socket == k then some c else find k cs

  abbrev pub has : ℕ → List Connection → Bool
  has k [] = false
  has k (c ∷ cs) = if c.socket == k then true else has k cs

  abbrev pub erase : ℕ → List Connection → List Connection
  erase k [] = []
  erase k (c ∷ cs) = if c.socket == k then erase k cs else c ∷ erase k cs

  -- A change of the connection that was found.
  abbrev pub update : ℕ → (Connection → Connection) → List Connection → List Connection
  update k f [] = []
  update k f (c ∷ cs) = if c.socket == k then f c ∷ cs else c ∷ update k f cs

  -- `emplace`, which does nothing where the socket is in the map.
  abbrev pub emplace : Connection → List Connection → List Connection
  emplace c cs = if has c.socket cs then cs else cs ++ c ∷ []

abbrev pub unknown_transfer_id : Text
unknown_transfer_id = text "00000000000000000000000000000000"

abbrev pub pending_control_write_limit : ℕ
pending_control_write_limit = 256 * 1024

-- On 64-bit unsigned numbers; the difference is taken where it does not wrap.
unfoldable pub validate_chunk_bounds : ℕ → ℕ → ℕ → VoidResult
validate_chunk_bounds expected_offset file_size chunk_size =
    if ltb file_size expected_offset
    then void_failure (invalid (text "expected_offset exceeds file_size"))
    else if ltb (file_size - expected_offset) chunk_size
    then void_failure (invalid (text "chunk exceeds offered file_size"))
    else void_success

pub record Server (qt : Qt) : Type 0 where
  pub node_name : Text
  pub receive_directory : Text
  pub active_transfer : Option ActiveTransfer
  pub connections : List Connection
  pub world : qt.World
  -- Whether an exception has left a slot, which ends the program.
  pub terminated : Bool

-- `schedule_remainder_flush` on the connection that was found; the timer it starts is an event of
-- its own.
abbrev pub scheduled : Connection → Connection
scheduled c =
    if is_nil c.write_remainder || c.remainder_flush_scheduled
    then c
    else record c { remainder_flush_scheduled = true }

module _ (qt : Qt) where
  abbrev pub on_connection : ℕ → (Connection → Connection) → Server qt → Server qt
  on_connection k f s = record s { connections = update k f s.connections }

  abbrev pub in_world : qt.World → Server qt → Server qt
  in_world w s = record s { world = w }

  unfoldable pub cleanup_active_transfer : Bool → Server qt → Server qt
  cleanup_active_transfer remove_part s = elim s.active_transfer [
    | none ↦ s
    | some t ↦
        let closed : qt.World = qt.after_close s.world t.part_path in
        record s {
          active_transfer = none;
          world = if remove_part then qt.after_remove closed t.part_path else closed;
        }
  ]

  abbrev pub owns : ℕ → Option ActiveTransfer → Bool
  owns k none = false
  owns k (some t) = t.socket == k

  unfoldable pub remove_connection : ℕ → Server qt → Server qt
  unfolding cleanup_active_transfer
  remove_connection k s =
      let s1 : Server qt = if owns k s.active_transfer then cleanup_active_transfer true s else s in
      record s1 { connections = erase k s1.connections }

  unfoldable pub handle_disconnected : ℕ → Server qt → Server qt
  unfolding remove_connection
  handle_disconnected k s = remove_connection k s

  -- `socket->disconnectFromHost()` and `socket->abort()`, with the handler of `disconnected` where
  -- the call signals it.
  unfoldable pub disconnect_from_host : ℕ → Server qt → Server qt
  unfolding handle_disconnected
  disconnect_from_host k s =
      let s1 : Server qt = in_world (qt.after_disconnect s.world k) s in
      if qt.disconnects_now s.world k then handle_disconnected k s1 else s1

  unfoldable pub abort : ℕ → Server qt → Server qt
  unfolding handle_disconnected
  abort k s =
      let s1 : Server qt = in_world (qt.after_abort s.world k) s in
      if qt.aborts_now s.world k then handle_disconnected k s1 else s1

  unfoldable pub close_protocol_error : ℕ → Server qt → Server qt
  unfolding remove_connection disconnect_from_host
  close_protocol_error k s = disconnect_from_host k (remove_connection k s)

  unfoldable pub handle_send_failure : ℕ → Server qt → Server qt
  unfolding remove_connection abort
  handle_send_failure k s = if has k s.connections then abort k (remove_connection k s) else s

  -- `socket->write(bytes)` of an encoded frame, and what follows it.
  unfoldable pub write_frame : ℕ → Text → Server qt → Server qt
  unfolding handle_send_failure
  write_frame k bytes s =
      let s1 : Server qt = in_world (qt.after_write s.world k bytes) s in
      elim (qt.accepted s.world k bytes) [
        | none ↦ handle_send_failure k s1
        | some n ↦
            if ltb n (length bytes)
            then on_connection k (λ c. scheduled (record c { write_remainder = drop n bytes })) s1
            else s1
      ]

  unfoldable pub send_encoded : ℕ → Result Text → Server qt → Server qt
  unfolding handle_send_failure write_frame
  send_encoded k (failure e) s = handle_send_failure k s
  send_encoded k (success bytes) s =
      let queued : ℕ = qt.bytes_to_write s.world k in
      if ltb pending_control_write_limit queued
        || ltb (pending_control_write_limit - queued) (length bytes)
      then handle_send_failure k s
      else write_frame k bytes s

  -- No caller uses the Boolean that the function returns.
  unfoldable pub send_frame : ℕ → Frame → Server qt → Server qt
  unfolding handle_send_failure send_encoded
  send_frame k frame s = elim (find k s.connections) [
    | none ↦ s
    | some c ↦
        if is_nil c.write_remainder
        then send_encoded k (encode frame) s
        else handle_send_failure k s
  ]

  unfoldable pub handle_bytes_written : ℕ → Server qt → Server qt
  unfolding disconnect_from_host
  handle_bytes_written k s = elim (find k s.connections) [
    | none ↦ s
    | some c ↦
        if not (is_nil c.write_remainder)
        then on_connection k scheduled s
        else if c.disconnect_after_write
        then disconnect_from_host k s
        else s
  ]

  -- `flush_write_remainder` after `write` took `n` bytes.
  unfoldable pub after_flushed : ℕ → ℕ → Connection → Server qt → Server qt
  unfolding disconnect_from_host
  after_flushed k n c s =
      let rest : Text = drop n c.write_remainder in
      let s1 : Server qt = on_connection k (λ c'. record c' { write_remainder = rest }) s in
      if not (is_nil rest)
      then on_connection k scheduled s1
      else if c.disconnect_after_write
      then disconnect_from_host k s1
      else s1

  -- The `write` of `flush_write_remainder`.
  unfoldable pub write_rest : ℕ → Connection → Server qt → Server qt
  unfolding handle_send_failure after_flushed
  write_rest k c s =
      let s1 : Server qt = in_world (qt.after_write s.world k c.write_remainder) s in
      elim (qt.accepted s.world k c.write_remainder) [
        | none ↦ handle_send_failure k s1
        | some n ↦ after_flushed k n c s1
      ]

  unfoldable pub flush_write_remainder : ℕ → Server qt → Server qt
  unfolding disconnect_from_host handle_send_failure write_rest
  flush_write_remainder k s = elim (find k s.connections) [
    | none ↦ s
    | some c ↦
        let s1 : Server qt =
          on_connection k (λ c'. record c' { remainder_flush_scheduled = false }) s in
        if is_nil c.write_remainder
        then (if c.disconnect_after_write then disconnect_from_host k s1 else s1)
        else if not (qt.is_connected s.world k)
        then handle_send_failure k s1
        else write_rest k c s1
  ]

  unfoldable pub disconnect_after_pending_write : ℕ → Server qt → Server qt
  unfolding disconnect_from_host
  disconnect_after_pending_write k s = elim (find k s.connections) [
    | none ↦ s
    | some c ↦
        if is_nil c.write_remainder
        then disconnect_from_host k s
        else on_connection k (λ c'. record c' { disconnect_after_write = true }) s
  ]

  abbrev pub reply : ℕ → ℕ → Text → Frame
  reply type request_id payload = record {
    type = type;
    flags = 0;
    request_id = request_id;
    payload = payload;
  }

  -- A reply whose payload was encoded, or that closes the connection.
  unfoldable pub send_reply : ℕ → ℕ → ℕ → Result Text → Server qt → Server qt
  unfolding close_protocol_error send_frame
  send_reply k type request_id (failure e) s = close_protocol_error k s
  send_reply k type request_id (success payload) s = send_frame k (reply type request_id payload) s

  module _ (lib : JsonLibrary) where
    unfoldable pub send_file_reject : ℕ → ℕ → Text → Error → Server qt → Server qt
    unfolding send_reply
    send_file_reject k request_id id e s =
        send_reply k file_reject request_id
          (encode_file_reject_payload lib
            (record { transfer_id = id; code = e.code; message = e.message }))
          s

    unfoldable pub send_file_result : ℕ → ℕ → Text → Bool → Error → Server qt → Server qt
    unfolding send_reply
    send_file_result k request_id id ok e s =
        send_reply k file_result request_id
          (encode_file_result_payload lib
            (record { transfer_id = id; ok = ok; code = e.code; message = e.message }))
          s
