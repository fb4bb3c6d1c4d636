-- ===== src/Network/Client/Pump.antt =====
-- The transfer of a file keeps the client flowing.
use core_desk.Base.{
  ℕ, ◌+◌, ◌≡◌, refl, true, false, Bool-cases, inl, inr, not, Option, none, some, length, is_nil,
}
use core_desk.Common.{Text, Result, success, failure, VoidResult, void_ok}
use core_desk.Protocol.Json.{JsonLibrary}
use core_desk.Network.Qt.{Qt, SocketLaws}
use core_desk.Network.Client.{
  TransferState, Client, is_sending, is_open, is_connected, cleanup_transfer_file, fail_transfer,
  increment, file_chunk_size,
}
use core_desk.Network.Client.Transfer.{
  chunk_sent, send_chunk, read_chunk, finish_encoded, send_file_finish, pump, pump_open,
  send_next_chunk,
}
use core_desk.Network.Client.Sent.{Sent, live-unfinished, send_frame-Sent}
use core_desk.Network.Client.Flow.{
  is_nil-length, is_live, Greets, IsFlowing, resting, fail_transfer-still, fail_transfer-stopped,
  IsFlowing-if, IsFlowing-either, abort-IsFlowing, schedule_send_pump-IsFlowing,
}
use core_desk.Network.Client.Writes.{sending-live, high, closed-still, abort_failed-IsFlowing}

module _ {qt : Qt} (lib : JsonLibrary) (laws : SocketLaws qt) where
  -- A client that sends, with its file open.
  chunk_sent-IsFlowing :
      (size : ℕ) (c : Client qt) (r : Client qt × VoidResult)
      → Greets lib c
      → is_live c.transfer_state ≡ true
      → is_open c.send_file ≡ true
      → Sent lib c r
      → IsFlowing lib (chunk_sent qt size r)
  unfolding chunk_sent
  chunk_sent-IsFlowing size c (c', written) greets live opened s =
      let greets' : Greets lib c' = rw s.same_name greets in
      let live' : is_live c'.transfer_state ≡ true = rw s.same_state live in
      elim (Bool-cases (void_ok written)) [
        | inl ok ↦
            simp (ok, chunk_sent)
              (schedule_send_pump-IsFlowing lib (record c' { send_offset = c'.send_offset + size })
                greets' (λ sends. rw s.same_file opened) (s.flushing ok))
        | inr bad ↦
            simp (bad, chunk_sent)
              (abort-IsFlowing lib laws (fail_transfer qt written.error c')
                (fail_transfer-stopped lib written.error c' greets'
                  (live-unfinished c'.transfer_state live'))
                (fail_transfer-still lib written.error c'))
      ]

  send_chunk-IsFlowing :
      (size : ℕ) (r : Result Text) (c : Client qt)
      → Greets lib c
      → is_live c.transfer_state ≡ true
      → is_open c.send_file ≡ true
      → IsFlowing lib (send_chunk qt size r c)
  unfolding send_chunk
  send_chunk-IsFlowing size (failure e) c greets live opened =
      fail_transfer-stopped lib e c greets (live-unfinished c.transfer_state live)
  send_chunk-IsFlowing size (success payload) c greets live opened =
      let c1 : Client qt = record c { next_request_id = increment c.next_request_id } in
      chunk_sent-IsFlowing size c1 _ greets live opened (send_frame-Sent lib _ c1 live)

  read_chunk-IsFlowing :
      (path : Text) (c : Client qt)
      → Greets lib c
      → is_live c.transfer_state ≡ true
      → is_open c.send_file ≡ true
      → IsFlowing lib (read_chunk qt path c)
  unfolding read_chunk
  read_chunk-IsFlowing path c greets live opened =
      let c1 : Client qt = record c { world = qt.after_read c.world path file_chunk_size } in
      IsFlowing-if lib _
        (fail_transfer-stopped lib _ c1 greets (live-unfinished c.transfer_state live))
        (send_chunk-IsFlowing _ _ c1 greets live opened)

  finish_encoded-IsFlowing :
      (r : Result Text) (c : Client qt)
      → Greets lib c
      → is_live c.transfer_state ≡ true
      → IsFlowing lib (finish_encoded qt lib r c)
  unfolding finish_encoded cleanup_transfer_file
  finish_encoded-IsFlowing (failure e) c greets live =
      fail_transfer-stopped lib e c greets (live-unfinished c.transfer_state live)
  finish_encoded-IsFlowing (success payload) c greets live =
      let c1 : Client qt = record (cleanup_transfer_file qt c) {
        transfer_state = TransferState.finishing;
        pending_finish_request_id = c.next_request_id;
        next_request_id = increment c.next_request_id;
      } in
      abort_failed-IsFlowing lib laws c1 _ greets refl refl (send_frame-Sent lib _ c1 refl)

  send_file_finish-IsFlowing :
      (c : Client qt)
      → Greets lib c
      → is_sending c.transfer_state ≡ true
      → IsFlowing lib (send_file_finish qt lib c)
  unfolding send_file_finish
  send_file_finish-IsFlowing c greets sends =
      IsFlowing-either lib (not (is_sending c.transfer_state))
        (λ still. absurd (let bad : false ≡ true = rw sends at still in cc))
        (λ s. finish_encoded-IsFlowing _ c greets (sending-live c.transfer_state sends))

  pump-IsFlowing :
      (path : Text) (c : Client qt)
      → Greets lib c
      → is_sending c.transfer_state ≡ true
      → is_open c.send_file ≡ true
      → (is_connected qt c ≡ true
          → is_nil c.write_remainder ≡ false
          → c.remainder_flush_scheduled ≡ true)
      → IsFlowing lib (pump qt lib path c)
  unfolding pump
  pump-IsFlowing path c greets sends opened flushing =
      let live : is_live c.transfer_state ≡ true = sending-live c.transfer_state sends in
      IsFlowing-if lib _
        (fail_transfer-stopped lib _ c greets (live-unfinished c.transfer_state live))
        (IsFlowing-either lib _
          (λ full. record {
            greets = greets;
            opened = λ s. opened;
            flushing = flushing;
            pushing = λ s on empty. inr (
                high (qt.bytes_to_write c.world c.socket) (length c.write_remainder) full
                  (is_nil-length c.write_remainder empty));
          })
          (λ room.
            IsFlowing-if lib _ (send_file_finish-IsFlowing c greets sends)
              (read_chunk-IsFlowing path c greets live opened)))

  pump_open-IsFlowing :
      (o : Option Text) (c : Client qt)
      → c.send_file ≡ o
      → Greets lib c
      → (is_sending c.transfer_state ≡ true → is_open c.send_file ≡ true)
      → (is_connected qt c ≡ true
          → is_nil c.write_remainder ≡ false
          → c.remainder_flush_scheduled ≡ true)
      → IsFlowing lib (pump_open qt lib o c)
  unfolding pump_open
  pump_open-IsFlowing none c at greets opened flushing =
      resting lib c greets (closed-still c.transfer_state (rw at at opened)) flushing
  pump_open-IsFlowing (some path) c at greets opened flushing =
      IsFlowing-either lib (is_sending c.transfer_state)
        (λ sends. pump-IsFlowing path c greets sends (opened sends) flushing)
        (λ still. resting lib c greets still flushing)

  pub send_next_chunk-IsFlowing :
      (c : Client qt) → IsFlowing lib c → IsFlowing lib (send_next_chunk qt lib c)
  unfolding send_next_chunk
  send_next_chunk-IsFlowing c v =
      pump_open-IsFlowing c.send_file (record c { send_pump_scheduled = false }) refl v.greets
        v.opened v.flushing
