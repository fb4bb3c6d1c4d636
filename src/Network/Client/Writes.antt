-- ===== src/Network/Client/Writes.antt =====
-- What a client writes before and between the chunks of a file keeps it flowing.
use core_desk.Base.{
  ℕ, ◌+◌, ◌≡◌, ◌≤◌, refl, Bool, true, false, Bool-cases, inl, inr, not, ◌||◌, ltb, Option, none,
  some, is_nil, drop, arith,
}
use core_desk.Common.{Text, Result, success, failure, VoidResult, void_ok}
use core_desk.Protocol.Json.{JsonLibrary}
use core_desk.Network.Qt.{Qt, SocketLaws, ConnectsNone}
use core_desk.Network.Client.{
  TransferState, Client, pending_write_high_water_mark, is_sending, is_offering, is_finishing,
  is_idle, is_finished, is_open, is_connected, closed_file, cleanup_transfer_file, fail_transfer,
  schedule_send_pump, write_result, increment, after_write_to_socket,
}
use core_desk.Network.Client.Transfer.{
  abort_failed, cleanup_hash_worker, start_hash_worker, send_file, flush_taken, remainder_written,
  flush_write_remainder, handle_bytes_written, hello_encoded, send_hello,
}
use core_desk.Network.Client.Sent.{
  Sent, live-unfinished, send_frame-Sent, schedule_remainder_flush-IsFlowing,
}
use core_desk.Network.Client.Flow.{
  is_live, is_success, Greets, IsFlowing, resting, fail_transfer-still, fail_transfer-stopped,
  IsFlowing-either, abort-IsFlowing, schedule_send_pump-IsFlowing,
}

ended-sending :
    (s : TransferState) (on : Bool)
    → (not on || is_finished s || is_idle s) ≡ true
    → is_sending s ≡ true
    → on ≡ true
    → true ≡ false
ended-sending TransferState.sending on ends sends h = ground (arith, ends, h)
ended-sending _ on ends sends h = absurd (cc)

going-live :
    (s : TransferState) (on : Bool)
    → (not on || is_finished s || is_idle s) ≡ false
    → is_live s ≡ true
going-live s on goes = ground (arith, goes)

pub sending-live : (s : TransferState) → is_sending s ≡ true → is_live s ≡ true
sending-live TransferState.sending h = refl
sending-live _ h = absurd (cc)

pub high :
    (bytes rest : ℕ)
    → not (ltb (bytes + rest) pending_write_high_water_mark) ≡ true
    → rest ≡ 0
    → pending_write_high_water_mark ≤ bytes
high bytes rest full h = ground (arith, full, h)

pub closed-still : (s : TransferState) → (is_sending s ≡ true → false ≡ true) → is_sending s ≡ false
closed-still s h = elim (Bool-cases (is_sending s)) [
  | inl sends ↦ absurd (let bad = h sends in cc)
  | inr still ↦ still
]

module _ {qt : Qt} (lib : JsonLibrary) (laws : SocketLaws qt) where
  -- A client that does not send, after a frame that it must send.
  pub abort_failed-IsFlowing :
      (c : Client qt) (r : Client qt × VoidResult)
      → Greets lib c
      → is_live c.transfer_state ≡ true
      → is_sending c.transfer_state ≡ false
      → Sent lib c r
      → IsFlowing lib (abort_failed qt r)
  abort_failed-IsFlowing c (c', written) greets live still s =
      let greets' : Greets lib c' = rw s.same_name greets in
      let live' : is_live c'.transfer_state ≡ true = rw s.same_state live in
      elim (Bool-cases (void_ok written)) [
        | inl ok ↦ simp ok (resting lib c' greets' (rw s.same_state still) (s.flushing ok))
        | inr bad ↦ simp bad (
            abort-IsFlowing lib laws (fail_transfer qt written.error c')
              (fail_transfer-stopped lib written.error c' greets'
                (live-unfinished c'.transfer_state live'))
              (fail_transfer-still lib written.error c'))
      ]

  hello_encoded-IsFlowing :
      (r : Result Text) (c : Client qt)
      → Greets lib c
      → is_success r ≡ true
      → IsFlowing lib (hello_encoded qt lib r c)
  unfolding hello_encoded
  hello_encoded-IsFlowing (failure e) c greets good = absurd (cc)
  hello_encoded-IsFlowing (success payload) c greets good =
      let c1 : Client qt = record c {
        transfer_state = TransferState.hello_sent;
        pending_hello_request_id = c.next_request_id;
        next_request_id = increment c.next_request_id;
      } in
      abort_failed-IsFlowing c1 _ greets refl refl (send_frame-Sent lib _ c1 refl)

  pub send_hello-IsFlowing : (c : Client qt) → Greets lib c → IsFlowing lib (send_hello qt lib c)
  unfolding send_hello
  send_hello-IsFlowing c greets = hello_encoded-IsFlowing _ c greets greets

  pub cleanup-ConnectsNone :
      (o : Option Text) (w : qt.World) → ConnectsNone qt w (closed_file qt o w)
  cleanup-ConnectsNone none w = λ k on. on
  cleanup-ConnectsNone (some p) w = laws.close-ConnectsNone w p

  pub send_file-IsFlowing :
      (path : Text) (c : Client qt) → IsFlowing lib c → IsFlowing lib (send_file qt path c).0
  unfolding send_file start_hash_worker cleanup_hash_worker cleanup_transfer_file
  send_file-IsFlowing path c v =
      elim (Bool-cases (
        c.hash_thread
        || is_offering c.transfer_state
        || is_sending c.transfer_state
        || is_finishing c.transfer_state)) [
          | inl busy ↦ simp (busy, send_file) v
          | inr free ↦ elim (Bool-cases (qt.is_file c.world path)) [
            | inr missing ↦ simp (free, missing, send_file) v
            | inl there ↦
                simp (free, there, send_file)
                  (resting lib _ v.greets refl (λ on full.
                    v.flushing (cleanup-ConnectsNone c.send_file c.world c.socket on) full))
          ]
        ]

  pub schedule_pump : (c : Client qt) → IsFlowing lib c → IsFlowing lib (schedule_send_pump qt c)
  schedule_pump c v = schedule_send_pump-IsFlowing lib c v.greets v.opened v.flushing

  -- After the socket took part of the remainder.
  flush_taken-IsFlowing :
      (n : ℕ) (c : Client qt)
      → Greets lib c
      → (is_sending c.transfer_state ≡ true → is_open c.send_file ≡ true)
      → is_live c.transfer_state ≡ true
      → IsFlowing lib (flush_taken qt n c)
  unfolding flush_taken
  flush_taken-IsFlowing n c greets opened live =
      let rest : Text = drop n c.write_remainder in
      let c1 : Client qt = record c { write_remainder = rest } in
      IsFlowing-either lib (is_nil rest)
        (λ empty. schedule_send_pump-IsFlowing lib c1 greets opened (λ on full. absurd (cc)))
        (λ full. schedule_remainder_flush-IsFlowing lib c1 greets opened full (inl live))

  remainder_written-IsFlowing :
      (o : Option ℕ) (c : Client qt)
      → Greets lib c
      → (is_sending c.transfer_state ≡ true → is_open c.send_file ≡ true)
      → is_live c.transfer_state ≡ true
      → IsFlowing lib (remainder_written qt o c)
  unfolding remainder_written
  remainder_written-IsFlowing none c greets opened live =
      abort-IsFlowing lib laws (fail_transfer qt _ c)
        (fail_transfer-stopped lib _ c greets (live-unfinished c.transfer_state live))
        (fail_transfer-still lib _ c)
  remainder_written-IsFlowing (some n) c greets opened live =
      flush_taken-IsFlowing n c greets opened live

  pub flush_write_remainder-IsFlowing :
      (c : Client qt) → IsFlowing lib c → IsFlowing lib (flush_write_remainder qt c)
  unfolding flush_write_remainder
  flush_write_remainder-IsFlowing c v =
      let c1 : Client qt = record c { remainder_flush_scheduled = false } in
      IsFlowing-either lib (is_nil c.write_remainder)
        (λ empty. schedule_send_pump-IsFlowing lib c1 v.greets v.opened (λ on full. absurd (cc)))
        (λ full.
          IsFlowing-either lib _
            (λ ends. record {
              greets = v.greets;
              opened = v.opened;
              flushing = λ on full. absurd (cc);
              pushing = λ sends on empty. absurd (
                  let bad = ended-sending c.transfer_state (is_connected qt c) ends sends on in cc);
            })
            (λ goes.
              remainder_written-IsFlowing (write_result qt c c.write_remainder)
                (after_write_to_socket qt c.write_remainder c1) v.greets v.opened
                (going-live c.transfer_state (is_connected qt c) goes)))

  pub handle_bytes_written-IsFlowing :
      (c : Client qt) (w : qt.World)
      → IsFlowing lib c
      → ConnectsNone qt c.world w
      → IsFlowing lib (handle_bytes_written qt (record c { world = w }))
  unfolding handle_bytes_written
  handle_bytes_written-IsFlowing c w v none_new =
      let c1 : Client qt = record c { world = w } in
      IsFlowing-either lib (is_nil c.write_remainder)
        (λ empty.
          schedule_send_pump-IsFlowing lib c1 v.greets v.opened
            (λ on full. v.flushing (none_new c.socket on) full))
        (λ full.
          schedule_remainder_flush-IsFlowing lib c1 v.greets v.opened full
            (inr (λ on. v.flushing (none_new c.socket on) full)))
