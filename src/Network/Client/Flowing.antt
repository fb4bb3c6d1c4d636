-- ===== src/Network/Client/Flowing.antt =====
-- The handlers of frames keep a client flowing.
use core_desk.Base.{
  ◌==◌, ◌≡◌, refl, Bool, true, false, not, ◌&&◌, if◌then◌else◌, List, [], ◌∷◌, is_nil,
}
use core_desk.Common.{Text, text, ErrorCode, Error, Result, success, failure}
use core_desk.Protocol.Json.{JsonLibrary}
use core_desk.Protocol.Json.Fields.{throws}
use core_desk.Protocol.MessageTypes.{hello_ack, file_accept, file_reject, file_result}
use core_desk.Protocol.Frame.{Frame}
use core_desk.Protocol.Payload.Handshake.{HelloAckPayload, decode_hello_ack_payload}
use core_desk.Protocol.Payload.Transfer.{
  FileAcceptPayload, FileRejectPayload, FileResultPayload, decode_file_accept_payload,
  decode_file_reject_payload, decode_file_result_payload,
}
use core_desk.Network.Qt.{Qt, SocketLaws}
use core_desk.Network.Client.{
  TransferState, OfferState, Notice, Client, is_sending, is_offering, is_finished, is_finishing,
  is_open, tell, cleanup_transfer_file, fail_transfer, handle_error,
}
use core_desk.Network.Client.Handlers.{
  terminate, fail_and_abort, report_and_disconnect, fail_and_disconnect, acknowledged,
  handle_hello_ack, start_sending, accept_decoded, handle_file_accept, rejected_offer,
  reject_decoded, handle_file_reject, result_decoded, handle_file_result, dispatch_frame,
  dispatch_frames, take_read,
}
use core_desk.Network.Client.Flow.{
  Greets, IsFlowing, resting, stopped, fail_transfer-still, fail_transfer-IsFlowing,
  handle_error-still, handle_error-IsFlowing, IsFlowing-if, IsFlowing-either, abort-IsFlowing,
  disconnect_socket-IsFlowing, schedule_send_pump-IsFlowing,
}
use core_desk.Network.Client.Writes.{cleanup-ConnectsNone}

opened-by : (b file : Bool) → (b && file) ≡ true → file ≡ true
opened-by true file h = h
opened-by false file h = absurd (cc)

module _ {qt : Qt} (lib : JsonLibrary) where
  -- A client that does not send, and has nothing left to write.
  pub record Cleared (c : Client qt) : Type 0 where
    pub greets : Greets lib c
    pub still : is_sending c.transfer_state ≡ false
    pub empty : is_nil c.write_remainder ≡ true

  pub Cleared-if :
      {x y : Client qt} (b : Bool) → Cleared x → Cleared y → Cleared (if b then x else y)
  Cleared-if true a b = a
  Cleared-if false a b = b

module _ {qt : Qt} (lib : JsonLibrary) (laws : SocketLaws qt) where
  terminate-IsFlowing : (c : Client qt) → IsFlowing lib c → IsFlowing lib (terminate qt lib c)
  terminate-IsFlowing c v = record {
    greets = v.greets;
    opened = v.opened;
    flushing = v.flushing;
    pushing = v.pushing;
  }

  fail_and_abort-IsFlowing :
      (code : ErrorCode) (message : Text) (c : Client qt)
      → IsFlowing lib c
      → IsFlowing lib (fail_and_abort qt lib code message c)
  unfolding fail_and_abort
  fail_and_abort-IsFlowing code message c v =
      abort-IsFlowing lib laws (fail_transfer qt _ c) (fail_transfer-IsFlowing lib _ c v)
        (fail_transfer-still lib _ c)

  report_and_disconnect-IsFlowing :
      (message : Text) (c : Client qt)
      → IsFlowing lib c
      → IsFlowing lib (report_and_disconnect qt lib message c)
  unfolding report_and_disconnect
  report_and_disconnect-IsFlowing message c v =
      disconnect_socket-IsFlowing lib laws (handle_error qt message c)
        (handle_error-IsFlowing lib message c v) (handle_error-still lib message c)

  fail_and_disconnect-IsFlowing :
      (e : Error) (c : Client qt) → IsFlowing lib c → IsFlowing lib (fail_and_disconnect qt lib e c)
  unfolding fail_and_disconnect
  fail_and_disconnect-IsFlowing e c v =
      disconnect_socket-IsFlowing lib laws (fail_transfer qt e c)
        (fail_transfer-IsFlowing lib e c v) (fail_transfer-still lib e c)

  acknowledged-IsFlowing :
      (r : Result HelloAckPayload) (c : Client qt)
      → IsFlowing lib c
      → IsFlowing lib (acknowledged qt lib r c)
  unfolding acknowledged
  acknowledged-IsFlowing (failure e) c v = report_and_disconnect-IsFlowing e.message c v
  acknowledged-IsFlowing (success ack) c v = resting lib _ v.greets refl v.flushing

  handle_hello_ack-IsFlowing :
      (frame : Frame) (c : Client qt)
      → IsFlowing lib c
      → IsFlowing lib (handle_hello_ack qt lib frame c)
  unfolding handle_hello_ack
  handle_hello_ack-IsFlowing frame c v =
      IsFlowing-if lib _ (fail_and_abort-IsFlowing ErrorCode.protocol_error _ c v) (
        IsFlowing-if lib (throws lib frame.payload) (terminate-IsFlowing c v)
          (acknowledged-IsFlowing (decode_hello_ack_payload lib frame.payload) c v))

  start_sending-IsFlowing :
      (c : Client qt) → IsFlowing lib c → IsFlowing lib (start_sending qt lib c)
  unfolding start_sending
  start_sending-IsFlowing c v =
      let c1 : Client qt = record c { transfer_state = TransferState.sending } in
      IsFlowing-either lib (is_offering c.transfer_state && is_open c.send_file)
        (λ starts.
          schedule_send_pump-IsFlowing lib c1 v.greets
            (λ sends. opened-by (is_offering c.transfer_state) (is_open c.send_file) starts)
            v.flushing)
        (λ rests. resting lib _ v.greets refl v.flushing)

  -- A change of what neither the pump nor the flush reads.
  accepted-IsFlowing :
      (n : Notice) (c : Client qt)
      → IsFlowing lib c
      → IsFlowing lib (tell qt n (record c { offer_state = OfferState.accepted }))
  accepted-IsFlowing n c v = record {
    greets = v.greets;
    opened = v.opened;
    flushing = v.flushing;
    pushing = v.pushing;
  }

  buffered-IsFlowing :
      (b : Text) (c : Client qt) → IsFlowing lib c → IsFlowing lib (record c { decoder = b })
  buffered-IsFlowing b c v = record {
    greets = v.greets;
    opened = v.opened;
    flushing = v.flushing;
    pushing = v.pushing;
  }

  accept_decoded-IsFlowing :
      (frame : Frame) (r : Result FileAcceptPayload) (c : Client qt)
      → IsFlowing lib c
      → IsFlowing lib (accept_decoded qt lib frame r c)
  unfolding accept_decoded
  accept_decoded-IsFlowing frame (failure e) c v = report_and_disconnect-IsFlowing e.message c v
  accept_decoded-IsFlowing frame (success p) c v =
      IsFlowing-if lib _ (report_and_disconnect-IsFlowing _ c v) (
        start_sending-IsFlowing _
          (accepted-IsFlowing (Notice.accept_notice frame.request_id p) c v))

  rejected_offer-IsFlowing :
      (frame : Frame) (p : FileRejectPayload) (c : Client qt)
      → IsFlowing lib c
      → IsFlowing lib (rejected_offer qt lib frame p c)
  unfolding rejected_offer cleanup_transfer_file
  rejected_offer-IsFlowing frame p c v = stopped lib _ v.greets (settled (is_open c.send_file)) refl
    where
      settled :
          (b : Bool) → is_sending (if b then TransferState.failed else TransferState.idle) ≡ false
      settled true = refl
      settled false = refl

  reject_decoded-IsFlowing :
      (frame : Frame) (r : Result FileRejectPayload) (c : Client qt)
      → IsFlowing lib c
      → IsFlowing lib (reject_decoded qt lib frame r c)
  unfolding reject_decoded
  reject_decoded-IsFlowing frame (failure e) c v = report_and_disconnect-IsFlowing e.message c v
  reject_decoded-IsFlowing frame (success p) c v =
      IsFlowing-if lib _ (report_and_disconnect-IsFlowing _ c v)
        (rejected_offer-IsFlowing frame p c v)

  result_decoded-IsFlowing :
      (frame : Frame) (r : Result FileResultPayload) (c : Client qt)
      → IsFlowing lib c
      → IsFlowing lib (result_decoded qt lib frame r c)
  unfolding result_decoded cleanup_transfer_file
  result_decoded-IsFlowing frame (failure e) c v = fail_and_disconnect-IsFlowing e c v
  result_decoded-IsFlowing frame (success p) c v =
      IsFlowing-if lib _ (fail_and_disconnect-IsFlowing _ c v) (
        resting lib _ v.greets (settled p.ok) (λ on full.
          v.flushing (cleanup-ConnectsNone lib laws c.send_file c.world c.socket on) full))
    where
      settled :
          (b : Bool)
          → is_sending (if b then TransferState.completed else TransferState.failed) ≡ false
      settled true = refl
      settled false = refl

  handle_file_accept-IsFlowing :
      (frame : Frame) (c : Client qt)
      → IsFlowing lib c
      → IsFlowing lib (handle_file_accept qt lib frame c)
  unfolding handle_file_accept
  handle_file_accept-IsFlowing frame c v =
      IsFlowing-if lib (not (is_offering c.transfer_state))
        (fail_and_abort-IsFlowing ErrorCode.protocol_error (text "unexpected FileAccept state") c v)
        (IsFlowing-if lib (throws lib frame.payload) (terminate-IsFlowing c v)
          (accept_decoded-IsFlowing frame (decode_file_accept_payload lib frame.payload) c v))

  handle_file_reject-IsFlowing :
      (frame : Frame) (c : Client qt)
      → IsFlowing lib c
      → IsFlowing lib (handle_file_reject qt lib frame c)
  unfolding handle_file_reject
  handle_file_reject-IsFlowing frame c v =
      IsFlowing-if lib (not (is_offering c.transfer_state))
        (fail_and_abort-IsFlowing ErrorCode.protocol_error (text "unexpected FileReject state") c v)
        (IsFlowing-if lib (throws lib frame.payload) (terminate-IsFlowing c v)
          (reject_decoded-IsFlowing frame (decode_file_reject_payload lib frame.payload) c v))

  handle_file_result-IsFlowing :
      (frame : Frame) (c : Client qt)
      → IsFlowing lib c
      → IsFlowing lib (handle_file_result qt lib frame c)
  unfolding handle_file_result
  handle_file_result-IsFlowing frame c v = IsFlowing-if lib (is_finished c.transfer_state) v (
      IsFlowing-if lib (not (is_finishing c.transfer_state))
        (fail_and_abort-IsFlowing ErrorCode.protocol_error (text "unexpected FileResult state") c v)
        (IsFlowing-if lib (throws lib frame.payload) (terminate-IsFlowing c v)
          (result_decoded-IsFlowing frame (decode_file_result_payload lib frame.payload) c v)))

  dispatch_frame-IsFlowing :
      (frame : Frame) (c : Client qt)
      → IsFlowing lib c
      → IsFlowing lib (dispatch_frame qt lib frame c)
  unfolding dispatch_frame
  dispatch_frame-IsFlowing frame c v =
      IsFlowing-if lib (frame.type == hello_ack) (handle_hello_ack-IsFlowing frame c v) (
        IsFlowing-if lib (frame.type == file_accept) (handle_file_accept-IsFlowing frame c v) (
          IsFlowing-if lib (frame.type == file_reject) (handle_file_reject-IsFlowing frame c v) (
            IsFlowing-if lib (frame.type == file_result) (handle_file_result-IsFlowing frame c v)
              (report_and_disconnect-IsFlowing (text "unexpected TCP transfer frame") c v))))

  dispatch_frames-IsFlowing :
      (frames : List Frame) (c : Client qt)
      → IsFlowing lib c
      → IsFlowing lib (dispatch_frames qt lib frames c)
  unfolding dispatch_frames
  dispatch_frames-IsFlowing [] c v = v
  dispatch_frames-IsFlowing (frame ∷ frames) c v = IsFlowing-if lib c.terminated v (
      dispatch_frames-IsFlowing frames (dispatch_frame qt lib frame c)
        (dispatch_frame-IsFlowing frame c v))

  pub take_read-IsFlowing :
      (r : Text × Result (List Frame)) (c : Client qt)
      → IsFlowing lib c
      → IsFlowing lib (take_read qt lib r c)
  unfolding take_read
  take_read-IsFlowing (b, failure e) c v =
      report_and_disconnect-IsFlowing _ (record c { decoder = b }) (buffered-IsFlowing b c v)
  take_read-IsFlowing (b, success frames) c v =
      dispatch_frames-IsFlowing frames (record c { decoder = b }) (buffered-IsFlowing b c v)
