-- ===== src/Network/Client/Silence.antt =====
-- A transfer that has completed or failed is not heard of again.
use core_desk.Base.{
  ◌==◌, ◌≡◌, refl, sym, ap, ◌∙◌, subst, Bool, true, false, not, ◌||◌, ◌&&◌, if◌then◌else◌, List, [],
  ◌∷◌, Option, none, some, is_nil, arith, All,
}
use core_desk.Common.{Text, text, ErrorCode, Result, success, failure}
use core_desk.Protocol.Json.{JsonLibrary}
use core_desk.Protocol.MessageTypes.{hello_ack, file_accept, file_reject, file_result}
use core_desk.Protocol.Frame.{Frame, push}
use core_desk.Protocol.Payload.Transfer.{FileOfferPayload}
use core_desk.Network.Qt.{Qt}
use core_desk.Network.Client.{
  HashJob, Client, is_sending, is_idle, is_offering, is_finished, abort, disconnect_socket,
  schedule_send_pump, schedule_remainder_flush,
}
use core_desk.Network.Client.Transfer.{
  handle_bytes_written, send_next_chunk, pump_open, send_file_offer, handle_hash_result,
  cleanup_hash_worker,
}
use core_desk.Network.Client.Handlers.{
  fail_and_abort, report_and_disconnect, handle_hello_ack, handle_file_accept, handle_file_reject,
  handle_file_result, dispatch_frame, dispatch_frames, take_read, handle_ready_read,
  take_hash_result, Event, handle, run,
}
use core_desk.Network.Client.Quiet.{
  is_aftermath, finished-Over, Silent, Silent-refl, Silent-trans, Silent-either, fail_transfer-same,
  handle_error-same, handle_disconnected-Silent, abort-Silent, disconnect_socket-Silent,
  schedule_send_pump-Silent, schedule_remainder_flush-Silent, flush_write_remainder-Silent,
}

module _ {qt : Qt} where
  handle_bytes_written-Silent :
      (c : Client qt) (w : qt.World) → Silent c (handle_bytes_written qt (record c { world = w }))
  unfolding handle_bytes_written
  handle_bytes_written-Silent c w =
      let c1 : Client qt = record c { world = w } in
      let p : Silent c1 (schedule_send_pump qt c1) = schedule_send_pump-Silent c1 in
      let f : Silent c1 (schedule_remainder_flush qt c1) = schedule_remainder_flush-Silent c1 in
      Silent-either (is_nil c.write_remainder)
        (λ h. record { same_state = p.same_state; same_reports = p.same_reports })
        (λ h. record { same_state = f.same_state; same_reports = f.same_reports })

  module _ (lib : JsonLibrary) where
    pump_open-Silent :
        (o : Option Text) (c : Client qt)
        → is_finished c.transfer_state ≡ true
        → Silent c (pump_open qt lib o c)
    unfolding pump_open
    pump_open-Silent none c over = Silent-refl c
    pump_open-Silent (some p) c over =
        Silent-either (is_sending c.transfer_state)
          (λ sends. absurd (let idle = (finished-Over c.transfer_state over).not_sending in cc))
          (λ still. Silent-refl c)

    send_next_chunk-Silent :
        (c : Client qt) → is_finished c.transfer_state ≡ true → Silent c (send_next_chunk qt lib c)
    unfolding send_next_chunk
    send_next_chunk-Silent c over =
        let p = pump_open-Silent c.send_file (record c { send_pump_scheduled = false }) over in
        record { same_state = p.same_state; same_reports = p.same_reports }

    fail_and_abort-Silent :
        (code : ErrorCode) (m : Text) (c : Client qt)
        → is_finished c.transfer_state ≡ true
        → Silent c (fail_and_abort qt lib code m c)
    unfolding fail_and_abort
    fail_and_abort-Silent code m c over =
        subst (λ x. Silent c (abort qt x))
          (sym (fail_transfer-same (record { code = code; message = m }) c over))
          (abort-Silent c over)

    report_and_disconnect-Silent :
        (m : Text) (c : Client qt)
        → is_finished c.transfer_state ≡ true
        → Silent c (report_and_disconnect qt lib m c)
    unfolding report_and_disconnect
    report_and_disconnect-Silent m c over =
        subst (λ x. Silent c (disconnect_socket qt x)) (sym (handle_error-same m c over))
          (disconnect_socket-Silent c over)

    handle_hello_ack-Silent :
        (frame : Frame) (c : Client qt)
        → is_finished c.transfer_state ≡ true
        → Silent c (handle_hello_ack qt lib frame c)
    unfolding handle_hello_ack
    handle_hello_ack-Silent frame c over =
        simp ((finished-Over c.transfer_state over).not_hello_sent, handle_hello_ack)
          (fail_and_abort-Silent ErrorCode.protocol_error (text "unexpected HelloAck") c over)

    handle_file_accept-Silent :
        (frame : Frame) (c : Client qt)
        → is_finished c.transfer_state ≡ true
        → Silent c (handle_file_accept qt lib frame c)
    unfolding handle_file_accept
    handle_file_accept-Silent frame c over =
        simp ((finished-Over c.transfer_state over).not_offering, handle_file_accept)
          (fail_and_abort-Silent ErrorCode.protocol_error (text "unexpected FileAccept state") c
            over)

    handle_file_reject-Silent :
        (frame : Frame) (c : Client qt)
        → is_finished c.transfer_state ≡ true
        → Silent c (handle_file_reject qt lib frame c)
    unfolding handle_file_reject
    handle_file_reject-Silent frame c over =
        simp ((finished-Over c.transfer_state over).not_offering, handle_file_reject)
          (fail_and_abort-Silent ErrorCode.protocol_error (text "unexpected FileReject state") c
            over)

    handle_file_result-Silent :
        (frame : Frame) (c : Client qt)
        → is_finished c.transfer_state ≡ true
        → Silent c (handle_file_result qt lib frame c)
    unfolding handle_file_result
    handle_file_result-Silent frame c over = simp (over, handle_file_result) (Silent-refl c)

    dispatch_frame-Silent :
        (frame : Frame) (c : Client qt)
        → is_finished c.transfer_state ≡ true
        → Silent c (dispatch_frame qt lib frame c)
    unfolding dispatch_frame
    dispatch_frame-Silent frame c over =
        Silent-either (frame.type == hello_ack) (λ h. handle_hello_ack-Silent frame c over)
          (λ h.
            Silent-either (frame.type == file_accept) (λ h. handle_file_accept-Silent frame c over)
              (λ h.
                Silent-either (frame.type == file_reject)
                  (λ h. handle_file_reject-Silent frame c over)
                  (λ h.
                    Silent-either (frame.type == file_result)
                      (λ h. handle_file_result-Silent frame c over)
                      (λ h.
                        report_and_disconnect-Silent (text "unexpected TCP transfer frame") c
                          over))))

    still_finished :
        {c c' : Client qt}
        → Silent c c'
        → is_finished c.transfer_state ≡ true
        → is_finished c'.transfer_state ≡ true
    still_finished s over = ap (λ x. is_finished x) s.same_state ∙ over

    dispatch_frames-Silent :
        (frames : List Frame) (c : Client qt)
        → is_finished c.transfer_state ≡ true
        → Silent c (dispatch_frames qt lib frames c)
    unfolding dispatch_frames
    dispatch_frames-Silent [] c over = Silent-refl c
    dispatch_frames-Silent (frame ∷ frames) c over =
        let s = dispatch_frame-Silent frame c over in
        let rest =
          dispatch_frames-Silent frames (dispatch_frame qt lib frame c) (still_finished s over) in
        Silent-either c.terminated (λ h. Silent-refl c) (λ h. Silent-trans s rest)

    take_read-Silent :
        (r : Text × Result (List Frame)) (c : Client qt)
        → is_finished c.transfer_state ≡ true
        → Silent c (take_read qt lib r c)
    unfolding take_read
    take_read-Silent (b, failure e) c over =
        let s =
          report_and_disconnect-Silent
            (if is_nil e.message then text "protocol error" else e.message)
            (record c { decoder = b }) over in
        record { same_state = s.same_state; same_reports = s.same_reports }
    take_read-Silent (b, success frames) c over =
        let s = dispatch_frames-Silent frames (record c { decoder = b }) over in
        record { same_state = s.same_state; same_reports = s.same_reports }

    take_hash_result-Silent :
        (r : Result Text) (jobs : List HashJob) (c : Client qt)
        → is_finished c.transfer_state ≡ true
        → Silent c (take_hash_result qt lib r jobs c)
    unfolding take_hash_result handle_hash_result cleanup_hash_worker
    take_hash_result-Silent r [] c over = Silent-refl c
    take_hash_result-Silent r (job ∷ jobs) c over =
        Silent-either
          (not (job.generation == c.hash_generation) || not (is_offering c.transfer_state))
          (λ stale. record { same_state = refl; same_reports = refl })
          (λ fresh. absurd (
            let bad : true ≡ false =
              stale (not (job.generation == c.hash_generation)) (is_offering c.transfer_state)
                (finished-Over c.transfer_state over).not_offering fresh in
            cc))
      where
        stale :
            (old offering : Bool) → offering ≡ false → (old || not offering) ≡ false → true ≡ false
        stale old offering h fresh = absurd (ground (arith, h, fresh))

    send_file_offer-Silent :
        (offer : FileOfferPayload) (c : Client qt)
        → is_finished c.transfer_state ≡ true
        → Silent c (send_file_offer qt lib offer c).0
    unfolding send_file_offer
    send_file_offer-Silent offer c over =
        let refuses : (not c.handshake_complete
              || not (is_idle c.transfer_state) && not (is_offering c.transfer_state))
            ≡ true =
          busy c.handshake_complete _ _ (finished-Over c.transfer_state over).not_idle
            (finished-Over c.transfer_state over).not_offering in
        simp (refuses, send_file_offer) (Silent-refl c)
      where
        busy :
            (greeted idle offering : Bool)
            → idle ≡ false
            → offering ≡ false
            → (not greeted || not idle && not offering) ≡ true
        busy greeted idle offering a b = ground (arith, a, b)

    handle-Silent :
        (e : Event qt lib) (c : Client qt)
        → is_aftermath e ≡ true
        → is_finished c.transfer_state ≡ true
        → Silent c (handle qt lib e c)
    unfolding handle handle_ready_read
    handle-Silent Event.send_pump_event c after over = send_next_chunk-Silent c over
    handle-Silent Event.flush_event c after over = flush_write_remainder-Silent c over
    handle-Silent (Event.offer_event offer) c after over = send_file_offer-Silent offer c over
    handle-Silent (Event.disconnected_event w) c after over =
        let s = handle_disconnected-Silent (record c { world = w }) over in
        record { same_state = s.same_state; same_reports = s.same_reports }
    handle-Silent (Event.written_event n) c after over = handle_bytes_written-Silent c _
    handle-Silent (Event.read_event bytes) c after over =
        take_read-Silent (push c.decoder bytes) c over
    handle-Silent (Event.error_event m) c after over =
        subst (λ x. Silent c x) (sym (handle_error-same m c over)) (Silent-refl c)
    handle-Silent (Event.hash_event r) c after over = take_hash_result-Silent r c.hash_jobs c over
    handle-Silent _ c after over = absurd (cc)

    -- Once its transfer has completed or failed, a client keeps that state and reports nothing more, but
    -- that it can tell of a disconnection: no frame, write, error, timer or result of a hash worker makes
    -- it call the error callback or one of the others a second time, until the owner connects,
    -- disconnects or sends a file anew.
    pub run-Silent :
        (es : List (Event qt lib)) (c : Client qt)
        → is_finished c.transfer_state ≡ true
        → All (λ e. is_aftermath e ≡ true) es
        → Silent c (run qt lib es c)
    run-Silent [] c over after = Silent-refl c
    run-Silent (e ∷ es) c over after =
        let s = handle-Silent e c after.0 over in
        let rest = run-Silent es (handle qt lib e c) (still_finished s over) after.1 in
        Silent-either c.terminated (λ h. Silent-refl c) (λ h. Silent-trans s rest)
