-- ===== src/Network/Server/Sends.antt =====
-- What a handler does to send a frame or to drop a connection is calm.
use core_desk.Base.{
  ℕ, ltb, refl, Bool, true, false, inl, inr, not, length, drop, is_nil, Option-cases,
}
use core_desk.Common.{Text, Error, Result, success, failure}
use core_desk.Protocol.Json.{JsonLibrary}
use core_desk.Protocol.Frame.{Frame, encode}
use core_desk.Network.Qt.{Qt, QtLaws}
use core_desk.Network.Server.{
  Connection, find, Server, write_frame, send_encoded, send_frame, handle_bytes_written,
  after_flushed, flush_write_remainder, disconnect_after_pending_write, send_reply,
  send_file_reject, send_file_result, scheduled, in_world, on_connection, reply, write_rest,
}
use core_desk.Network.Server.Calm.{
  scheduled-KeepsHello, Calm, Calm-trans, Calm-refl, Calm-world, Calm-update,
}
use core_desk.Network.Server.Closes.{
  Calm-if, disconnect_from_host-Calm, close_protocol_error-Calm, handle_send_failure-Calm,
}

module _ {qt : Qt} (laws : QtLaws qt) where
  -- A write, and any handler that is calm after it.
  after_write-Calm :
      {k : ℕ} {s s' : Server qt} (bytes : Text)
      → Calm qt k (in_world qt (qt.after_write s.world k bytes) s) s'
      → Calm qt k s s'
  after_write-Calm {k} {s} bytes later =
      Calm-trans qt (Calm-world qt s _ (laws.write-KeepsFiles s.world k bytes)) later

  write_frame-Calm : (k : ℕ) (bytes : Text) (s : Server qt) → Calm qt k s (write_frame qt k bytes s)
  unfolding write_frame
  write_frame-Calm k bytes s =
      let s1 : Server qt = in_world qt (qt.after_write s.world k bytes) s in
      elim (Option-cases (qt.accepted s.world k bytes)) [
        | inl failed ↦
            simp (failed, write_frame) (after_write-Calm bytes (handle_send_failure-Calm laws k s1))
        | inr (n, took) ↦
            simp (took, write_frame)
              (after_write-Calm bytes (
                Calm-if laws (ltb n (length bytes))
                  (Calm-update qt k (λ c. scheduled (record c { write_remainder = drop n bytes }))
                    s1 (λ c. scheduled-KeepsHello (record c { write_remainder = drop n bytes })))
                  (Calm-refl qt s1)))
      ]

  send_encoded-Calm :
      (k : ℕ) (r : Result Text) (s : Server qt) → Calm qt k s (send_encoded qt k r s)
  unfolding send_encoded
  send_encoded-Calm k (failure e) s = handle_send_failure-Calm laws k s
  send_encoded-Calm k (success bytes) s =
      Calm-if laws _ (handle_send_failure-Calm laws k s) (write_frame-Calm k bytes s)

  pub send_frame-Calm :
      (k : ℕ) (frame : Frame) (s : Server qt) → Calm qt k s (send_frame qt k frame s)
  unfolding send_frame
  send_frame-Calm k frame s = elim (Option-cases (find k s.connections)) [
    | inl unknown ↦ simp (unknown, send_frame) (Calm-refl qt s)
    | inr (c, found) ↦
        simp (found, send_frame)
          (Calm-if laws (is_nil c.write_remainder) (send_encoded-Calm k (encode frame) s)
            (handle_send_failure-Calm laws k s))
  ]

  pub handle_bytes_written-Calm :
      (k : ℕ) (s : Server qt) → Calm qt k s (handle_bytes_written qt k s)
  unfolding handle_bytes_written
  handle_bytes_written-Calm k s = elim (Option-cases (find k s.connections)) [
    | inl unknown ↦ simp (unknown, handle_bytes_written) (Calm-refl qt s)
    | inr (c, found) ↦
        simp (found, handle_bytes_written)
          (Calm-if laws (not (is_nil c.write_remainder))
            (Calm-update qt k scheduled s scheduled-KeepsHello)
            (Calm-if laws c.disconnect_after_write (disconnect_from_host-Calm laws k s)
              (Calm-refl qt s)))
  ]

  after_flushed-Calm :
      (k n : ℕ) (c : Connection) (s : Server qt) → Calm qt k s (after_flushed qt k n c s)
  unfolding after_flushed
  after_flushed-Calm k n c s =
      let shorten : Connection → Connection =
        λ c'. record c' { write_remainder = drop n c.write_remainder } in
      let s1 : Server qt = on_connection qt k shorten s in
      Calm-trans qt (Calm-update qt k shorten s (λ c'. (refl, λ h. h))) (
        Calm-if laws (not (is_nil (drop n c.write_remainder)))
          (Calm-update qt k scheduled s1 scheduled-KeepsHello)
          (Calm-if laws c.disconnect_after_write (disconnect_from_host-Calm laws k s1)
            (Calm-refl qt s1)))

  write_rest-Calm : (k : ℕ) (c : Connection) (s : Server qt) → Calm qt k s (write_rest qt k c s)
  unfolding write_rest
  write_rest-Calm k c s =
      let s1 : Server qt = in_world qt (qt.after_write s.world k c.write_remainder) s in
      elim (Option-cases (qt.accepted s.world k c.write_remainder)) [
        | inl failed ↦
            simp (failed, write_rest)
              (after_write-Calm c.write_remainder (handle_send_failure-Calm laws k s1))
        | inr (n, took) ↦
            simp (took, write_rest)
              (after_write-Calm c.write_remainder (after_flushed-Calm k n c s1))
      ]

  pub flush_write_remainder-Calm :
      (k : ℕ) (s : Server qt) → Calm qt k s (flush_write_remainder qt k s)
  unfolding flush_write_remainder
  flush_write_remainder-Calm k s =
      let stop : Connection → Connection = λ c'. record c' { remainder_flush_scheduled = false } in
      let s1 : Server qt = on_connection qt k stop s in
      elim (Option-cases (find k s.connections)) [
        | inl unknown ↦ simp (unknown, flush_write_remainder) (Calm-refl qt s)
        | inr (c, found) ↦
            simp (found, flush_write_remainder)
              (Calm-trans qt (Calm-update qt k stop s (λ c'. (refl, λ h. h))) (
                Calm-if laws (is_nil c.write_remainder)
                  (Calm-if laws c.disconnect_after_write (disconnect_from_host-Calm laws k s1)
                    (Calm-refl qt s1))
                  (Calm-if laws (not (qt.is_connected s.world k))
                    (handle_send_failure-Calm laws k s1) (write_rest-Calm k c s1))))
      ]

  pub disconnect_after_pending_write-Calm :
      (k : ℕ) (s : Server qt) → Calm qt k s (disconnect_after_pending_write qt k s)
  unfolding disconnect_after_pending_write
  disconnect_after_pending_write-Calm k s = elim (Option-cases (find k s.connections)) [
    | inl unknown ↦ simp (unknown, disconnect_after_pending_write) (Calm-refl qt s)
    | inr (c, found) ↦
        simp (found, disconnect_after_pending_write)
          (Calm-if laws (is_nil c.write_remainder) (disconnect_from_host-Calm laws k s) (
            Calm-update qt k (λ c'. record c' { disconnect_after_write = true }) s
              (λ c'. (refl, λ h. h))))
  ]

  send_reply-Calm :
      (k type request_id : ℕ) (r : Result Text) (s : Server qt)
      → Calm qt k s (send_reply qt k type request_id r s)
  unfolding send_reply
  send_reply-Calm k type request_id (failure e) s = close_protocol_error-Calm laws k s
  send_reply-Calm k type request_id (success payload) s =
      send_frame-Calm k (reply qt type request_id payload) s

  module _ (lib : JsonLibrary) where
    pub send_file_reject-Calm :
        (k request_id : ℕ) (id : Text) (e : Error) (s : Server qt)
        → Calm qt k s (send_file_reject qt lib k request_id id e s)
    unfolding send_file_reject
    send_file_reject-Calm k request_id id e s = send_reply-Calm k _ request_id _ s

    pub send_file_result-Calm :
        (k request_id : ℕ) (id : Text) (ok : Bool) (e : Error) (s : Server qt)
        → Calm qt k s (send_file_result qt lib k request_id id ok e s)
    unfolding send_file_result
    send_file_result-Calm k request_id id ok e s = send_reply-Calm k _ request_id _ s
