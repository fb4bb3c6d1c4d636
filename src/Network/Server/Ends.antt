-- ===== src/Network/Server/Ends.antt =====
-- Which frames end the transfer of their socket.
use core_desk.Base.{
  ℕ, ◌==◌, ◌≡◌, refl, sym, ap, ◌∙◌, subst, Bool, true, false, inl, inr, if◌then◌else◌, none, some,
  [], Option-cases, text_eq, ◌&&◌, not,
}
use core_desk.Common.{text, ErrorCode, Error, invalid, Result, success, failure}
use core_desk.Protocol.Json.{JsonLibrary}
use core_desk.Protocol.Json.Fields.{throws}
use core_desk.Protocol.Frame.{Frame}
use core_desk.Protocol.Payload.Transfer.{FileFinishPayload, decode_file_finish_payload}
use core_desk.Network.Qt.{Qt}
use core_desk.Network.Server.{
  ReceiveState, ActiveTransfer, in_world, Server, owns, cleanup_active_transfer, send_file_result,
}
use core_desk.Network.Server.Receive.{
  error_of, is_open, transfer_id_of, fail_receive, publish, complete_transfer, complete_receive,
}
use core_desk.Network.Server.Handlers.{
  wrong_transfer, refuse_payload, own_finish, active_finish, take_finish, handle_file_finish,
}

-- No transfer is active.
data Gone {qt : Qt} : (s : Server qt) → Type 0 where
  gone : {s : Server qt} → s.active_transfer ≡ none → Gone s

Gone-transfer : {qt : Qt} (s : Server qt) → Gone s → s.active_transfer ≡ none
Gone-transfer s (Gone.gone h) = h

module _ (qt : Qt) (lib : JsonLibrary) where
  cleanup-Gone : (b : Bool) (s : Server qt) → Gone (cleanup_active_transfer qt b s)
  unfolding cleanup_active_transfer
  cleanup-Gone b s = elim (Option-cases s.active_transfer) [
    | inl free ↦ simp (free, cleanup_active_transfer) (Gone.gone free)
    | inr (t, at) ↦ simp (at, cleanup_active_transfer) (Gone.gone refl)
  ]

  fail_receive-Gone :
      (k request_id : ℕ) (e : Error) (s : Server qt) → Gone (fail_receive qt lib k request_id e s)
  unfolding fail_receive
  fail_receive-Gone k request_id e s =
      cleanup-Gone true
        (send_file_result qt lib k request_id (transfer_id_of qt s.active_transfer) false e s)

  Gone-if : {x y : Server qt} (b : Bool) → Gone x → Gone y → Gone (if b then x else y)
  Gone-if true a b = a
  Gone-if false a b = b

  publish-Gone :
      (k request_id : ℕ) (t : ActiveTransfer) (s : Server qt)
      → Gone (publish qt lib k request_id t s)
  unfolding publish
  publish-Gone k request_id t s =
      let moved : Server qt = in_world qt (qt.after_rename s.world t.part_path t.target_path) s in
      Gone-if (qt.renames s.world t.part_path t.target_path)
        (cleanup-Gone false (
          send_file_result qt lib k request_id t.transfer_id true (error_of ErrorCode.ok_code [])
            moved))
        (fail_receive-Gone k request_id
          (error_of ErrorCode.io_error (text "failed to rename completed transfer")) moved)

  complete_transfer-Gone :
      (k request_id : ℕ) (t : ActiveTransfer) (s : Server qt)
      → Gone (complete_transfer qt lib k request_id t s)
  unfolding complete_transfer
  complete_transfer-Gone k request_id t s =
      let flushed : qt.World = qt.after_flush s.world t.part_path in
      let closed : Server qt = in_world qt (qt.after_close flushed t.part_path) s in
      Gone-if (not (t.expected_offset == t.file_size))
        (fail_receive-Gone k request_id (invalid (text "received size does not match file_size")) s)
        (Gone-if (not (qt.flushes s.world t.part_path))
          (fail_receive-Gone k request_id
            (error_of ErrorCode.io_error (qt.file_error flushed t.part_path))
            (in_world qt flushed s))
          (Gone-if (not (text_eq (qt.sha256_hex t.hash) t.sha256))
            (fail_receive-Gone k request_id
              (error_of ErrorCode.hash_mismatch (text "sha256 mismatch")) closed)
            (publish-Gone k request_id t closed)))

  own_finish-Gone :
      (k request_id : ℕ) (p : FileFinishPayload) (t : ActiveTransfer) (s : Server qt)
      → Gone (own_finish qt lib k request_id p t s)
  unfolding own_finish complete_receive
  own_finish-Gone k request_id p t s =
      let finishing : ActiveTransfer = record t { state = ReceiveState.finishing } in
      Gone-if (not (text_eq p.transfer_id t.transfer_id && is_open t.state))
        (fail_receive-Gone k request_id (wrong_transfer qt lib) s)
        (complete_transfer-Gone k request_id finishing
          (record s { active_transfer = some finishing }))

  take_finish-Gone :
      (k request_id : ℕ) (r : Result FileFinishPayload) (t : ActiveTransfer) (s : Server qt)
      → s.active_transfer ≡ some t
      → (t.socket == k) ≡ true
      → Gone (take_finish qt lib k request_id r s)
  unfolding take_finish refuse_payload active_finish
  take_finish-Gone k request_id (failure e) t s at own =
      let mine : owns qt k s.active_transfer ≡ true = rw at own in
      simp (mine, take_finish, refuse_payload) (fail_receive-Gone k request_id e s)
  take_finish-Gone k request_id (success p) t s at own =
      let e : active_finish qt lib k request_id p (some t) s
          ≡ own_finish qt lib k request_id p t s =
        simp (own, active_finish) refl in
      subst (λ o. Gone (active_finish qt lib k request_id p o s)) (sym at)
        (subst Gone (sym e) (own_finish-Gone k request_id p t s))

  -- A `FileFinish` from the socket that owns the active transfer ends it, whatever the frame and the
  -- state of the transfer are, and whether or not the files and the sockets fail, if the JSON library
  -- does not throw another exception than a parse error at its payload, which ends the program.
  pub handle_file_finish-gone :
      (k : ℕ) (frame : Frame) (t : ActiveTransfer) (s : Server qt)
      → s.active_transfer ≡ some t
      → (t.socket == k) ≡ true
      → throws lib frame.payload ≡ false
      → (handle_file_finish qt lib k frame s).active_transfer ≡ none
  unfolding handle_file_finish
  handle_file_finish-gone k frame t s at own parses =
      let r : Result FileFinishPayload = decode_file_finish_payload lib frame.payload in
      let e : handle_file_finish qt lib k frame s ≡ take_finish qt lib k frame.request_id r s =
        simp (parses, handle_file_finish) refl in
      ap (λ x. x.active_transfer) e
      ∙ Gone-transfer _ (take_finish-Gone k frame.request_id r t s at own)
