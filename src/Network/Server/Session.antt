-- ===== src/Network/Server/Session.antt =====
-- A whole session, over files and sockets that do not fail.
pub mod Reliable
pub mod Chunks
use core_desk.Base.{
  ℕ, ◌+◌, ◌-◌, ◌==◌, ==_refl, ◌≡◌, ◌≢◌, ◌≤◌, refl, sym, ap, ◌∙◌, subst, true, false, List, [], ◌∷◌,
  ◌++◌, none, some, length, text_eq, text_eq_refl, arith, append-nil, append_assoc, length-append,
  is_nil,
}
use core_desk.Common.{Text, ErrorCode, success, void_ok}
use core_desk.Protocol.Json.{JsonLibrary}
use core_desk.Protocol.MessageTypes.{file_offer, file_finish}
use core_desk.Protocol.Frame.{Frame}
use core_desk.Protocol.Payload.Transfer.{
  FileOfferPayload, FileFinishPayload, decode_file_offer_payload, decode_file_finish_payload,
}
use core_desk.Network.Qt.{Qt, QtLaws}
use core_desk.Network.Server.{
  ReceiveState, ActiveTransfer, Connection, Server, find, has, in_world, cleanup_active_transfer,
  send_file_result,
}
use core_desk.Network.Server.Receive.{
  error_of, path_join, started, validate_offer_target, publish, complete_transfer, complete_receive,
}
use core_desk.Network.Server.Invariant.{Held, IsValid}
use core_desk.Network.Server.Paths.{path_join-part}
use core_desk.Network.Server.Calm.{Ended}
use core_desk.Network.Server.Closes.{Calm-cleanup-Ended}
use core_desk.Network.Server.Sends.{send_file_result-Calm}
use core_desk.Network.Server.Frames.{dispatch_frame-Progress}
use core_desk.Network.Server.Handlers.{
  take_offer, handle_file_offer, received, own_finish, active_finish, take_finish,
  handle_file_finish, dispatch_frame, dispatch_frames,
}
use core_desk.Network.Server.Session.Reliable.{
  IsReliable, own_part, Answers, accept_bytes, part_of_offer, offered, take_offer-reliable,
}
use core_desk.Network.Server.Session.Chunks.{
  grown, Carries, InProgress, dispatch-offer, dispatch-finish, handle_file_offer-decoded,
  handle_file_finish-decoded, dispatch_frames-reliable, target_apart, chunk-InProgress,
}

module _ {qt : Qt} (laws : QtLaws qt) (lib : JsonLibrary) (reliable : IsReliable qt) (k : ℕ)
    (c : Connection) (greeted : c.hello_complete ≡ true)
    (empty : is_nil c.write_remainder ≡ true) where
  -- The end of a transfer whose data is complete.
  finish-content :
      (offer : FileOfferPayload) (target : Text) (frame : Frame) (p : FileFinishPayload)
      (t : ActiveTransfer) (s : Server qt)
      → InProgress k c offer target s t
      → frame.type ≡ file_finish
      → decode_file_finish_payload lib frame.payload ≡ success p
      → p.transfer_id ≡ offer.transfer_id
      → t.expected_offset ≡ t.file_size
      → qt.sha256_hex t.hash ≡ t.sha256
      → qt.content (dispatch_frame qt lib k frame s).world target ≡ some t.hash
  unfolding handle_file_finish take_finish active_finish own_finish complete_receive
      complete_transfer publish
  finish-content offer target frame p t s i kind decoded id full hash =
      let h : Held qt s t = i.valid t i.active in
      let finishing : ActiveTransfer = record t { state = ReceiveState.finishing } in
      let flushed : qt.World = qt.after_flush s.world t.part_path in
      let closed : qt.World = qt.after_close flushed t.part_path in
      let moved : Server qt = record s {
        active_transfer = some finishing;
        world = qt.after_rename closed t.part_path t.target_path;
      } in
      let sent : Server qt =
        send_file_result qt lib k frame.request_id t.transfer_id true
          (error_of ErrorCode.ok_code []) moved in
      let apart : target ≢ t.part_path =
        target_apart laws lib reliable k c greeted offer target s t i in
      let there : qt.content closed t.part_path ≡ some t.hash =
        laws.content-close s.world t.part_path (qt.written s.world t.part_path)
          (laws.content-flush s.world t.part_path (reliable.flushes s.world t.part_path))
        ∙ ap (λ x. some x) h.stored in
      let free : qt.content closed t.target_path ≡ none =
        ap (λ x. qt.content closed x) i.same_target
        ∙ laws.close-KeepsOthers flushed t.part_path target apart
        ∙ laws.flush-KeepsOthers s.world t.part_path target apart
        ∙ i.absent in
      let rename : qt.renames closed t.part_path t.target_path ≡ true =
        reliable.renames closed t.part_path t.target_path t.hash there free in
      let named : text_eq p.transfer_id t.transfer_id ≡ true =
        rw (id ∙ sym i.same_id) (text_eq_refl t.transfer_id) in
      let sized : (t.expected_offset == t.file_size) ≡ true = rw full (==_refl t.file_size) in
      let hashed : text_eq (qt.sha256_hex t.hash) t.sha256 ≡ true =
        rw hash (text_eq_refl t.sha256) in
      let e1 : take_finish qt lib k frame.request_id (success p) s
          ≡ own_finish qt lib k frame.request_id p t s =
        simp (i.active, i.own, take_finish, active_finish) refl in
      let e2 : own_finish qt lib k frame.request_id p t s ≡ cleanup_active_transfer qt false sent =
        simp
          (
            named,
            h.open_state,
            sized,
            hashed,
            reliable.flushes s.world t.part_path,
            rename,
            own_finish,
            complete_receive,
            complete_transfer,
            publish,
          )
          refl in
      let e : dispatch_frame qt lib k frame s ≡ cleanup_active_transfer qt false sent =
        dispatch-finish laws lib reliable k c greeted frame s i.found kind
        ∙ handle_file_finish-decoded laws lib reliable k c greeted frame s p decoded
        ∙ e1
        ∙ e2 in
      let done : Ended qt k moved (cleanup_active_transfer qt false sent) =
        Calm-cleanup-Ended laws false i.own (
          send_file_result-Calm laws lib k frame.request_id t.transfer_id true
            (error_of ErrorCode.ok_code []) moved) in
      ap (λ x. qt.content x.world target) e
      ∙ done.others finishing refl target apart
      ∙ ap (λ x. qt.content moved.world x) (sym i.same_target)
      ∙ (laws.content-rename closed t.part_path t.target_path rename).1
      ∙ there

  -- The chunks and the finish.
  rest-content :
      (offer : FileOfferPayload) (target : Text) (last : Frame) (p : FileFinishPayload)
      → last.type ≡ file_finish
      → decode_file_finish_payload lib last.payload ≡ success p
      → p.transfer_id ≡ offer.transfer_id
      → (frames : List Frame) (bytes : Text) (t : ActiveTransfer) (s : Server qt)
      → InProgress k c offer target s t
      → Carries offer.transfer_id t.expected_offset frames bytes
      → t.expected_offset + length bytes ≡ t.file_size
      → qt.sha256_hex (t.hash ++ bytes) ≡ t.sha256
      → qt.content (dispatch_frames qt lib k (frames ++ last ∷ []) s).world target
        ≡ some (t.hash ++ bytes)
  unfolding Carries dispatch_frames
  rest-content offer target last p kind decoded id [] bytes t s i carried full hash =
      let e : t.hash ++ bytes ≡ t.hash = rw carried (append-nil t.hash) in
      let full' : t.expected_offset ≡ t.file_size = omega (arith, full, ap length carried) in
      ap (λ x. qt.content x.world target)
        (dispatch_frames-reliable laws lib reliable k c greeted last [] s i.found i.runs)
      ∙ finish-content offer target last p t s i kind decoded id full'
          (ap qt.sha256_hex (sym e) ∙ hash)
      ∙ ap (λ x. some x) (sym e)
  rest-content offer target last p kind decoded id (frame ∷ frames) bytes t s i
        (type, q, payload, same, here, rest, cut, carried) full hash =
      let fits : t.expected_offset + length q.chunk ≤ t.file_size =
        omega (arith, full, ap length cut ∙ length-append q.chunk rest) in
      let (e, i') =
        chunk-InProgress laws lib reliable k c greeted offer target frame q t s i type payload same
          here fits in
      let joined : (t.hash ++ q.chunk) ++ rest ≡ t.hash ++ bytes =
        append_assoc t.hash q.chunk rest ∙ ap (λ x. t.hash ++ x) (sym cut) in
      ap (λ x. qt.content x.world target)
        (dispatch_frames-reliable laws lib reliable k c greeted frame (frames ++ last ∷ []) s
          i.found i.runs)
      ∙ ap (λ x. qt.content (dispatch_frames qt lib k (frames ++ last ∷ []) x).world target) e
      ∙ rest-content offer target last p kind decoded id frames rest (received qt lib q t)
          (grown lib q t s) i' carried
          (omega (arith, full, ap length cut ∙ length-append q.chunk rest))
          (ap qt.sha256_hex joined ∙ hash)
      ∙ ap (λ x. some x) joined

  -- A whole session: over files that do not fail and sockets that take at once all that is written, at a
  -- valid server that runs and a connection that has completed the handshake and has nothing left to write, if the
  -- offer passes the check of its target, at whose path there is no file, and its acceptance has an
  -- encoding that fits, then after the frame of the offer, frames that carry the file in chunks of any
  -- sizes, in order, and the frame of the finish, the file is at its target with exactly the bytes that
  -- were sent, if their number and their SHA-256 are those of the offer.
  pub session-content :
      (s : Server qt) (first last : Frame) (frames : List Frame) (offer : FileOfferPayload)
      (finish : FileFinishPayload) (bytes : Text)
      → IsValid qt s
      → find k s.connections ≡ some c
      → s.terminated ≡ false
      → void_ok (validate_offer_target qt offer s) ≡ true
      → qt.content s.world (path_join s.receive_directory offer.file_name) ≡ none
      → first.type ≡ file_offer
      → decode_file_offer_payload lib first.payload ≡ success offer
      → Answers lib first.request_id offer
      → last.type ≡ file_finish
      → decode_file_finish_payload lib last.payload ≡ success finish
      → finish.transfer_id ≡ offer.transfer_id
      → Carries offer.transfer_id 0 frames bytes
      → length bytes ≡ offer.file_size
      → qt.sha256_hex bytes ≡ offer.sha256
      → qt.content
          (dispatch_frames qt lib k (first ∷ frames ++ last ∷ []) s).world
          (path_join s.receive_directory offer.file_name)
        ≡ some bytes
  unfolding handle_file_offer
  session-content s first last frames offer finish bytes v found runs ok absent kind decoded answers
        kind' decoded' id carried size hash =
      let target : Text = path_join s.receive_directory offer.file_name in
      let s1 : Server qt =
        in_world qt
          (qt.after_write (offered k first.request_id offer s).world k
            (accept_bytes qt first.request_id offer answers))
          (offered k first.request_id offer s) in
      let t : ActiveTransfer = started qt k first.request_id offer s.receive_directory in
      let e : dispatch_frame qt lib k first s ≡ s1 =
        dispatch-offer laws lib reliable k c greeted first s found kind
        ∙ handle_file_offer-decoded laws lib reliable k c greeted first s offer decoded
        ∙ take_offer-reliable lib reliable k c empty first.request_id offer s answers found ok in
      let apart : target ≢ part_of_offer offer s =
        λ same. own_part target (same ∙ path_join-part s.receive_directory offer.file_name) in
      let i : InProgress k c offer target s1 t = record {
        active = refl;
        found = found;
        runs = runs;
        own = ==_refl k;
        valid = subst (λ x. IsValid qt x) e (dispatch_frame-Progress laws lib k first s v).valid;
        same_id = refl;
        same_size = refl;
        same_hash = refl;
        same_target = refl;
        absent =
            (laws.write-KeepsFiles (offered k first.request_id offer s).world k
                (accept_bytes qt first.request_id offer answers)).0
              target
            ∙ laws.open-KeepsOthers (qt.after_remove s.world (part_of_offer offer s))
                (part_of_offer offer s) target apart
            ∙ laws.remove-KeepsOthers s.world (part_of_offer offer s) target apart
            ∙ absent;
      } in
      ap (λ x. qt.content x.world target)
        (dispatch_frames-reliable laws lib reliable k c greeted first (frames ++ last ∷ []) s found
          runs)
      ∙ ap (λ x. qt.content (dispatch_frames qt lib k (frames ++ last ∷ []) x).world target) e
      ∙ rest-content offer target last finish kind' decoded' id frames bytes t s1 i carried
          (omega (arith, size)) hash
