-- ===== src/Network/Server/Session/Chunks.antt =====
-- The chunks of a file, over files that do not fail.
use core_desk.Base.{
  ℕ, ◌+◌, ◌==◌, ==_refl, ◌≡◌, ◌≢◌, ◌≤◌, refl, sym, ap, ◌∙◌, subst, true, false, List, [], ◌∷◌, ◌++◌,
  none, some, length, text_eq, text_eq_refl,
}
use core_desk.Common.{Text, success, void_ok}
use core_desk.Protocol.Json.{JsonLibrary}
use core_desk.Protocol.Json.Fields.{throws}
use core_desk.Protocol.Json.Laws.{decode_payload-throws}
use core_desk.Protocol.MessageTypes.{file_offer, file_chunk, file_finish}
use core_desk.Protocol.Frame.{Frame}
use core_desk.Protocol.Payload.Chunk.{FileChunkPayload, decode_file_chunk_payload}
use core_desk.Protocol.Payload.Transfer.{
  FileOfferPayload, FileFinishPayload, decode_file_offer_payload, decode_file_finish_payload,
}
use core_desk.Network.Qt.{Qt, QtLaws}
use core_desk.Network.Server.{ActiveTransfer, Connection, Server, find, has, validate_chunk_bounds}
use core_desk.Network.Server.Receive.{part_suffix, is_open}
use core_desk.Network.Server.Invariant.{Held, IsValid}
use core_desk.Network.Server.Frames.{dispatch_frame-Progress}
use core_desk.Network.Server.Handlers.{
  handle_file_offer, received, write_chunk, own_chunk, active_chunk, take_chunk, handle_file_chunk,
  take_offer, take_finish, handle_file_finish, dispatch_frame, dispatch_frames,
}
use core_desk.Network.Server.Session.Reliable.{
  IsReliable, validate_chunk_bounds-fits, own_part, found-has,
}

-- A chunk at the offset that is expected, and in bounds.
abbrev pub grown :
    {qt : Qt} → JsonLibrary → FileChunkPayload → ActiveTransfer → Server qt → Server qt
grown {qt} lib p t s = record s {
  active_transfer = some (received qt lib p t);
  world = qt.after_append s.world t.part_path p.chunk;
}

-- Frames that carry data in chunks, from an offset on.
unfoldable pub Carries : Text → ℕ → List Frame → Text → Type 0
Carries id offset [] bytes = bytes ≡ []
Carries id offset (frame ∷ frames) bytes =
    (frame.type ≡ file_chunk)
    × (p : FileChunkPayload) × (decode_file_chunk_payload frame.payload ≡ success p)
    × (p.transfer_id ≡ id)
    × (p.offset ≡ offset)
    × (rest : Text) × (bytes ≡ p.chunk ++ rest)
    × Carries id (offset + length p.chunk) frames rest

-- A transfer in progress, whose target is not there yet.
pub record InProgress {qt : Qt} (k : ℕ) (c : Connection) (offer : FileOfferPayload) (target : Text)
    (s : Server qt) (t : ActiveTransfer) : Type 0 where
  pub active : s.active_transfer ≡ some t
  pub found : find k s.connections ≡ some c
  pub runs : s.terminated ≡ false
  pub own : (t.socket == k) ≡ true
  pub valid : IsValid qt s
  pub same_id : t.transfer_id ≡ offer.transfer_id
  pub same_size : t.file_size ≡ offer.file_size
  pub same_hash : t.sha256 ≡ offer.sha256
  pub same_target : t.target_path ≡ target
  pub absent : qt.content s.world target ≡ none

module _ {qt : Qt} (laws : QtLaws qt) (lib : JsonLibrary) (reliable : IsReliable qt) (k : ℕ)
    (c : Connection) (greeted : c.hello_complete ≡ true) where
  pub dispatch-offer :
      (frame : Frame) (s : Server qt)
      → find k s.connections ≡ some c
      → frame.type ≡ file_offer
      → dispatch_frame qt lib k frame s ≡ handle_file_offer qt lib k frame s
  unfolding dispatch_frame
  dispatch-offer frame s found kind = simp (found, greeted, kind, dispatch_frame) refl

  dispatch-chunk :
      (frame : Frame) (s : Server qt)
      → find k s.connections ≡ some c
      → frame.type ≡ file_chunk
      → dispatch_frame qt lib k frame s ≡ handle_file_chunk qt lib k frame s
  unfolding dispatch_frame
  dispatch-chunk frame s found kind = simp (found, greeted, kind, dispatch_frame) refl

  pub dispatch-finish :
      (frame : Frame) (s : Server qt)
      → find k s.connections ≡ some c
      → frame.type ≡ file_finish
      → dispatch_frame qt lib k frame s ≡ handle_file_finish qt lib k frame s
  unfolding dispatch_frame
  dispatch-finish frame s found kind = simp (found, greeted, kind, dispatch_frame) refl

  -- An offer or a finish that was decoded.
  pub handle_file_offer-decoded :
      (frame : Frame) (s : Server qt) (offer : FileOfferPayload)
      → decode_file_offer_payload lib frame.payload ≡ success offer
      → handle_file_offer qt lib k frame s ≡ take_offer qt lib k frame.request_id (success offer) s
  unfolding handle_file_offer decode_file_offer_payload
  handle_file_offer-decoded frame s offer decoded =
      let parses : throws lib frame.payload ≡ false =
        decode_payload-throws lib frame.payload _ decoded in
      let e : handle_file_offer qt lib k frame s
          ≡ take_offer qt lib k frame.request_id (decode_file_offer_payload lib frame.payload) s =
        simp (parses, handle_file_offer) refl in
      e ∙ ap (λ r. take_offer qt lib k frame.request_id r s) decoded

  pub handle_file_finish-decoded :
      (frame : Frame) (s : Server qt) (p : FileFinishPayload)
      → decode_file_finish_payload lib frame.payload ≡ success p
      → handle_file_finish qt lib k frame s ≡ take_finish qt lib k frame.request_id (success p) s
  unfolding handle_file_finish decode_file_finish_payload
  handle_file_finish-decoded frame s p decoded =
      let parses : throws lib frame.payload ≡ false =
        decode_payload-throws lib frame.payload _ decoded in
      let e : handle_file_finish qt lib k frame s
          ≡ take_finish qt lib k frame.request_id (decode_file_finish_payload lib frame.payload) s =
        simp (parses, handle_file_finish) refl in
      e ∙ ap (λ r. take_finish qt lib k frame.request_id r s) decoded

  pub dispatch_frames-reliable :
      (frame : Frame) (frames : List Frame) (s : Server qt)
      → find k s.connections ≡ some c
      → s.terminated ≡ false
      → dispatch_frames qt lib k (frame ∷ frames) s
        ≡ dispatch_frames qt lib k frames (dispatch_frame qt lib k frame s)
  unfolding dispatch_frames
  dispatch_frames-reliable frame frames s found runs =
      let here : has k s.connections ≡ true = found-has k s.connections c found in
      simp (here, runs, dispatch_frames) refl

  take_chunk-reliable :
      (id : ℕ) (p : FileChunkPayload) (t : ActiveTransfer) (s : Server qt)
      → s.active_transfer ≡ some t
      → (t.socket == k) ≡ true
      → is_open t.state ≡ true
      → p.transfer_id ≡ t.transfer_id
      → p.offset ≡ t.expected_offset
      → t.expected_offset + length p.chunk ≤ t.file_size
      → take_chunk qt lib k id (success p) s ≡ grown lib p t s
  unfolding take_chunk active_chunk own_chunk write_chunk
  take_chunk-reliable id p t s active own opened same here fits =
      let named : text_eq p.transfer_id t.transfer_id ≡ true =
        rw same (text_eq_refl t.transfer_id) in
      let placed : (p.offset == t.expected_offset) ≡ true = rw here (==_refl t.expected_offset) in
      let bounded : void_ok (validate_chunk_bounds t.expected_offset t.file_size (length p.chunk))
          ≡ true =
        validate_chunk_bounds-fits t.expected_offset t.file_size (length p.chunk) fits in
      simp
        (
          active,
          own,
          opened,
          named,
          placed,
          bounded,
          reliable.writes s.world t.part_path p.chunk,
          take_chunk,
          active_chunk,
          own_chunk,
          write_chunk,
        )
        refl

  pub target_apart :
      (offer : FileOfferPayload) (target : Text) (s : Server qt) (t : ActiveTransfer)
      → InProgress k c offer target s t
      → target ≢ t.part_path
  target_apart offer target s t i same =
      own_part target (same ∙ (i.valid t i.active).named ∙ ap (λ x. x ++ part_suffix) i.same_target)

  -- One chunk more.
  pub chunk-InProgress :
      (offer : FileOfferPayload) (target : Text) (frame : Frame) (p : FileChunkPayload)
      (t : ActiveTransfer) (s : Server qt)
      → InProgress k c offer target s t
      → frame.type ≡ file_chunk
      → decode_file_chunk_payload frame.payload ≡ success p
      → p.transfer_id ≡ offer.transfer_id
      → p.offset ≡ t.expected_offset
      → t.expected_offset + length p.chunk ≤ t.file_size
      → (dispatch_frame qt lib k frame s ≡ grown lib p t s)
        × InProgress k c offer target (grown lib p t s) (received qt lib p t)
  unfolding handle_file_chunk
  chunk-InProgress offer target frame p t s i kind decoded id here fits =
      let h : Held qt s t = i.valid t i.active in
      let e : dispatch_frame qt lib k frame s ≡ grown lib p t s =
        dispatch-chunk frame s i.found kind
        ∙ ap (λ r. take_chunk qt lib k frame.request_id r s) decoded
        ∙ take_chunk-reliable frame.request_id p t s i.active i.own h.open_state
            (id ∙ sym i.same_id) here fits in
      (
        e,
        record {
          active = refl;
          found = i.found;
          runs = i.runs;
          own = i.own;
          valid =
              subst (λ x. IsValid qt x) e
                (dispatch_frame-Progress laws lib k frame s i.valid).valid;
          same_id = i.same_id;
          same_size = i.same_size;
          same_hash = i.same_hash;
          same_target = i.same_target;
          absent =
              laws.append-KeepsOthers s.world t.part_path p.chunk target
                (target_apart offer target s t i)
              ∙ i.absent;
        },
      )
