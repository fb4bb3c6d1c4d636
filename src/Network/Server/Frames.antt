-- ===== src/Network/Server/Frames.antt =====
-- The handlers of `FileChunk` and `FileFinish`, and which handler a frame has.
use core_desk.Base.{
  ℕ, ◌+◌, ◌-◌, ◌==◌, ltb, ltb→le, ◌≡◌, ◌≤◌, refl, sym, ap, ◌∙◌, subst, Bool, true, false,
  Bool-cases, inl, inr, ◌&&◌, if◌then◌else◌, ◌++◌, Option, none, some, length, text_eq,
  Option-cases, arith, length-append,
}
use mathlib.Core.Option.{some-injective}
use core_desk.Common.{Text, text, ErrorCode, Error, Result, success, failure, VoidResult, void_ok}
use core_desk.Protocol.Json.{JsonLibrary}
use core_desk.Protocol.Json.Fields.{throws}
use core_desk.Protocol.MessageTypes.{hello, file_offer, file_chunk, file_finish}
use core_desk.Protocol.Frame.{Frame}
use core_desk.Protocol.Payload.Chunk.{FileChunkPayload, decode_file_chunk_payload}
use core_desk.Protocol.Payload.Transfer.{
  FileFinishPayload, decode_file_offer_payload, decode_file_finish_payload,
}
use core_desk.Network.Qt.{Qt, QtLaws}
use core_desk.Network.Server.{
  ActiveTransfer, Server, find, validate_chunk_bounds, unknown_transfer_id, in_world, owns,
}
use core_desk.Network.Server.Receive.{fail_receive, error_of, is_open, complete_receive}
use core_desk.Network.Server.Handlers.{
  handle_file_offer, refuse_payload, active_chunk, active_finish, received, write_chunk, own_chunk,
  take_chunk, handle_file_chunk, own_finish, take_finish, handle_file_finish, dispatch_frame,
}
use core_desk.Network.Server.Offers.{
  found-is_ready, terminate-Calm, handle_hello-Calm, take_offer-Progress,
}
use core_desk.Network.Server.Paths.{not_part_of}
use core_desk.Network.Server.Calm.{is_ready, Calm, Calm-refl}
use core_desk.Network.Server.Closes.{close_protocol_error-Calm}
use core_desk.Network.Server.Invariant.{Held, IsValid, Progress, Calm-Progress}
use core_desk.Network.Server.Delivery.{
  fail_receive-Ended, reject_connection_receive-Calm, fail_receive-Progress,
  complete_transfer-Progress,
}

module _ {qt : Qt} (laws : QtLaws qt) (lib : JsonLibrary) where
  refuse_payload-Calm :
      (k request_id : ℕ) (e : Error) (s : Server qt)
      → Calm qt k s (refuse_payload qt lib k request_id e s)
  unfolding refuse_payload
  refuse_payload-Calm k request_id e s = elim (Bool-cases (owns qt k s.active_transfer)) [
    | inl own ↦
        simp (own, refuse_payload) (Calm.ended (fail_receive-Ended laws lib k request_id e s own))
    | inr other ↦
        simp (other, refuse_payload)
          (reject_connection_receive-Calm laws lib k request_id unknown_transfer_id e s)
  ]

  -- A chunk that is in bounds leaves the offset in bounds.
  pub validate_chunk_bounds-ok :
      (expected_offset file_size chunk_size : ℕ)
      → void_ok (validate_chunk_bounds expected_offset file_size chunk_size) ≡ true
      → expected_offset + chunk_size ≤ file_size
  unfolding validate_chunk_bounds
  validate_chunk_bounds-ok o n c ok = elim (Bool-cases (ltb n o)) [
    | inl beyond ↦
        absurd (let bad : false ≡ true = simp (beyond, validate_chunk_bounds) at ok in cc)
    | inr within ↦ elim (Bool-cases (ltb (n - o) c)) [
      | inl long ↦
          absurd (let bad : false ≡ true = simp (within, long, validate_chunk_bounds) at ok in cc)
      | inr fits ↦ omega (arith, ltb→le n o within, ltb→le (n - o) c fits)
    ]
  ]

  module _ (k request_id : ℕ) (s : Server qt) (t : ActiveTransfer) (valid : IsValid qt s)
      (active : s.active_transfer ≡ some t) (own : (t.socket == k) ≡ true) where
    failed : (e : Error) → Progress qt k s (fail_receive qt lib k request_id e s)
    failed e =
        fail_receive-Progress laws lib k request_id s t valid active own t s e active (refl, refl)
          (λ p apart. refl)

    abbrev appended : Text → qt.World
    appended bytes = qt.after_append s.world t.part_path bytes

    abbrev grown : FileChunkPayload → Server qt
    grown p = record s { active_transfer = some (received qt lib p t); world = appended p.chunk }

    received-Held :
        (p : FileChunkPayload)
        → t.expected_offset + length p.chunk ≤ t.file_size
        → qt.writes_all s.world t.part_path p.chunk ≡ true
        → Held qt (grown p) (received qt lib p t)
    received-Held p fits writes =
        let h : Held qt s t = valid t active in
        record {
          ready = h.ready;
          open_state = refl;
          named = h.named;
          stored =
              laws.written-append s.world t.part_path p.chunk writes
              ∙ ap (λ x. x ++ p.chunk) h.stored;
          counted = length-append t.hash p.chunk ∙ ap (λ n. n + length p.chunk) h.counted;
          bounded = fits;
        }

    received-Progress :
        (p : FileChunkPayload)
        → t.expected_offset + length p.chunk ≤ t.file_size
        → qt.writes_all s.world t.part_path p.chunk ≡ true
        → Progress qt k s (grown p)
    received-Progress p fits writes = record {
      valid = λ u at.
          subst (λ u. Held qt (grown p) u) (some-injective _ u at) (received-Held p fits writes);
      files = λ q off. inl (
          laws.append-KeepsOthers s.world t.part_path p.chunk q
            (not_part_of q t.target_path t.part_path off (valid t active).named));
      isolated = λ u at other.
          let owned : owns qt k (some u) ≡ true =
            subst (λ o. owns qt k o ≡ true) (sym active ∙ at) own in
          absurd (cc);
    }

    write_chunk-Progress :
        (p : FileChunkPayload) → Progress qt k s (write_chunk qt lib k request_id p t s)
    unfolding write_chunk
    write_chunk-Progress p =
        let bounds : VoidResult =
          validate_chunk_bounds t.expected_offset t.file_size (length p.chunk) in
        elim (Bool-cases (void_ok bounds)) [
          | inr outside ↦ simp (outside, write_chunk) (failed bounds.error)
          | inl inside ↦
              let fits =
                validate_chunk_bounds-ok t.expected_offset t.file_size (length p.chunk) inside in
              elim (Bool-cases (qt.writes_all s.world t.part_path p.chunk)) [
                | inl writes ↦ simp (inside, writes, write_chunk) (received-Progress p fits writes)
                | inr fails ↦
                    simp (inside, fails, write_chunk)
                      (fail_receive-Progress laws lib k request_id s t valid active own t
                        (in_world qt (appended p.chunk) s)
                        (error_of ErrorCode.io_error (text "failed to write chunk")) active
                        (refl, refl) (laws.append-KeepsOthers s.world t.part_path p.chunk))
              ]
        ]

    own_chunk-Progress :
        (p : FileChunkPayload) → Progress qt k s (own_chunk qt lib k request_id p t s)
    unfolding own_chunk
    own_chunk-Progress p =
        elim (Bool-cases (text_eq p.transfer_id t.transfer_id && is_open t.state)) [
          | inr wrong ↦ simp (wrong, own_chunk) (failed _)
          | inl right ↦ elim (Bool-cases (p.offset == t.expected_offset)) [
            | inr elsewhere ↦ simp (right, elsewhere, own_chunk) (failed _)
            | inl here ↦ simp (right, here, own_chunk) (write_chunk-Progress p)
          ]
        ]

    own_finish-Progress :
        (p : FileFinishPayload) → Progress qt k s (own_finish qt lib k request_id p t s)
    unfolding own_finish
    own_finish-Progress p =
        elim (Bool-cases (text_eq p.transfer_id t.transfer_id && is_open t.state)) [
          | inr wrong ↦ simp (wrong, own_finish) (failed _)
          | inl right ↦
              simp (right, own_finish, complete_receive)
                (complete_transfer-Progress laws lib k request_id s t valid active own)
        ]

  active_chunk-Progress :
      (k request_id : ℕ) (p : FileChunkPayload) (o : Option ActiveTransfer) (s : Server qt)
      → IsValid qt s
      → s.active_transfer ≡ o
      → Progress qt k s (active_chunk qt lib k request_id p o s)
  unfolding active_chunk
  active_chunk-Progress k request_id p none s v at =
      Calm-Progress qt v (reject_connection_receive-Calm laws lib k request_id p.transfer_id _ s)
  active_chunk-Progress k request_id p (some t) s v at = elim (Bool-cases (t.socket == k)) [
    | inl own ↦ simp (own, active_chunk) (own_chunk-Progress k request_id s t v at own p)
    | inr other ↦
        simp (other, active_chunk)
          (Calm-Progress qt v
            (reject_connection_receive-Calm laws lib k request_id p.transfer_id _ s))
  ]

  take_chunk-Progress :
      (k request_id : ℕ) (r : Result FileChunkPayload) (s : Server qt)
      → IsValid qt s
      → Progress qt k s (take_chunk qt lib k request_id r s)
  unfolding take_chunk
  take_chunk-Progress k request_id (failure e) s v =
      Calm-Progress qt v (refuse_payload-Calm k request_id e s)
  take_chunk-Progress k request_id (success p) s v =
      active_chunk-Progress k request_id p s.active_transfer s v refl

  active_finish-Progress :
      (k request_id : ℕ) (p : FileFinishPayload) (o : Option ActiveTransfer) (s : Server qt)
      → IsValid qt s
      → s.active_transfer ≡ o
      → Progress qt k s (active_finish qt lib k request_id p o s)
  unfolding active_finish
  active_finish-Progress k request_id p none s v at =
      Calm-Progress qt v (reject_connection_receive-Calm laws lib k request_id p.transfer_id _ s)
  active_finish-Progress k request_id p (some t) s v at = elim (Bool-cases (t.socket == k)) [
    | inl own ↦ simp (own, active_finish) (own_finish-Progress k request_id s t v at own p)
    | inr other ↦
        simp (other, active_finish)
          (Calm-Progress qt v
            (reject_connection_receive-Calm laws lib k request_id p.transfer_id _ s))
  ]

  take_finish-Progress :
      (k request_id : ℕ) (r : Result FileFinishPayload) (s : Server qt)
      → IsValid qt s
      → Progress qt k s (take_finish qt lib k request_id r s)
  unfolding take_finish
  take_finish-Progress k request_id (failure e) s v =
      Calm-Progress qt v (refuse_payload-Calm k request_id e s)
  take_finish-Progress k request_id (success p) s v =
      active_finish-Progress k request_id p s.active_transfer s v refl

  Progress-if :
      {k : ℕ} {s x y : Server qt} (b : Bool)
      → Progress qt k s x
      → Progress qt k s y
      → Progress qt k s (if b then x else y)
  Progress-if true a b = a
  Progress-if false a b = b

  -- What the handler of one frame does.
  pub dispatch_frame-Progress :
      (k : ℕ) (frame : Frame) (s : Server qt)
      → IsValid qt s
      → Progress qt k s (dispatch_frame qt lib k frame s)
  unfolding dispatch_frame handle_file_offer handle_file_chunk handle_file_finish
  dispatch_frame-Progress k frame s v =
      let closed : Progress qt k s _ = Calm-Progress qt v (close_protocol_error-Calm laws k s) in
      let ended : Progress qt k s _ = Calm-Progress qt v (terminate-Calm laws lib k s) in
      elim (Option-cases (find k s.connections)) [
        | inl unknown ↦ simp (unknown, dispatch_frame) (Calm-Progress qt v (Calm-refl qt s))
        | inr (c, found) ↦ elim (Bool-cases c.hello_complete) [
          | inr waits ↦
              simp (found, waits, dispatch_frame)
                (Progress-if (frame.type == hello)
                  (Calm-Progress qt v (handle_hello-Calm laws lib k frame s)) closed)
          | inl greeted ↦
              let ready : is_ready k s.connections ≡ true =
                found-is_ready k s.connections c found ∙ greeted in
              let id = frame.request_id in
              simp (found, greeted, dispatch_frame)
                (Progress-if (frame.type == hello)
                  (Calm-Progress qt v (handle_hello-Calm laws lib k frame s))
                  (Progress-if (frame.type == file_offer)
                    (Progress-if (throws lib frame.payload) ended (
                      take_offer-Progress laws lib k id
                        (decode_file_offer_payload lib frame.payload) s v ready))
                    (Progress-if (frame.type == file_chunk)
                      (take_chunk-Progress k id (decode_file_chunk_payload frame.payload) s v)
                      (Progress-if (frame.type == file_finish)
                        (Progress-if (throws lib frame.payload) ended (
                          take_finish-Progress k id (decode_file_finish_payload lib frame.payload) s
                            v))
                        closed))))
        ]
      ]
