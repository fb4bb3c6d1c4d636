-- ===== src/Network/Server/Session/Reliable.antt =====
-- Files and sockets that do not fail, and the answer to an offer over them.
use core_desk.Base.{
  ℕ, ◌+◌, ◌-◌, ◌==◌, ltb, le→ltb, ◌≡◌, ◌≢◌, ◌≤◌, refl, ap, ◌∙◌, true, false, Bool-cases, inl, inr,
  List, [], ◌∷◌, ◌++◌, none, some, length, arith, length-append, is_nil,
}
use core_desk.Common.{Text, text, success, void_ok, void_success}
use core_desk.Protocol.Json.{JsonLibrary}
use core_desk.Protocol.MessageTypes.{file_accept, is_known_message_type}
use core_desk.Protocol.Frame.{Frame, encode, encode_bytes}
use core_desk.Protocol.Frame.Layout.{header, encode_bytes_lem}
use core_desk.Protocol.Frame.Decode.{encode-Sendable}
use core_desk.Protocol.Payload.Transfer.{FileOfferPayload, encode_file_accept_payload}
use core_desk.Network.Qt.{Qt}
use core_desk.Network.Server.{
  Connection, Server, find, has, in_world, validate_chunk_bounds, send_frame, send_encoded,
  write_frame, reply, pending_control_write_limit,
}
use core_desk.Network.Server.Receive.{
  path_join, part_suffix, started, validate_offer_target, begin_receive, open_part,
}
use core_desk.Network.Server.Handlers.{accept_offer, answer_offer, take_offer}

-- Files and sockets that do what they are told.
pub record IsReliable (qt : Qt) : Type 0 where
  pub opens : (w : qt.World) (p : Text) → qt.opens w p ≡ true
  pub writes : (w : qt.World) (p b : Text) → qt.writes_all w p b ≡ true
  pub flushes : (w : qt.World) (p : Text) → qt.flushes w p ≡ true
  pub renames :
      (w : qt.World) (old new b : Text)
      → qt.content w old ≡ some b
      → qt.content w new ≡ none
      → qt.renames w old new ≡ true
  pub drained : (w : qt.World) (k : ℕ) → qt.bytes_to_write w k ≡ 0
  pub takes : (w : qt.World) (k : ℕ) (b : Text) → qt.accepted w k b ≡ some (length b)

pub validate_chunk_bounds-fits :
    (offset size chunk : ℕ)
    → offset + chunk ≤ size
    → void_ok (validate_chunk_bounds offset size chunk) ≡ true
unfolding validate_chunk_bounds
validate_chunk_bounds-fits offset size chunk fits =
    let within : ltb size offset ≡ false = le→ltb size offset (omega (arith, fits)) in
    let room : ltb (size - offset) chunk ≡ false =
      le→ltb (size - offset) chunk (omega (arith, fits)) in
    simp (within, room, validate_chunk_bounds) refl

pub own_part : (p : Text) → p ≢ p ++ part_suffix
unfolding part_suffix text
own_part p same =
    let long : length p ≡ length p + length part_suffix =
      ap length same ∙ length-append p part_suffix in
    absurd (omega (arith, long))

pub found-has :
    (k : ℕ) (cs : List Connection) (c : Connection) → find k cs ≡ some c → has k cs ≡ true
found-has k [] c at = absurd (cc)
found-has k (x ∷ cs) c at = elim (Bool-cases (x.socket == k)) [
  | inl here ↦ simp here refl
  | inr there ↦ simp there (found-has k cs c (simp there at at))
]

-- The acceptance has an encoding that fits, with its header of 24 bytes.
pub record Answers (lib : JsonLibrary) (request_id : ℕ) (offer : FileOfferPayload) : Type 0 where
  pub payload : Text
  pub encoded :
      encode_file_accept_payload lib (record { transfer_id = offer.transfer_id; start_offset = 0 })
      ≡ success payload
  pub short : 24 + length payload ≤ pending_control_write_limit

module _ (qt : Qt) {lib : JsonLibrary} where
  -- What the socket takes.
  pub accept_bytes : (id : ℕ) (offer : FileOfferPayload) → Answers lib id offer → Text
  accept_bytes id offer a = encode_bytes (reply qt file_accept id a.payload)

  accept_bytes-encode :
      (id : ℕ) (offer : FileOfferPayload) (a : Answers lib id offer)
      → encode (reply qt file_accept id a.payload) ≡ success (accept_bytes id offer a)
  unfolding accept_bytes is_known_message_type
  accept_bytes-encode id offer a =
      encode-Sendable (reply qt file_accept id a.payload)
        (record { known = refl; small = omega (arith, a.short) })

  length-accept_bytes :
      (id : ℕ) (offer : FileOfferPayload) (a : Answers lib id offer)
      → length (accept_bytes id offer a) ≤ pending_control_write_limit
  unfolding accept_bytes
  length-accept_bytes id offer a =
      let f : Frame = reply qt file_accept id a.payload in
      let e : length (encode_bytes f) ≡ length (header f) + length a.payload =
        ap length (encode_bytes_lem f) ∙ length-append (header f) a.payload in
      omega (arith, e, a.short)

-- The server once it has taken an offer.
abbrev pub part_of_offer : {qt : Qt} → FileOfferPayload → Server qt → Text
part_of_offer {qt} offer s = path_join s.receive_directory (offer.file_name ++ part_suffix)

abbrev pub offered : {qt : Qt} → ℕ → ℕ → FileOfferPayload → Server qt → Server qt
offered {qt} k id offer s = record s {
  active_transfer = some (started qt k id offer s.receive_directory);
  world = qt.after_open (qt.after_remove s.world (part_of_offer offer s)) (part_of_offer offer s);
}

module _ {qt : Qt} (lib : JsonLibrary) (reliable : IsReliable qt) (k : ℕ) (c : Connection)
    (empty : is_nil c.write_remainder ≡ true) where
  send_frame-reliable :
      (f : Frame) (bytes : Text) (s : Server qt)
      → find k s.connections ≡ some c
      → encode f ≡ success bytes
      → length bytes ≤ pending_control_write_limit
      → send_frame qt k f s ≡ in_world qt (qt.after_write s.world k bytes) s
  unfolding send_frame send_encoded write_frame
  send_frame-reliable f bytes s found framed short =
      let fits : ltb (pending_control_write_limit - 0) (length bytes) ≡ false =
        le→ltb (pending_control_write_limit - 0) (length bytes) short in
      let whole : ltb (length bytes) (length bytes) ≡ false =
        le→ltb (length bytes) (length bytes) (omega arith) in
      simp
        (
          found,
          empty,
          framed,
          reliable.drained s.world k,
          fits,
          reliable.takes s.world k bytes,
          whole,
          send_frame,
          send_encoded,
          write_frame,
        )
        refl

  open_part-reliable :
      (id : ℕ) (offer : FileOfferPayload) (s : Server qt)
      → open_part qt k id offer s ≡ (offered k id offer s, void_success)
  unfolding open_part
  open_part-reliable id offer s =
      simp
        (
          reliable.opens (qt.after_remove s.world (part_of_offer offer s)) (part_of_offer offer s),
          open_part,
        )
        refl

  pub take_offer-reliable :
      (id : ℕ) (offer : FileOfferPayload) (s : Server qt) (a : Answers lib id offer)
      → find k s.connections ≡ some c
      → void_ok (validate_offer_target qt offer s) ≡ true
      → take_offer qt lib k id (success offer) s
        ≡ in_world qt
            (qt.after_write (offered k id offer s).world k (accept_bytes qt id offer a))
            (offered k id offer s)
  unfolding take_offer begin_receive answer_offer accept_offer
  take_offer-reliable id offer s a found ok =
      simp
        (
          ok,
          open_part-reliable id offer s,
          a.encoded,
          take_offer,
          begin_receive,
          answer_offer,
          accept_offer,
        )
        (send_frame-reliable (reply qt file_accept id a.payload) (accept_bytes qt id offer a)
          (offered k id offer s) found (accept_bytes-encode qt id offer a)
          (length-accept_bytes qt id offer a))
