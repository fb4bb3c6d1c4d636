-- ===== src/Network/Server/Offers.antt =====
-- The handlers of `Hello` and of `FileOffer`.
use core_desk.Base.{
  ℕ, ◌==◌, ◌≡◌, ◌≢◌, refl, ap, ◌∙◌, subst, Bool, true, false, Bool-cases, inl, inr, List, [], ◌∷◌,
  ◌++◌, Option, none, some, Option-cases, arith,
}
use mathlib.Core.Option.{some-injective}
use core_desk.Common.{Text, Result, success, failure, VoidResult, void_ok}
use core_desk.Protocol.Json.{JsonLibrary}
use core_desk.Protocol.Json.Fields.{throws}
use core_desk.Protocol.MessageTypes.{hello_ack}
use core_desk.Protocol.Frame.{Frame}
use core_desk.Protocol.Payload.Handshake.{HelloPayload, decode_hello_payload}
use core_desk.Protocol.Payload.Transfer.{FileOfferPayload}
use core_desk.Network.Qt.{Qt, QtLaws}
use core_desk.Network.Server.{ActiveTransfer, Connection, Server, find, unknown_transfer_id, reply}
use core_desk.Network.Server.Receive.{
  part_suffix, path_join, started, validate_offer_target, open_part,
}
use core_desk.Network.Server.Handlers.{
  terminate, acknowledge, answer_hello, handle_hello, accept_offer, answer_offer, take_offer,
}
use core_desk.Network.Server.Paths.{is_part_path, path_join-part, not_part_of}
use core_desk.Network.Server.Calm.{is_ready, Calm, Calm-trans, Calm-update}
use core_desk.Network.Server.Closes.{Calm-if, close_protocol_error-Calm}
use core_desk.Network.Server.Sends.{send_frame-Calm, send_file_reject-Calm}
use core_desk.Network.Server.Invariant.{Held, IsValid, Progress, Calm-Progress, Progress-Calm}

-- A found connection says whether its socket is ready.
pub found-is_ready :
    (k : ℕ) (cs : List Connection) (c : Connection)
    → find k cs ≡ some c
    → is_ready k cs ≡ c.hello_complete
found-is_ready k [] c at = absurd (cc)
found-is_ready k (x ∷ cs) c at = elim (Bool-cases (x.socket == k)) [
  | inl here ↦ simp here (ap hello_of (simp here at at))
  | inr there ↦ simp there (found-is_ready k cs c (simp there at at))
]
  where
    hello_of : Option Connection → Bool
    hello_of none = false
    hello_of (some c) = c.hello_complete

module _ {qt : Qt} (laws : QtLaws qt) (lib : JsonLibrary) where
  pub terminate-Calm : (k : ℕ) (s : Server qt) → Calm qt k s (terminate qt lib s)
  terminate-Calm k s =
      Calm.carried (record { same = refl; files = ((λ p. refl), (λ p. refl)); ready = λ t at h. h })

  acknowledge-Calm :
      (k request_id : ℕ) (r : Result Text) (s : Server qt)
      → Calm qt k s (acknowledge qt lib k request_id r s)
  unfolding acknowledge
  acknowledge-Calm k request_id (failure e) s = close_protocol_error-Calm laws k s
  acknowledge-Calm k request_id (success payload) s =
      Calm-trans qt
        (Calm-update qt k (λ c. record c { hello_complete = true }) s (λ c. (refl, λ h. refl)))
        (send_frame-Calm laws k (reply qt hello_ack request_id payload) _)

  answer_hello-Calm :
      (k request_id : ℕ) (r : Result HelloPayload) (s : Server qt)
      → Calm qt k s (answer_hello qt lib k request_id r s)
  unfolding answer_hello
  answer_hello-Calm k request_id (failure e) s = close_protocol_error-Calm laws k s
  answer_hello-Calm k request_id (success p) s = acknowledge-Calm k request_id _ s

  pub handle_hello-Calm :
      (k : ℕ) (frame : Frame) (s : Server qt) → Calm qt k s (handle_hello qt lib k frame s)
  unfolding handle_hello
  handle_hello-Calm k frame s = elim (Option-cases (find k s.connections)) [
    | inl unknown ↦ simp (unknown, handle_hello) (close_protocol_error-Calm laws k s)
    | inr (c, found) ↦
        simp (found, handle_hello)
          (Calm-if laws c.hello_complete (close_protocol_error-Calm laws k s) (
            Calm-if laws (throws lib frame.payload) (terminate-Calm k s)
              (answer_hello-Calm k frame.request_id (decode_hello_payload lib frame.payload) s)))
  ]

  accept_offer-Calm :
      (k request_id : ℕ) (r : Result Text) (s : Server qt)
      → Calm qt k s (accept_offer qt lib k request_id r s)
  unfolding accept_offer
  accept_offer-Calm k request_id (failure e) s = close_protocol_error-Calm laws k s
  accept_offer-Calm k request_id (success payload) s = send_frame-Calm laws k _ s

  answer_offer-Calm :
      (k request_id : ℕ) (offer : FileOfferPayload) (s : Server qt) (ready : VoidResult)
      → Calm qt k s (answer_offer qt lib k request_id offer (s, ready))
  unfolding answer_offer
  answer_offer-Calm k request_id offer s ready =
      Calm-if laws (void_ok ready) (accept_offer-Calm k request_id _ s)
        (send_file_reject-Calm laws lib k request_id offer.transfer_id ready.error s)

  pub validate_offer_target-free :
      (offer : FileOfferPayload) (s : Server qt)
      → void_ok (validate_offer_target qt offer s) ≡ true
      → s.active_transfer ≡ none
  unfolding validate_offer_target
  validate_offer_target-free offer s ok = elim (Option-cases s.active_transfer) [
    | inl free ↦ free
    | inr (t, at) ↦ absurd (let bad : false ≡ true = simp (at, validate_offer_target) at ok in cc)
  ]

  module _ (k request_id : ℕ) (offer : FileOfferPayload) (s : Server qt)
      (free : s.active_transfer ≡ none) (ready : is_ready k s.connections ≡ true) where
    abbrev part : Text
    part = path_join s.receive_directory (offer.file_name ++ part_suffix)

    abbrev opened : qt.World
    opened = qt.after_open (qt.after_remove s.world part) part

    opened-files : (p : Text) → is_part_path p ≡ false → qt.content opened p ≡ qt.content s.world p
    opened-files p off =
        let apart : p ≢ part =
          not_part_of p (path_join s.receive_directory offer.file_name) part off
            (path_join-part s.receive_directory offer.file_name) in
        laws.open-KeepsOthers (qt.after_remove s.world part) part p apart
        ∙ laws.remove-KeepsOthers s.world part p apart

    started-Held :
        qt.opens (qt.after_remove s.world part) part ≡ true
        → (t : ActiveTransfer) → some (started qt k request_id offer s.receive_directory) ≡ some t
        → Held qt
            (record s {
              active_transfer = some (started qt k request_id offer s.receive_directory);
              world = opened;
            })
            t
    started-Held opens t at =
        subst
          (λ t.
            Held qt
              (record s {
                active_transfer = some (started qt k request_id offer s.receive_directory);
                world = opened;
              })
              t)
          (some-injective _ t at)
          (record {
            ready = ready;
            open_state = refl;
            named = path_join-part s.receive_directory offer.file_name;
            stored = laws.written-open (qt.after_remove s.world part) part opens;
            counted = refl;
            bounded = omega arith;
          })

    pub open_part-Progress : Progress qt k s (open_part qt k request_id offer s).0
    unfolding open_part
    open_part-Progress = elim (Bool-cases (qt.opens (qt.after_remove s.world part) part)) [
      | inl opens ↦
          simp (opens, open_part)
            (record {
              valid = started-Held opens;
              files = λ p off. inl (opened-files p off);
              isolated = λ t at other. absurd (cc);
            })
      | inr fails ↦
          simp (fails, open_part)
            (record {
              valid = λ t at. absurd (cc);
              files = λ p off. inl (opened-files p off);
              isolated = λ t at other. absurd (cc);
            })
    ]

  pub take_offer-Progress :
      (k request_id : ℕ) (r : Result FileOfferPayload) (s : Server qt)
      → IsValid qt s
      → is_ready k s.connections ≡ true
      → Progress qt k s (take_offer qt lib k request_id r s)
  unfolding take_offer
  take_offer-Progress k request_id (failure e) s v ready =
      Calm-Progress qt v (send_file_reject-Calm laws lib k request_id unknown_transfer_id e s)
  take_offer-Progress k request_id (success offer) s v ready =
      elim (Bool-cases (void_ok (validate_offer_target qt offer s))) [
        | inr refused ↦
            simp (refused, take_offer)
              (Calm-Progress qt v
                (send_file_reject-Calm laws lib k request_id offer.transfer_id _ s))
        | inl ok ↦
            simp (ok, take_offer)
              (Progress-Calm qt
                (open_part-Progress k request_id offer s (validate_offer_target-free offer s ok)
                  ready)
                (answer_offer-Calm k request_id offer (open_part qt k request_id offer s).0
                  (open_part qt k request_id offer s).1))
      ]
