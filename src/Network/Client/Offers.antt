-- ===== src/Network/Client/Offers.antt =====
-- The offer of a file keeps the client flowing.
use core_desk.Base.{
  ℕ, ◌==◌, ◌≡◌, refl, Bool, true, false, Bool-cases, inl, inr, not, ◌||◌, ◌&&◌, some,
}
use core_desk.Common.{Text, Result, success, failure, VoidResult, void_ok}
use core_desk.Protocol.Json.{JsonLibrary}
use core_desk.Protocol.Payload.Transfer.{FileOfferPayload}
use core_desk.Network.Qt.{Qt, SocketLaws}
use core_desk.Network.Client.{
  TransferState, OfferState, HashJob, Client, is_sending, is_offering, is_idle, closed_file,
  cleanup_transfer_file, increment,
}
use core_desk.Network.Client.Transfer.{
  cleanup_hash_worker, offer_sent, offer_encoded, send_file_offer, offer_made, offer_file, hashed,
  handle_hash_result,
}
use core_desk.Network.Client.Sent.{Sent, live-unfinished, send_frame-Sent}
use core_desk.Network.Client.Flow.{
  is_live, Greets, IsFlowing, resting, fail_transfer-still, fail_transfer-IsFlowing,
  fail_transfer-stopped, handle_error-still, handle_error-IsFlowing, IsFlowing-if, IsFlowing-either,
  world-IsFlowing,
}
use core_desk.Network.Client.Writes.{cleanup-ConnectsNone}

fresh-still :
    (s : TransferState) (stale : Bool)
    → (stale || not (is_offering s)) ≡ false
    → is_sending s ≡ false
fresh-still TransferState.offering false h = refl
fresh-still _ true h = absurd (cc)
fresh-still _ false h = absurd (cc)

module _ {qt : Qt} (lib : JsonLibrary) (laws : SocketLaws qt) where
  offer_sent-IsFlowing :
      (id : ℕ) (c : Client qt) (r : Client qt × VoidResult)
      → Greets lib c
      → is_live c.transfer_state ≡ true
      → is_sending c.transfer_state ≡ false
      → Sent lib c r
      → IsFlowing lib (offer_sent qt lib id r).0
        × (is_sending (offer_sent qt lib id r).0.transfer_state ≡ false)
  unfolding offer_sent
  offer_sent-IsFlowing id c (c', written) greets live still s =
      let greets' : Greets lib c' = rw s.same_name greets in
      let live' : is_live c'.transfer_state ≡ true = rw s.same_state live in
      let still' : is_sending c'.transfer_state ≡ false = rw s.same_state still in
      elim (Bool-cases (void_ok written)) [
        | inl ok ↦ simp (ok, offer_sent) (resting lib c' greets' still' (s.flushing ok), still')
        | inr bad ↦
            simp (bad, offer_sent)
              (
                fail_transfer-stopped lib written.error c' greets'
                    (live-unfinished c'.transfer_state live'),
                fail_transfer-still lib written.error c',
              )
      ]

  offer_encoded-IsFlowing :
      (id : Text) (r : Result Text) (c : Client qt)
      → IsFlowing lib c
      → IsFlowing lib (offer_encoded qt lib id r c).0
        × (is_sending (offer_encoded qt lib id r c).0.transfer_state ≡ false)
  unfolding offer_encoded
  offer_encoded-IsFlowing id (failure e) c v =
      (handle_error-IsFlowing lib e.message c v, handle_error-still lib e.message c)
  offer_encoded-IsFlowing id (success payload) c v =
      let c1 : Client qt = record c {
        pending_offer_request_id = c.next_request_id;
        next_request_id = increment c.next_request_id;
        pending_offer_transfer_id = id;
        transfer_state = TransferState.offering;
        offer_state = OfferState.offered;
      } in
      offer_sent-IsFlowing c.next_request_id c1 _ v.greets refl refl (send_frame-Sent lib _ c1 refl)

  pub send_file_offer-IsFlowing :
      (offer : FileOfferPayload) (c : Client qt)
      → IsFlowing lib c
      → IsFlowing lib (send_file_offer qt lib offer c).0
  unfolding send_file_offer
  send_file_offer-IsFlowing offer c v =
      elim (Bool-cases (
        not c.handshake_complete
        || not (is_idle c.transfer_state) && not (is_offering c.transfer_state))) [
          | inl refuses ↦ simp (refuses, send_file_offer) v
          | inr takes ↦
              simp (takes, send_file_offer) ((offer_encoded-IsFlowing offer.transfer_id _ c v).0)
        ]

  offer_made-IsFlowing :
      (r : Client qt × ℕ) → IsFlowing lib r.0 → IsFlowing lib (offer_made qt lib r)
  unfolding offer_made cleanup_transfer_file
  offer_made-IsFlowing (c, id) v =
      IsFlowing-if lib (id == 0)
        (resting lib (record (cleanup_transfer_file qt c) { transfer_state = TransferState.failed })
          v.greets refl
          (λ on full.
            v.flushing (cleanup-ConnectsNone lib laws c.send_file c.world c.socket on) full))
        v

  offer_file-IsFlowing :
      (job : HashJob) (sha256 : Text) (c : Client qt)
      → IsFlowing lib c
      → is_sending c.transfer_state ≡ false
      → IsFlowing lib (offer_file qt lib job sha256 c)
  unfolding offer_file
  offer_file-IsFlowing job sha256 c v still =
      let tried : qt.World = qt.after_open_to_read c.world job.path in
      let opened : qt.World = closed_file qt c.send_file tried in
      let c1 : Client qt = record c { world = tried } in
      let v1 : IsFlowing lib c1 =
        world-IsFlowing lib c tried v still (laws.open_to_read-ConnectsNone c.world job.path) in
      let c2 : Client qt = record c1 {
        send_file = some job.path;
        send_offset = 0;
        send_file_size = job.file_size;
        world = qt.after_random opened;
      } in
      let v2 : IsFlowing lib c2 = resting lib c2 v.greets still (λ on full.
        v1.flushing
          (cleanup-ConnectsNone lib laws c.send_file tried c.socket
            (laws.random-ConnectsNone opened c.socket on))
          full) in
      IsFlowing-if lib (not (qt.opens_to_read c.world job.path))
        (fail_transfer-IsFlowing lib _ c1 v1)
        (offer_made-IsFlowing _ (send_file_offer-IsFlowing _ c2 v2))

  hashed-IsFlowing :
      (job : HashJob) (r : Result Text) (c : Client qt)
      → IsFlowing lib c
      → is_sending c.transfer_state ≡ false
      → IsFlowing lib (hashed qt lib job r c)
  unfolding hashed
  hashed-IsFlowing job (failure e) c v still = fail_transfer-IsFlowing lib e c v
  hashed-IsFlowing job (success sha256) c v still = offer_file-IsFlowing job sha256 c v still

  pub handle_hash_result-IsFlowing :
      (job : HashJob) (r : Result Text) (c : Client qt)
      → IsFlowing lib c
      → IsFlowing lib (handle_hash_result qt lib job r c)
  unfolding handle_hash_result cleanup_hash_worker
  handle_hash_result-IsFlowing job r c v =
      let c1 : Client qt = record c { hash_thread = false } in
      let v1 : IsFlowing lib c1 = record {
        greets = v.greets;
        opened = v.opened;
        flushing = v.flushing;
        pushing = v.pushing;
      } in
      IsFlowing-either lib
        (not (job.generation == c.hash_generation) || not (is_offering c.transfer_state))
        (λ stale. v1) (λ fresh. hashed-IsFlowing job r c1 v1 (fresh-still c.transfer_state _ fresh))
