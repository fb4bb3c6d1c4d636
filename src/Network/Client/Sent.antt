-- ===== src/Network/Client/Sent.antt =====
-- How a client comes out of `send_frame` and of the schedules.
use core_desk.Base.{
  ℕ, ◌≡◌, refl, true, false, Bool-cases, ◌⊎◌, inl, inr, not, ◌||◌, ltb, Option, none, some, length,
  is_nil, drop, arith,
}
use core_desk.Common.{Text, Error, Result, success, failure, VoidResult, void_ok, void_failure}
use core_desk.Protocol.Json.{JsonLibrary}
use core_desk.Protocol.Frame.{Frame, encode}
use core_desk.Network.Qt.{Qt}
use core_desk.Network.Client.{
  TransferState, Client, is_sending, is_idle, is_finished, is_open, is_connected,
  schedule_remainder_flush, write_result, after_write_to_socket, frame_written, send_bytes,
  send_frame,
}
use core_desk.Network.Client.Flow.{
  flushed, is_live, Greets, IsFlowing, schedule_remainder_flush-flushing,
}

pub live-unfinished : (s : TransferState) → is_live s ≡ true → is_finished s ≡ false
live-unfinished s live = ground (arith, live)

module _ {qt : Qt} (lib : JsonLibrary) where
  -- How a client comes out of `send_frame`.
  pub record Sent (c : Client qt) (r : Client qt × VoidResult) : Type 0 where
    pub same_state : r.0.transfer_state ≡ c.transfer_state
    pub same_file : r.0.send_file ≡ c.send_file
    pub same_name : r.0.node_name ≡ c.node_name
    pub flushing :
        void_ok r.1 ≡ true
        → is_connected qt r.0 ≡ true
        → is_nil r.0.write_remainder ≡ false
        → r.0.remainder_flush_scheduled ≡ true

  -- The flush of a frame that the socket has not taken.
  pub schedule_remainder_flush-IsFlowing :
      (c : Client qt)
      → Greets lib c
      → (is_sending c.transfer_state ≡ true → is_open c.send_file ≡ true)
      → is_nil c.write_remainder ≡ false
      → is_live c.transfer_state ≡ true
        ⊎ (is_connected qt c ≡ true → c.remainder_flush_scheduled ≡ true)
      → IsFlowing lib (schedule_remainder_flush qt c)
  unfolding schedule_remainder_flush
  schedule_remainder_flush-IsFlowing c greets opened full why =
      elim (Bool-cases (
        c.remainder_flush_scheduled
        || is_nil c.write_remainder
        || not (is_connected qt c)
        || is_finished c.transfer_state
        || is_idle c.transfer_state)) [
          | inr goes ↦
              simp (goes, schedule_remainder_flush)
                (record {
                  greets = greets;
                  opened = opened;
                  flushing = λ on full. refl;
                  pushing = λ sends on empty. absurd (cc);
                })
          | inl stays ↦
              simp (stays, schedule_remainder_flush)
                (record {
                  greets = greets;
                  opened = opened;
                  flushing = λ on full. elim why [
                    | inl live ↦ flushed c.remainder_flush_scheduled _ _ _ _ stays on full live
                    | inr before ↦ before on
                  ];
                  pushing = λ sends on empty. absurd (cc);
                })
        ]

  refused :
      (c : Client qt) (e : Error) → void_ok (void_failure e) ≡ false → Sent c (c, void_failure e)
  refused c e bad = record {
    same_state = refl;
    same_file = refl;
    same_name = refl;
    flushing = λ ok. absurd (cc);
  }

  rescheduled-same :
      (c : Client qt)
      → ((schedule_remainder_flush qt c).transfer_state ≡ c.transfer_state)
        × ((schedule_remainder_flush qt c).send_file ≡ c.send_file)
        × ((schedule_remainder_flush qt c).node_name ≡ c.node_name)
        × ((schedule_remainder_flush qt c).write_remainder ≡ c.write_remainder)
  unfolding schedule_remainder_flush
  rescheduled-same c =
      elim (Bool-cases (
        c.remainder_flush_scheduled
        || is_nil c.write_remainder
        || not (is_connected qt c)
        || is_finished c.transfer_state
        || is_idle c.transfer_state)) [
          | inr goes ↦ simp (goes, schedule_remainder_flush) (refl, refl, refl, refl)
          | inl stays ↦ simp (stays, schedule_remainder_flush) (refl, refl, refl, refl)
        ]

  frame_written-Sent :
      (bytes : Text) (o : Option ℕ) (c : Client qt)
      → is_live c.transfer_state ≡ true
      → is_nil c.write_remainder ≡ true
      → Sent c (frame_written qt bytes o c)
  unfolding frame_written
  frame_written-Sent bytes none c live empty = refused c _ refl
  frame_written-Sent bytes (some n) c live empty =
      let left : Client qt = record c { write_remainder = drop n bytes } in
      elim (Bool-cases (ltb n (length bytes))) [
        | inl partial ↦
            simp (partial, frame_written)
              (record {
                same_state = (rescheduled-same left).0;
                same_file = (rescheduled-same left).1;
                same_name = (rescheduled-same left).2;
                flushing = λ ok. schedule_remainder_flush-flushing lib left live;
              })
        | inr all ↦
            simp (all, frame_written)
              (record {
                same_state = refl;
                same_file = refl;
                same_name = refl;
                flushing = λ ok on full. absurd (cc);
              })
      ]

  send_bytes-Sent :
      (r : Result Text) (c : Client qt)
      → is_live c.transfer_state ≡ true
      → is_nil c.write_remainder ≡ true
      → Sent c (send_bytes qt r c)
  unfolding send_bytes
  send_bytes-Sent (failure e) c live empty = record {
    same_state = refl;
    same_file = refl;
    same_name = refl;
    flushing = λ ok on full. absurd (cc);
  }
  send_bytes-Sent (success bytes) c live empty =
      let s =
        frame_written-Sent bytes (write_result qt c bytes) (after_write_to_socket qt bytes c) live
          empty in
      record {
        same_state = s.same_state;
        same_file = s.same_file;
        same_name = s.same_name;
        flushing = s.flushing;
      }

  pub send_frame-Sent :
      (frame : Frame) (c : Client qt)
      → is_live c.transfer_state ≡ true
      → Sent c (send_frame qt frame c)
  unfolding send_frame
  send_frame-Sent frame c live = elim (Bool-cases (is_connected qt c)) [
    | inr off ↦ simp (off, send_frame) (refused c _ refl)
    | inl on ↦ elim (Bool-cases (is_nil c.write_remainder)) [
      | inr full ↦ simp (on, full, send_frame) (refused c _ refl)
      | inl empty ↦ simp (on, empty, send_frame) (send_bytes-Sent (encode frame) c live empty)
    ]
  ]
