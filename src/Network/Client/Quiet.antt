-- ===== src/Network/Client/Quiet.antt =====
-- What leaves the state of the transfer and the reports as they are: the calls of a client whose transfer is over.
use core_desk.Base.{
  ℕ, ◌+◌, ◌≡◌, refl, ap, ◌∙◌, Bool, true, false, not, ◌||◌, if◌then◌else◌, List, [], ◌∷◌, ◌++◌,
  is_nil, ltb, arith,
}
use core_desk.Common.{Text, Error}
use core_desk.Protocol.Json.{JsonLibrary}
use core_desk.Network.Qt.{Qt}
use core_desk.Network.Client.{
  TransferState, Notice, Client, is_sending, is_idle, is_offering, is_finished, is_hello_sent,
  is_active, is_connected, total_pending_write_bytes, pending_write_high_water_mark,
  cleanup_transfer_file, fail_transfer, handle_error, handle_disconnected, abort, disconnect_socket,
  schedule_send_pump, schedule_remainder_flush,
}
use core_desk.Network.Client.Transfer.{flush_write_remainder}
use core_desk.Network.Client.Handlers.{Event}

-- The notices that tell of a transfer: all but `disconnected`.
abbrev pub reports : List Notice → ℕ
reports [] = 0
reports (Notice.disconnected_notice ∷ ns) = reports ns
reports (n ∷ ns) = 1 + reports ns

-- The events other than a call that starts anew: `connect_to_host` with the connection that follows,
-- `disconnect_from_host` and `send_file`.
abbrev pub is_aftermath : {qt : Qt} {lib : JsonLibrary} → Event qt lib → Bool
is_aftermath (Event.connect_event host port) = false
is_aftermath Event.disconnect_event = false
is_aftermath (Event.send_file_event path) = false
is_aftermath (Event.connected_event w) = false
is_aftermath _ = true

reports-disconnected :
    (ns : List Notice) → reports (ns ++ Notice.disconnected_notice ∷ []) ≡ reports ns
reports-disconnected [] = refl
reports-disconnected (Notice.disconnected_notice ∷ ns) = reports-disconnected ns
reports-disconnected (Notice.handshake_notice ∷ ns) = ap (λ n. 1 + n) (reports-disconnected ns)
reports-disconnected (Notice.accept_notice i p ∷ ns) = ap (λ n. 1 + n) (reports-disconnected ns)
reports-disconnected (Notice.reject_notice i p ∷ ns) = ap (λ n. 1 + n) (reports-disconnected ns)
reports-disconnected (Notice.result_notice i p ∷ ns) = ap (λ n. 1 + n) (reports-disconnected ns)
reports-disconnected (Notice.error_notice e ∷ ns) = ap (λ n. 1 + n) (reports-disconnected ns)

-- What a finished state is not.
pub record Over (s : TransferState) : Type 0 where
  pub inactive : is_active s ≡ false
  pub not_idle : is_idle s ≡ false
  pub not_offering : is_offering s ≡ false
  pub not_sending : is_sending s ≡ false
  pub not_hello_sent : is_hello_sent s ≡ false

pub finished-Over : (s : TransferState) → is_finished s ≡ true → Over s
finished-Over TransferState.completed h = record {
  inactive = refl;
  not_idle = refl;
  not_offering = refl;
  not_sending = refl;
  not_hello_sent = refl;
}
finished-Over TransferState.failed h = record {
  inactive = refl;
  not_idle = refl;
  not_offering = refl;
  not_sending = refl;
  not_hello_sent = refl;
}
finished-Over _ h = absurd (cc)

module _ {qt : Qt} where
  -- The state of the transfer and the reports are as they were.
  pub record Silent (c c' : Client qt) : Type 0 where
    pub same_state : c'.transfer_state ≡ c.transfer_state
    pub same_reports : reports c'.notices ≡ reports c.notices

  pub Silent-refl : (c : Client qt) → Silent c c
  Silent-refl c = record { same_state = refl; same_reports = refl }

  pub Silent-trans : {c c' c'' : Client qt} → Silent c c' → Silent c' c'' → Silent c c''
  Silent-trans a b = record {
    same_state = b.same_state ∙ a.same_state;
    same_reports = b.same_reports ∙ a.same_reports;
  }

  pub Silent-either :
      {c x y : Client qt} (b : Bool)
      → (b ≡ true → Silent c x)
      → (b ≡ false → Silent c y)
      → Silent c (if b then x else y)
  Silent-either true a b = a refl
  Silent-either false a b = b refl

  pub fail_transfer-same :
      (e : Error) (c : Client qt) → is_finished c.transfer_state ≡ true → fail_transfer qt e c ≡ c
  unfolding fail_transfer
  fail_transfer-same e c over = simp (over, fail_transfer) refl

  pub handle_error-same :
      (m : Text) (c : Client qt) → is_finished c.transfer_state ≡ true → handle_error qt m c ≡ c
  unfolding handle_error
  handle_error-same m c over = simp (over, handle_error) refl

  pub handle_disconnected-Silent :
      (c : Client qt) → is_finished c.transfer_state ≡ true → Silent c (handle_disconnected qt c)
  unfolding handle_disconnected cleanup_transfer_file
  handle_disconnected-Silent c over = record {
    same_state = rw (finished-Over c.transfer_state over).inactive;
    same_reports = reports-disconnected c.notices;
  }

  pub abort-Silent : (c : Client qt) → is_finished c.transfer_state ≡ true → Silent c (abort qt c)
  unfolding abort
  abort-Silent c over =
      let c1 : Client qt = record c { world = qt.after_abort c.world c.socket } in
      let d : Silent c1 (handle_disconnected qt c1) = handle_disconnected-Silent c1 over in
      Silent-either (qt.aborts_now c.world c.socket)
        (λ now. record { same_state = d.same_state; same_reports = d.same_reports })
        (λ later. record { same_state = refl; same_reports = refl })

  pub disconnect_socket-Silent :
      (c : Client qt) → is_finished c.transfer_state ≡ true → Silent c (disconnect_socket qt c)
  unfolding disconnect_socket
  disconnect_socket-Silent c over =
      let c1 : Client qt = record c { world = qt.after_disconnect c.world c.socket } in
      let d : Silent c1 (handle_disconnected qt c1) = handle_disconnected-Silent c1 over in
      Silent-either (qt.disconnects_now c.world c.socket)
        (λ now. record { same_state = d.same_state; same_reports = d.same_reports })
        (λ later. record { same_state = refl; same_reports = refl })

  pub schedule_send_pump-Silent : (c : Client qt) → Silent c (schedule_send_pump qt c)
  unfolding schedule_send_pump
  schedule_send_pump-Silent c =
      Silent-either
        (c.send_pump_scheduled
          || not (is_sending c.transfer_state)
          || not (is_connected qt c)
          || not (is_nil c.write_remainder)
          || not (ltb (total_pending_write_bytes qt c) pending_write_high_water_mark))
        (λ h. Silent-refl c) (λ h. record { same_state = refl; same_reports = refl })

  pub schedule_remainder_flush-Silent : (c : Client qt) → Silent c (schedule_remainder_flush qt c)
  unfolding schedule_remainder_flush
  schedule_remainder_flush-Silent c =
      Silent-either
        (c.remainder_flush_scheduled
          || is_nil c.write_remainder
          || not (is_connected qt c)
          || is_finished c.transfer_state
          || is_idle c.transfer_state)
        (λ h. Silent-refl c) (λ h. record { same_state = refl; same_reports = refl })

  pub flush_write_remainder-Silent :
      (c : Client qt) → is_finished c.transfer_state ≡ true → Silent c (flush_write_remainder qt c)
  unfolding flush_write_remainder
  flush_write_remainder-Silent c over =
      let c1 : Client qt = record c { remainder_flush_scheduled = false } in
      let p : Silent c1 (schedule_send_pump qt c1) = schedule_send_pump-Silent c1 in
      Silent-either (is_nil c.write_remainder)
        (λ empty. record { same_state = p.same_state; same_reports = p.same_reports })
        (λ full.
          Silent-either
            (not (is_connected qt c) || is_finished c.transfer_state || is_idle c.transfer_state)
            (λ ends. record { same_state = refl; same_reports = refl })
            (λ goes. absurd (
              let bad : true ≡ false =
                ended (is_connected qt c) (is_finished c.transfer_state) (is_idle c.transfer_state)
                  over goes in
              cc)))
    where
      ended : (on over idle : Bool) → over ≡ true → (not on || over || idle) ≡ false → true ≡ false
      ended on over idle h goes = absurd (ground (arith, h, goes))
