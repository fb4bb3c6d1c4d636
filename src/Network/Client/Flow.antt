-- ===== src/Network/Client/Flow.antt =====
-- What keeps a client sending, and the calls that fail it or drop its connection.
use core_desk.Base.{
  ℕ, ◌+◌, ◌≡◌, ◌≤◌, refl, Bool, true, false, Bool-cases, ◌⊎◌, inl, inr, not, ◌||◌, ltb,
  if◌then◌else◌, [], ◌∷◌, length, is_nil, arith,
}
use core_desk.Common.{Text, Error, Result, success, failure}
use core_desk.Protocol.Json.{JsonLibrary}
use core_desk.Protocol.Frame.{frame_version}
use core_desk.Protocol.Payload.Handshake.{encode_hello_payload}
use core_desk.Network.Qt.{Qt, SocketLaws, ConnectsNone}
use core_desk.Network.Client.{
  TransferState, Client, pending_write_high_water_mark, is_sending, is_idle, is_finished, is_active,
  is_open, is_connected, total_pending_write_bytes, fail_transfer, handle_error,
  handle_disconnected, abort, disconnect_socket, schedule_remainder_flush, schedule_send_pump,
}

abbrev pub is_success : Result Text → Bool
is_success (success b) = true
is_success (failure e) = false

-- Neither idle nor finished.
abbrev pub is_live : TransferState → Bool
is_live s = not (is_finished s || is_idle s)

pub finished-still : (s : TransferState) → is_finished s ≡ true → is_sending s ≡ false
finished-still TransferState.completed h = refl
finished-still TransferState.failed h = refl
finished-still _ h = absurd (cc)

pub idle-still : (s : TransferState) → is_idle s ≡ true → is_sending s ≡ false
idle-still TransferState.idle h = refl
idle-still _ h = absurd (cc)

inactive-still : (s : TransferState) → is_active s ≡ false → is_sending s ≡ false
inactive-still TransferState.sending h = absurd (cc)
inactive-still TransferState.idle h = refl
inactive-still TransferState.connecting h = refl
inactive-still TransferState.hello_sent h = refl
inactive-still TransferState.offering h = refl
inactive-still TransferState.finishing h = refl
inactive-still TransferState.completed h = refl
inactive-still TransferState.failed h = refl

pub dropped-still :
    (s : TransferState) → is_sending (if is_active s then TransferState.failed else s) ≡ false
dropped-still s = elim (Bool-cases (is_active s)) [
  | inl active ↦ rw active
  | inr inactive ↦ rw inactive (inactive-still s inactive)
]

pub is_nil-length : (t : Text) → is_nil t ≡ true → length t ≡ 0
is_nil-length [] h = refl
is_nil-length (b ∷ t) h = absurd (cc)

-- Why the pump is not scheduled where the client sends.
enough :
    (pump sends on empty : Bool) (bytes rest : ℕ)
    → (pump
        || not sends
        || not on
        || not empty
        || not (ltb (bytes + rest) pending_write_high_water_mark))
      ≡ true
    → sends ≡ true
    → on ≡ true
    → empty ≡ true
    → rest ≡ 0
    → (pump ≡ true) ⊎ (pending_write_high_water_mark ≤ bytes)
enough true sends on empty bytes rest stays a b c d = inl refl
enough false true true true bytes rest stays a b c d = inr (ground (arith, stays, d))
enough false _ _ _ bytes rest stays a b c d = absurd (cc)

pub flushed :
    (flush empty on finished idle : Bool)
    → (flush || empty || not on || finished || idle) ≡ true
    → on ≡ true
    → empty ≡ false
    → not (finished || idle) ≡ true
    → flush ≡ true
flushed true empty on finished idle stays a b c = refl
flushed false false true false false stays a b c = absurd (cc)
flushed _ _ _ _ _ stays a b c = absurd (ground arith)

module _ {qt : Qt} (lib : JsonLibrary) where
  -- The hello of the node has an encoding.
  abbrev pub Greets : Client qt → Type 0
  Greets c =
      is_success (
        encode_hello_payload lib
          (record { protocol_version = frame_version; node_name = c.node_name }))
      ≡ true

  -- A client that sends has its file open, and something that makes it send on: a frame that the
  -- socket has not taken has a flush scheduled, and without one the pump is scheduled or the socket has
  -- bytes to write, whose `bytesWritten` schedules it.
  pub record IsFlowing (c : Client qt) : Type 0 where
    pub greets : Greets c
    pub opened : is_sending c.transfer_state ≡ true → is_open c.send_file ≡ true
    pub flushing :
        is_connected qt c ≡ true
        → is_nil c.write_remainder ≡ false
        → c.remainder_flush_scheduled ≡ true
    pub pushing :
        is_sending c.transfer_state ≡ true
        → is_connected qt c ≡ true
        → is_nil c.write_remainder ≡ true
        → (c.send_pump_scheduled ≡ true)
          ⊎ (pending_write_high_water_mark ≤ qt.bytes_to_write c.world c.socket)

  -- A client that does not send.
  pub resting :
      (c : Client qt)
      → Greets c
      → is_sending c.transfer_state ≡ false
      → (is_connected qt c ≡ true
          → is_nil c.write_remainder ≡ false
          → c.remainder_flush_scheduled ≡ true)
      → IsFlowing c
  resting c greets still flushing = record {
    greets = greets;
    opened = λ sends. absurd (cc);
    flushing = flushing;
    pushing = λ sends. absurd (cc);
  }

  pub stopped :
      (c : Client qt)
      → Greets c
      → is_sending c.transfer_state ≡ false
      → is_nil c.write_remainder ≡ true
      → IsFlowing c
  stopped c greets still empty = resting c greets still (λ on full. absurd (cc))

  -- What fails is not sending any more.
  pub fail_transfer-still :
      (e : Error) (c : Client qt) → is_sending (fail_transfer qt e c).transfer_state ≡ false
  unfolding fail_transfer
  fail_transfer-still e c = elim (Bool-cases (is_finished c.transfer_state)) [
    | inl done ↦ simp (done, fail_transfer) (finished-still c.transfer_state done)
    | inr runs ↦ simp (runs, fail_transfer) refl
  ]

  pub fail_transfer-IsFlowing :
      (e : Error) (c : Client qt) → IsFlowing c → IsFlowing (fail_transfer qt e c)
  unfolding fail_transfer
  fail_transfer-IsFlowing e c v = elim (Bool-cases (is_finished c.transfer_state)) [
    | inl done ↦ simp (done, fail_transfer) v
    | inr runs ↦ simp (runs, fail_transfer) (stopped _ v.greets refl refl)
  ]

  -- A failure of a transfer that is not finished clears what was left to write.
  pub fail_transfer-stopped :
      (e : Error) (c : Client qt)
      → Greets c
      → is_finished c.transfer_state ≡ false
      → IsFlowing (fail_transfer qt e c)
  unfolding fail_transfer
  fail_transfer-stopped e c greets runs = simp (runs, fail_transfer) (stopped _ greets refl refl)

  pub handle_error-still :
      (message : Text) (c : Client qt)
      → is_sending (handle_error qt message c).transfer_state ≡ false
  unfolding handle_error
  handle_error-still message c = elim (Bool-cases (is_finished c.transfer_state)) [
    | inl done ↦ simp (done, handle_error) (finished-still c.transfer_state done)
    | inr runs ↦ elim (Bool-cases (is_idle c.transfer_state)) [
      | inl rests ↦ simp (runs, rests, handle_error) (idle-still c.transfer_state rests)
      | inr busy ↦ simp (runs, busy, handle_error) refl
    ]
  ]

  pub handle_error-IsFlowing :
      (message : Text) (c : Client qt) → IsFlowing c → IsFlowing (handle_error qt message c)
  unfolding handle_error
  handle_error-IsFlowing message c v = elim (Bool-cases (is_finished c.transfer_state)) [
    | inl done ↦ simp (done, handle_error) v
    | inr runs ↦ elim (Bool-cases (is_idle c.transfer_state)) [
      | inl rests ↦
          simp (runs, rests, handle_error)
            (resting _ v.greets (idle-still c.transfer_state rests) v.flushing)
      | inr busy ↦ simp (runs, busy, handle_error) (stopped _ v.greets refl refl)
    ]
  ]

  pub handle_disconnected-IsFlowing :
      (c : Client qt) → Greets c → IsFlowing (handle_disconnected qt c)
  unfolding handle_disconnected
  handle_disconnected-IsFlowing c greets = stopped _ greets (dropped-still c.transfer_state) refl

  -- A call that connects nothing, of a client that does not send.
  pub world-IsFlowing :
      (c : Client qt) (w : qt.World)
      → IsFlowing c
      → is_sending c.transfer_state ≡ false
      → ConnectsNone qt c.world w
      → IsFlowing (record c { world = w })
  world-IsFlowing c w v still none_new =
      resting _ v.greets still (λ on full. v.flushing (none_new c.socket on) full)

  -- With what the test says in each branch.
  pub IsFlowing-either :
      {x y : Client qt} (b : Bool)
      → (b ≡ true → IsFlowing x)
      → (b ≡ false → IsFlowing y)
      → IsFlowing (if b then x else y)
  IsFlowing-either true a b = a refl
  IsFlowing-either false a b = b refl

  pub IsFlowing-if :
      {x y : Client qt} (b : Bool) → IsFlowing x → IsFlowing y → IsFlowing (if b then x else y)
  IsFlowing-if true a b = a
  IsFlowing-if false a b = b

  pub schedule_send_pump-IsFlowing :
      (c : Client qt)
      → Greets c
      → (is_sending c.transfer_state ≡ true → is_open c.send_file ≡ true)
      → (is_connected qt c ≡ true
          → is_nil c.write_remainder ≡ false
          → c.remainder_flush_scheduled ≡ true)
      → IsFlowing (schedule_send_pump qt c)
  unfolding schedule_send_pump
  schedule_send_pump-IsFlowing c greets opened flushing =
      let total : ℕ = total_pending_write_bytes qt c in
      let stop : Bool =
        c.send_pump_scheduled
        || not (is_sending c.transfer_state)
        || not (is_connected qt c)
        || not (is_nil c.write_remainder)
        || not (ltb total pending_write_high_water_mark) in
      elim (Bool-cases stop) [
        | inr goes ↦
            simp (goes, schedule_send_pump)
              (record {
                greets = greets;
                opened = opened;
                flushing = flushing;
                pushing = λ sends on empty. inl refl;
              })
        | inl stays ↦
            simp (stays, schedule_send_pump)
              (record {
                greets = greets;
                opened = opened;
                flushing = flushing;
                pushing = λ sends on empty.
                    enough c.send_pump_scheduled _ _ _ (qt.bytes_to_write c.world c.socket)
                      (length c.write_remainder) stays sends on empty
                      (is_nil-length c.write_remainder empty);
              })
      ]

  pub schedule_remainder_flush-flushing :
      (c : Client qt)
      → is_live c.transfer_state ≡ true
      → is_connected qt (schedule_remainder_flush qt c) ≡ true
      → is_nil (schedule_remainder_flush qt c).write_remainder ≡ false
      → (schedule_remainder_flush qt c).remainder_flush_scheduled ≡ true
  unfolding schedule_remainder_flush
  schedule_remainder_flush-flushing c live =
      elim (Bool-cases (
        c.remainder_flush_scheduled
        || is_nil c.write_remainder
        || not (is_connected qt c)
        || is_finished c.transfer_state
        || is_idle c.transfer_state)) [
          | inr goes ↦ simp (goes, schedule_remainder_flush) (λ on full. refl)
          | inl stays ↦
              simp (stays, schedule_remainder_flush)
                (λ on full. flushed c.remainder_flush_scheduled _ _ _ _ stays on full live)
        ]

  module _ (laws : SocketLaws qt) where
    pub abort-IsFlowing :
        (c : Client qt) → IsFlowing c → is_sending c.transfer_state ≡ false → IsFlowing (abort qt c)
    unfolding abort
    abort-IsFlowing c v still =
        IsFlowing-if (qt.aborts_now c.world c.socket)
          (handle_disconnected-IsFlowing (record c { world = qt.after_abort c.world c.socket })
            v.greets)
          (world-IsFlowing c _ v still (laws.abort-ConnectsNone c.world c.socket))

    pub disconnect_socket-IsFlowing :
        (c : Client qt)
        → IsFlowing c
        → is_sending c.transfer_state ≡ false
        → IsFlowing (disconnect_socket qt c)
    unfolding disconnect_socket
    disconnect_socket-IsFlowing c v still =
        IsFlowing-if (qt.disconnects_now c.world c.socket)
          (handle_disconnected-IsFlowing (record c { world = qt.after_disconnect c.world c.socket })
            v.greets)
          (world-IsFlowing c _ v still (laws.disconnect-ConnectsNone c.world c.socket))
