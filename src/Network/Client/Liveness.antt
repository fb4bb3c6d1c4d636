-- ===== src/Network/Client/Liveness.antt =====
-- The client over any sequence of events.
use core_desk.Base.{
  ℕ, ◌≡◌, ◌≤◌, refl, true, false, Bool-cases, ◌⊎◌, inl, inr, List, [], ◌∷◌, is_nil,
}
use core_desk.Common.{Text, Result}
use core_desk.Protocol.Json.{JsonLibrary}
use core_desk.Protocol.Frame.{push}
use core_desk.Network.Qt.{Qt, SocketLaws}
use core_desk.Network.Client.{
  HashJob, Client, pending_write_high_water_mark, is_sending, is_open, is_connected,
  cleanup_transfer_file, handle_disconnected, abort, connect_to_host, disconnect_from_host,
  reset_connection, reset_transfer, connect_socket,
}
use core_desk.Network.Client.Handlers.{
  handle_ready_read, handle_connected, take_hash_result, Event, handle, run,
}
use core_desk.Network.Client.Flow.{
  Greets, IsFlowing, dropped-still, stopped, handle_error-IsFlowing, handle_disconnected-IsFlowing,
  IsFlowing-if, disconnect_socket-IsFlowing,
}
use core_desk.Network.Client.Writes.{
  send_hello-IsFlowing, send_file-IsFlowing, flush_write_remainder-IsFlowing,
  handle_bytes_written-IsFlowing,
}
use core_desk.Network.Client.Pump.{send_next_chunk-IsFlowing}
use core_desk.Network.Client.Offers.{send_file_offer-IsFlowing, handle_hash_result-IsFlowing}
use core_desk.Network.Client.Flowing.{Cleared, Cleared-if, take_read-IsFlowing}

module _ {qt : Qt} (lib : JsonLibrary) (laws : SocketLaws qt) where
  take_hash_result-IsFlowing :
      (r : Result Text) (jobs : List HashJob) (c : Client qt)
      → IsFlowing lib c
      → IsFlowing lib (take_hash_result qt lib r jobs c)
  unfolding take_hash_result
  take_hash_result-IsFlowing r [] c v = v
  take_hash_result-IsFlowing r (job ∷ jobs) c v =
      handle_hash_result-IsFlowing lib laws job r (record c { hash_jobs = jobs })
        (record {
          greets = v.greets;
          opened = v.opened;
          flushing = v.flushing;
          pushing = v.pushing;
        })

  abort-Cleared : (c : Client qt) → Cleared lib c → Cleared lib (abort qt c)
  unfolding abort handle_disconnected cleanup_transfer_file
  abort-Cleared c v =
      Cleared-if lib (qt.aborts_now c.world c.socket)
        (record { greets = v.greets; still = dropped-still c.transfer_state; empty = refl })
        (record { greets = v.greets; still = v.still; empty = v.empty })

  reset-Cleared : (c : Client qt) → Greets lib c → Cleared lib (reset_connection qt c)
  unfolding reset_connection
  reset-Cleared c greets = record { greets = greets; still = refl; empty = refl }

  connect_socket-IsFlowing :
      (host : Text) (port : ℕ) (c : Client qt)
      → Cleared lib c
      → IsFlowing lib (connect_socket qt host port c)
  connect_socket-IsFlowing host port c v = stopped lib _ v.greets v.still v.empty

  connect_to_host-IsFlowing :
      (host : Text) (port : ℕ) (c : Client qt)
      → Greets lib c
      → IsFlowing lib (connect_to_host qt host port c)
  unfolding connect_to_host
  connect_to_host-IsFlowing host port c greets =
      let c1 : Client qt = reset_connection qt c in
      let cleared : Cleared lib c1 = reset-Cleared c greets in
      connect_socket-IsFlowing host port _
        (Cleared-if lib (qt.is_unconnected c1.world c1.socket) cleared (abort-Cleared c1 cleared))

  reset_transfer-IsFlowing : (c : Client qt) → Greets lib c → IsFlowing lib (reset_transfer qt c)
  unfolding reset_transfer cleanup_transfer_file
  reset_transfer-IsFlowing c greets = stopped lib _ greets refl refl

  reset_transfer-still : (c : Client qt) → is_sending (reset_transfer qt c).transfer_state ≡ false
  unfolding reset_transfer
  reset_transfer-still c = refl

  disconnect_from_host-IsFlowing :
      (c : Client qt) → Greets lib c → IsFlowing lib (disconnect_from_host qt c)
  unfolding disconnect_from_host
  disconnect_from_host-IsFlowing c greets =
      let c1 : Client qt = reset_transfer qt c in
      let v : IsFlowing lib c1 = reset_transfer-IsFlowing c greets in
      IsFlowing-if lib (qt.is_unconnected c1.world c1.socket) v
        (disconnect_socket-IsFlowing lib laws c1 v (reset_transfer-still c))

  handle-IsFlowing :
      (e : Event qt lib) (c : Client qt) → IsFlowing lib c → IsFlowing lib (handle qt lib e c)
  unfolding handle handle_connected handle_ready_read
  handle-IsFlowing (Event.connect_event host port) c v =
      connect_to_host-IsFlowing host port c v.greets
  handle-IsFlowing Event.disconnect_event c v = disconnect_from_host-IsFlowing c v.greets
  handle-IsFlowing Event.send_pump_event c v = send_next_chunk-IsFlowing lib laws c v
  handle-IsFlowing Event.flush_event c v = flush_write_remainder-IsFlowing lib laws c v
  handle-IsFlowing (Event.send_file_event path) c v = send_file-IsFlowing lib laws path c v
  handle-IsFlowing (Event.offer_event offer) c v = send_file_offer-IsFlowing lib laws offer c v
  handle-IsFlowing (Event.connected_event w) c v =
      send_hello-IsFlowing lib laws (record c { world = w }) v.greets
  handle-IsFlowing (Event.disconnected_event w) c v =
      handle_disconnected-IsFlowing lib (record c { world = w }) v.greets
  handle-IsFlowing (Event.written_event n) c v =
      handle_bytes_written-IsFlowing lib laws c _ v
        (laws.bytes_written-ConnectsNone c.world c.socket n)
  handle-IsFlowing (Event.read_event bytes) c v =
      take_read-IsFlowing lib laws (push c.decoder bytes) c v
  handle-IsFlowing (Event.error_event message) c v = handle_error-IsFlowing lib message c v
  handle-IsFlowing (Event.hash_event sha256) c v = take_hash_result-IsFlowing sha256 c.hash_jobs c v

  run-IsFlowing :
      (es : List (Event qt lib)) (c : Client qt) → IsFlowing lib c → IsFlowing lib (run qt lib es c)
  run-IsFlowing [] c v = v
  run-IsFlowing (e ∷ es) c v =
      IsFlowing-if lib c.terminated v
        (run-IsFlowing es (handle qt lib e c) (handle-IsFlowing e c v))

  -- What makes a client send on.
  abbrev pub GoesOn : Client qt → Type 0
  GoesOn c =
      (c.remainder_flush_scheduled ≡ true)
      ⊎ (c.send_pump_scheduled ≡ true)
      ⊎ (pending_write_high_water_mark ≤ qt.bytes_to_write c.world c.socket)

  goes_on :
      (c : Client qt)
      → IsFlowing lib c
      → is_sending c.transfer_state ≡ true
      → is_connected qt c ≡ true
      → GoesOn c
  goes_on c v sends on = elim (Bool-cases (is_nil c.write_remainder)) [
    | inl empty ↦ inr (v.pushing sends on empty)
    | inr full ↦ inl (v.flushing on full)
  ]

  -- A client never stalls: from a client that flows (one that does not send and has nothing left to
  -- write does, if its hello has an encoding), after any events (calls of its owner, reads of any bytes,
  -- writes, errors, disconnections, timers that fire early or late, results of hash workers), if it is
  -- sending over a connected socket then its file is open, and the flush of a frame that was taken in
  -- part is scheduled, or the pump is, or the socket has at least 2 MiB to write, whose `bytesWritten`
  -- schedules the pump. Another exception of the JSON library than a parse error ends the program.
  pub run-GoesOn :
      (es : List (Event qt lib)) (c : Client qt)
      → IsFlowing lib c
      → is_sending (run qt lib es c).transfer_state ≡ true
      → is_connected qt (run qt lib es c) ≡ true
      → (is_open (run qt lib es c).send_file ≡ true) × GoesOn (run qt lib es c)
  run-GoesOn es c flows sends on =
      let v : IsFlowing lib (run qt lib es c) = run-IsFlowing es c flows in
      (v.opened sends, goes_on (run qt lib es c) v sends on)
