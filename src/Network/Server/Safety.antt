-- ===== src/Network/Server/Safety.antt =====
-- The server over any sequence of events.
use core_desk.Base.{
  ℕ, ◌≡◌, refl, sym, ◌∙◌, subst, true, false, if◌then◌else◌, List, [], ◌∷◌, ◌++◌, Option, none,
  some, ==_refl,
}
use core_desk.Common.{Text}
use core_desk.Protocol.Json.{JsonLibrary}
use core_desk.Network.Qt.{Qt, QtLaws, KeepsFiles}
use core_desk.Network.Server.{
  ActiveTransfer, Connection, new_connection, has, emplace, Server, cleanup_active_transfer,
  handle_disconnected,
}
use core_desk.Network.Server.Handlers.{
  handle_new_connection, set_receive_directory, listen, disconnect_all, close, Event, handle, run,
}
use core_desk.Network.Server.Paths.{is_part_path, not_part_of}
use core_desk.Network.Server.Calm.{
  is_ready, is_ready-append, Carried, Carried-refl, Carried-trans, Ended, Calm,
}
use core_desk.Network.Server.Closes.{cleanup-Ended, cleanup_none, remove_connection-Calm}
use core_desk.Network.Server.Sends.{handle_bytes_written-Calm, flush_write_remainder-Calm}
use core_desk.Network.Server.Invariant.{IsValid, Calm-Progress, gone-IsValid}
use core_desk.Network.Server.Reads.{
  Settled, Settled-refl, Settled-trans, Progress-Settled, Carried-Settled,
  handle_ready_read-Settled,
}

module _ {qt : Qt} (laws : QtLaws qt) (lib : JsonLibrary) where
  emplace-ready :
      (j : ℕ) (c : Connection) (cs : List Connection)
      → is_ready j cs ≡ true
      → is_ready j (emplace c cs) ≡ true
  emplace-ready j c cs h =
      elim (has c.socket cs) as (λ b. is_ready j (if b then cs else cs ++ c ∷ []) ≡ true) [
        | true ↦ h
        | false ↦ is_ready-append j cs c h
      ]

  handle_new_connection-Carried :
      (ks : List ℕ) (s : Server qt) → Carried qt s (handle_new_connection qt lib ks s)
  unfolding handle_new_connection
  handle_new_connection-Carried [] s = Carried-refl qt s
  handle_new_connection-Carried (k ∷ ks) s =
      Carried-trans qt
        (record {
          same = refl;
          files = ((λ p. refl), (λ p. refl));
          ready = λ t at h. emplace-ready t.socket (new_connection k) s.connections h;
        })
        (handle_new_connection-Carried ks _)

  disconnect_all-KeepsFiles :
      (cs : List Connection) (w : qt.World) → KeepsFiles qt w (disconnect_all qt lib cs w)
  disconnect_all-KeepsFiles [] w = ((λ p. refl), (λ p. refl))
  disconnect_all-KeepsFiles (c ∷ cs) w =
      let first = laws.disconnect-KeepsFiles w c.socket in
      let rest = disconnect_all-KeepsFiles cs (qt.after_disconnect w c.socket) in
      ((λ p. rest.0 p ∙ first.0 p), (λ p. rest.1 p ∙ first.1 p))

  closed_files :
      (w : qt.World) (p : Text)
      → qt.content (if qt.is_listening w then qt.after_server_close w else w) p ≡ qt.content w p
  closed_files w p =
      elim (qt.is_listening w)
        as (λ b. qt.content (if b then qt.after_server_close w else w) p ≡ qt.content w p) [
          | true ↦ (laws.server_close-KeepsFiles w).0 p
          | false ↦ refl
        ]

  cleaned :
      (s s1 : Server qt) (o : Option ActiveTransfer)
      → IsValid qt s
      → s.active_transfer ≡ o
      → s1.active_transfer ≡ o
      → ((p : Text) → qt.content s1.world p ≡ qt.content s.world p)
      → Settled qt s (cleanup_active_transfer qt true s1)
  cleaned s s1 none v at at1 files =
      subst (λ x. Settled qt s x) (sym (cleanup_none laws true s1 at1))
        (record { valid = gone-IsValid qt s1 at1; kept = λ p bytes off there. files p ∙ there })
  cleaned s s1 (some t) v at at1 files =
      let e : Ended qt t.socket s1 (cleanup_active_transfer qt true s1) =
        cleanup-Ended laws true t.socket s1 (rw at1 (==_refl t.socket)) in
      record {
        valid = gone-IsValid qt _ e.gone;
        kept = λ p bytes off there.
            e.others t at1 p (not_part_of p t.target_path t.part_path off (v t at).named)
            ∙ files p
            ∙ there;
      }

  close-Settled : (s : Server qt) → IsValid qt s → Settled qt s (close qt lib s)
  unfolding close
  close-Settled s v =
      let w : qt.World = disconnect_all qt lib s.connections s.world in
      cleaned s _ s.active_transfer v refl refl
        (λ p. closed_files w p ∙ (disconnect_all-KeepsFiles s.connections s.world).0 p)

  Calm-event : {k : ℕ} {s s' : Server qt} → IsValid qt s → Calm qt k s s' → Settled qt s s'
  Calm-event v c = Progress-Settled qt (Calm-Progress qt v c)

  handle-Settled :
      (e : Event qt lib) (s : Server qt) → IsValid qt s → Settled qt s (handle qt lib e s)
  unfolding handle handle_disconnected set_receive_directory listen
  handle-Settled (Event.connected_event ks) s v =
      Carried-Settled qt v (handle_new_connection-Carried ks s)
  handle-Settled (Event.read_event k bytes) s v = handle_ready_read-Settled laws lib k bytes s v
  handle-Settled (Event.written_event k) s v = Calm-event v (handle_bytes_written-Calm laws k s)
  handle-Settled (Event.disconnected_event k) s v = Calm-event v (remove_connection-Calm laws k s)
  handle-Settled (Event.timer_event k) s v = Calm-event v (flush_write_remainder-Calm laws k s)
  handle-Settled (Event.directory_event directory) s v =
      Carried-Settled qt v
        (record { same = refl; files = ((λ p. refl), (λ p. refl)); ready = λ t at h. h })
  handle-Settled (Event.listen_event address port) s v = Carried-Settled qt v (record {
    same = refl;
    files = laws.listen-KeepsFiles s.world address port;
    ready = λ t at h. h;
  })
  handle-Settled Event.close_event s v = close-Settled s v

  run-Settled :
      (es : List (Event qt lib)) (s : Server qt) → IsValid qt s → Settled qt s (run qt lib es s)
  run-Settled [] s v = Settled-refl qt s v
  run-Settled (e ∷ es) s v =
      let first = handle-Settled e s v in
      let rest = Settled-trans qt first (run-Settled es (handle qt lib e s) first.valid) in
      elim s.terminated
        as (λ b. Settled qt s (if b then s else run qt lib es (handle qt lib e s))) [
          | true ↦ Settled-refl qt s v
          | false ↦ rest
        ]

  -- From a server without a transfer on, after any events (new connections, reads of any bytes, writes,
  -- disconnections, timers, a new directory, `listen` and `close`, in any order) the server is valid: a
  -- transfer that is active belongs to a connection that has completed the handshake, its part file
  -- stands beside its target, and what was written to it is what was hashed and counted, and is no more
  -- than was offered.
  pub run-IsValid :
      (es : List (Event qt lib)) (s : Server qt)
      → s.active_transfer ≡ none
      → IsValid qt (run qt lib es s)
  run-IsValid es s free = (run-Settled es s (gone-IsValid qt s free)).valid

  -- From a server without a transfer on, whatever the peers send and in whatever order the events come,
  -- a file that is there, and is not named as a part file, is there with the same content after them.
  pub run-content :
      (es : List (Event qt lib)) (s : Server qt) (p bytes : Text)
      → s.active_transfer ≡ none
      → is_part_path p ≡ false
      → qt.content s.world p ≡ some bytes
      → qt.content (run qt lib es s).world p ≡ some bytes
  run-content es s p bytes free off there =
      (run-Settled es s (gone-IsValid qt s free)).kept p bytes off there
