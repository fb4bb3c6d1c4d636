-- ===== src/Network/Server/Closes.antt =====
-- Calm and ended: what the calls that close a connection leave.
use core_desk.Base.{
  ℕ, ◌≡◌, ◌≢◌, refl, sym, ap, ◌∙◌, subst, Bool, true, false, Bool-cases, inl, inr, if◌then◌else◌,
  [], Option, none, some, Option-cases,
}
use core_desk.Common.{Text}
use core_desk.Network.Qt.{Qt, QtLaws}
use core_desk.Network.Server.{
  ActiveTransfer, has, Server, owns, cleanup_active_transfer, remove_connection,
  handle_disconnected, disconnect_from_host, abort, close_protocol_error, handle_send_failure,
  in_world, erase,
}
use core_desk.Network.Server.Calm.{
  is_ready-erase, Ended, Carried-Ended, Calm, Calm-trans, Calm-refl, Calm-world,
}

-- The part file of a transfer, if any.
abbrev pub part_of : Option ActiveTransfer → Text
part_of none = []
part_of (some t) = t.part_path

module _ {qt : Qt} (laws : QtLaws qt) where
  pub Calm-if :
      {k : ℕ} {s x y : Server qt} (b : Bool)
      → Calm qt k s x
      → Calm qt k s y
      → Calm qt k s (if b then x else y)
  Calm-if true a b = a
  Calm-if false a b = b

  -- The transfer of the socket is given up.
  pub cleanup-Ended :
      (b : Bool) (k : ℕ) (s : Server qt)
      → owns qt k s.active_transfer ≡ true
      → Ended qt k s (cleanup_active_transfer qt b s)
  unfolding cleanup_active_transfer
  cleanup-Ended b k s own = elim (Option-cases s.active_transfer) [
    | inl unused ↦ absurd (let bad = rw unused at own in cc)
    | inr (t, at) ↦
        simp (at, cleanup_active_transfer)
          (record {
            owned = own;
            gone = refl;
            others = λ t' at' p apart.
                let same : t.part_path ≡ t'.part_path = ap part_of (sym at ∙ at') in
                let away : p ≢ t.part_path = λ q. apart (q ∙ same) in
                let closed = laws.close-KeepsOthers s.world t.part_path p away in
                elim b
                  as (λ b.
                    qt.content
                      (if b
                        then qt.after_remove (qt.after_close s.world t.part_path) t.part_path
                        else qt.after_close s.world t.part_path)
                      p
                    ≡ qt.content s.world p) [
                      | true ↦
                          laws.remove-KeepsOthers (qt.after_close s.world t.part_path) t.part_path p
                            away
                          ∙ closed
                      | false ↦ closed
                    ];
          })
  ]

  pub cleanup_none :
      (b : Bool) (s : Server qt) → s.active_transfer ≡ none → cleanup_active_transfer qt b s ≡ s
  unfolding cleanup_active_transfer
  cleanup_none b s unused = simp (unused, cleanup_active_transfer) refl

  -- Whatever a calm handler did before.
  pub Calm-cleanup-Ended :
      (b : Bool) {k : ℕ} {s s' : Server qt}
      → owns qt k s.active_transfer ≡ true
      → Calm qt k s s'
      → Ended qt k s (cleanup_active_transfer qt b s')
  Calm-cleanup-Ended b {k} {s} {s'} own (Calm.ended e) =
      subst (λ x. Ended qt k s x) (sym (cleanup_none b s' e.gone)) e
  Calm-cleanup-Ended b {k} {s} {s'} own (Calm.carried c) =
      Carried-Ended qt c (cleanup-Ended b k s' (subst (λ o. owns qt k o ≡ true) (sym c.same) own))

  erased :
      (k : ℕ) (s : Server qt)
      → owns qt k s.active_transfer ≡ false
      → Calm qt k s (record s { connections = erase k s.connections })
  erased k s other = Calm.carried (record {
    same = refl;
    files = ((λ p. refl), (λ p. refl));
    ready = λ t at h. is_ready-erase t.socket k s.connections (rw at at other) ∙ h;
  })

  pub remove_connection-Calm : (k : ℕ) (s : Server qt) → Calm qt k s (remove_connection qt k s)
  unfolding remove_connection
  remove_connection-Calm k s = elim (Bool-cases (owns qt k s.active_transfer)) [
    | inl own ↦
        let e : Ended qt k s (cleanup_active_transfer qt true s) = cleanup-Ended true k s own in
        simp (own, remove_connection)
          (Calm.ended (record { owned = e.owned; gone = e.gone; others = e.others }))
    | inr other ↦ simp (other, remove_connection) (erased k s other)
  ]

  pub disconnect_from_host-Calm :
      (k : ℕ) (s : Server qt) → Calm qt k s (disconnect_from_host qt k s)
  unfolding disconnect_from_host handle_disconnected
  disconnect_from_host-Calm k s =
      let s1 : Server qt = in_world qt (qt.after_disconnect s.world k) s in
      let told : Calm qt k s s1 = Calm-world qt s _ (laws.disconnect-KeepsFiles s.world k) in
      Calm-if (qt.disconnects_now s.world k) (Calm-trans qt told (remove_connection-Calm k s1)) told

  abort-Calm : (k : ℕ) (s : Server qt) → Calm qt k s (abort qt k s)
  unfolding abort handle_disconnected
  abort-Calm k s =
      let s1 : Server qt = in_world qt (qt.after_abort s.world k) s in
      let told : Calm qt k s s1 = Calm-world qt s _ (laws.abort-KeepsFiles s.world k) in
      Calm-if (qt.aborts_now s.world k) (Calm-trans qt told (remove_connection-Calm k s1)) told

  pub close_protocol_error-Calm :
      (k : ℕ) (s : Server qt) → Calm qt k s (close_protocol_error qt k s)
  unfolding close_protocol_error
  close_protocol_error-Calm k s =
      Calm-trans qt (remove_connection-Calm k s)
        (disconnect_from_host-Calm k (remove_connection qt k s))

  pub handle_send_failure-Calm : (k : ℕ) (s : Server qt) → Calm qt k s (handle_send_failure qt k s)
  unfolding handle_send_failure
  handle_send_failure-Calm k s =
      Calm-if (has k s.connections)
        (Calm-trans qt (remove_connection-Calm k s) (abort-Calm k (remove_connection qt k s)))
        (Calm-refl qt s)
