-- ===== src/Network/Server/Invariant.antt =====
-- What holds of a server between its events, and what a handler does to it.
use core_desk.Base.{
  ℕ, ◌==◌, ◌≡◌, ◌≤◌, refl, sym, ◌∙◌, true, false, ◌⊎◌, inl, inr, ◌++◌, Option, none, some, length,
}
use core_desk.Common.{Text}
use core_desk.Network.Qt.{Qt}
use core_desk.Network.Server.{ActiveTransfer, Server, owns}
use core_desk.Network.Server.Receive.{part_suffix, is_open}
use core_desk.Network.Server.Paths.{is_part_path, not_part_of}
use core_desk.Network.Server.Calm.{is_ready, Carried, Ended, Calm}

module _ (qt : Qt) where
  -- The transfer that is active: its connection has completed the handshake, its part file stands
  -- beside its target, and what was written to it is what was hashed and counted, and is no more than
  -- was offered.
  pub record Held (s : Server qt) (t : ActiveTransfer) : Type 0 where
    pub ready : is_ready t.socket s.connections ≡ true
    pub open_state : is_open t.state ≡ true
    pub named : t.part_path ≡ t.target_path ++ part_suffix
    pub stored : qt.written s.world t.part_path ≡ t.hash
    pub counted : length t.hash ≡ t.expected_offset
    pub bounded : t.expected_offset ≤ t.file_size

  abbrev pub IsValid : Server qt → Type 0
  IsValid s = (t : ActiveTransfer) → s.active_transfer ≡ some t → Held s t

  -- A file was put where there was none: the one that the active transfer was offered as, by its
  -- size and its hash.
  pub record Published (s : Server qt) (p : Text) (s' : Server qt) : Type 0 where
    pub transfer : ActiveTransfer
    pub active : s.active_transfer ≡ some transfer
    pub at_target : transfer.target_path ≡ p
    pub absent : qt.content s.world p ≡ none
    pub bytes : Text
    pub present : qt.content s'.world p ≡ some bytes
    pub hashed : qt.sha256_hex bytes ≡ transfer.sha256
    pub sized : length bytes ≡ transfer.file_size

  -- What the handler of one frame from the socket does.
  pub record Progress (k : ℕ) (s s' : Server qt) : Type 0 where
    pub valid : IsValid s'
    pub files :
        (p : Text)
        → is_part_path p ≡ false
        → (qt.content s'.world p ≡ qt.content s.world p) ⊎ Published s p s'
    pub isolated :
        (t : ActiveTransfer)
        → s.active_transfer ≡ some t
        → (t.socket == k) ≡ false
        → (s'.active_transfer ≡ some t)
          × ((p : Text) → qt.content s'.world p ≡ qt.content s.world p)

  not_owner :
      (k : ℕ) (s : Server qt) (t : ActiveTransfer)
      → s.active_transfer ≡ some t
      → (t.socket == k) ≡ false
      → owns qt k s.active_transfer ≡ true
      → true ≡ false
  not_owner k s t at other own = let own' : (t.socket == k) ≡ true = rw at at own in cc

  pub gone-IsValid : (s : Server qt) → s.active_transfer ≡ none → IsValid s
  gone-IsValid s gone t at = absurd (cc)

  pub Carried-IsValid : (s s' : Server qt) → IsValid s → Carried qt s s' → IsValid s'
  Carried-IsValid s s' v c t at =
      let before : s.active_transfer ≡ some t = sym c.same ∙ at in
      let h : Held s t = v t before in
      record {
        ready = c.ready t before h.ready;
        open_state = h.open_state;
        named = h.named;
        stored = c.files.1 t.part_path ∙ h.stored;
        counted = h.counted;
        bounded = h.bounded;
      }

  pub Calm-IsValid : (k : ℕ) (s s' : Server qt) → IsValid s → Calm qt k s s' → IsValid s'
  Calm-IsValid k s s' v (Calm.ended e) = gone-IsValid s' e.gone
  Calm-IsValid k s s' v (Calm.carried c) = Carried-IsValid s s' v c

  -- The files that are complete stay as they are.
  Ended-files :
      (k : ℕ) (s s' : Server qt)
      → IsValid s
      → Ended qt k s s'
      → (o : Option ActiveTransfer) → s.active_transfer ≡ o
      → (p : Text) → is_part_path p ≡ false
      → qt.content s'.world p ≡ qt.content s.world p
  Ended-files k s s' v e none at p off = absurd (let bad : false ≡ true = rw at at e.owned in cc)
  Ended-files k s s' v e (some t) at p off =
      e.others t at p (not_part_of p t.target_path t.part_path off (v t at).named)

  pub Calm-files :
      (k : ℕ) (s s' : Server qt)
      → IsValid s
      → Calm qt k s s'
      → (p : Text) → is_part_path p ≡ false
      → qt.content s'.world p ≡ qt.content s.world p
  Calm-files k s s' v (Calm.ended e) p off = Ended-files k s s' v e s.active_transfer refl p off
  Calm-files k s s' v (Calm.carried c) p off = c.files.0 p

  Calm-isolated :
      (k : ℕ) (s s' : Server qt)
      → Calm qt k s s'
      → (t : ActiveTransfer) → s.active_transfer ≡ some t
      → (t.socket == k) ≡ false
      → (s'.active_transfer ≡ some t) × ((p : Text) → qt.content s'.world p ≡ qt.content s.world p)
  Calm-isolated k s s' (Calm.ended e) t at other =
      absurd (let bad = not_owner k s t at other e.owned in cc)
  Calm-isolated k s s' (Calm.carried c) t at other = (c.same ∙ at, c.files.0)

  pub Calm-Progress : {k : ℕ} {s s' : Server qt} → IsValid s → Calm qt k s s' → Progress k s s'
  Calm-Progress {k} {s} {s'} v c = record {
    valid = Calm-IsValid k s s' v c;
    files = λ p off. inl (Calm-files k s s' v c p off);
    isolated = Calm-isolated k s s' c;
  }

  later_files :
      (s s' s'' : Server qt) (p : Text)
      → (qt.content s'.world p ≡ qt.content s.world p) ⊎ Published s p s'
      → qt.content s''.world p ≡ qt.content s'.world p
      → (qt.content s''.world p ≡ qt.content s.world p) ⊎ Published s p s''
  later_files s s' s'' p (inl same) later = inl (later ∙ same)
  later_files s s' s'' p (inr f) later = inr (record {
    transfer = f.transfer;
    active = f.active;
    at_target = f.at_target;
    absent = f.absent;
    bytes = f.bytes;
    present = later ∙ f.present;
    hashed = f.hashed;
    sized = f.sized;
  })

  -- A reply after the handler's own work.
  pub Progress-Calm :
      {k : ℕ} {s s' s'' : Server qt} → Progress k s s' → Calm qt k s' s'' → Progress k s s''
  Progress-Calm {k} {s} {s'} {s''} a c = record {
    valid = Calm-IsValid k s' s'' a.valid c;
    files = λ p off. later_files s s' s'' p (a.files p off) (Calm-files k s' s'' a.valid c p off);
    isolated = λ t at other.
        let first = a.isolated t at other in
        let second = Calm-isolated k s' s'' c t first.0 other in
        (second.0, (λ p. second.1 p ∙ first.1 p));
  }
