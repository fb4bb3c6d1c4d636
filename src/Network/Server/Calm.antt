-- ===== src/Network/Server/Calm.antt =====
-- How a handler that sends leaves a server: as it was but for its connections, or without the
-- transfer of the socket that it served.
use core_desk.Base.{
  ℕ, ◌==◌, ◌≡◌, ◌≢◌, refl, ◌∙◌, subst, Bool, true, false, Bool-cases, inl, inr, if◌then◌else◌, List,
  [], ◌∷◌, ◌++◌, none, some, arith,
}
use core_desk.Common.{Text}
use core_desk.Network.Qt.{Qt, KeepsFiles}
use core_desk.Network.Server.{ActiveTransfer, Connection, erase, update, scheduled, Server, owns}

-- A socket whose connection has completed the handshake.
abbrev pub is_ready : ℕ → List Connection → Bool
is_ready k [] = false
is_ready k (c ∷ cs) = if c.socket == k then c.hello_complete else is_ready k cs

-- A change of a connection that keeps its socket and its handshake.
abbrev pub KeepsHello : (Connection → Connection) → Type 0
KeepsHello f =
    (c : Connection)
    → ((f c).socket ≡ c.socket) × (c.hello_complete ≡ true → (f c).hello_complete ≡ true)

pub is_ready-update :
    (j k : ℕ) (f : Connection → Connection) (cs : List Connection)
    → KeepsHello f
    → is_ready j cs ≡ true
    → is_ready j (update k f cs) ≡ true
is_ready-update j k f [] keeps h = h
is_ready-update j k f (c ∷ cs) keeps h = elim (Bool-cases (c.socket == k)) [
  | inr other ↦ elim (Bool-cases (c.socket == j)) [
    | inl here ↦ simp (other, here) (simp here at h)
    | inr there ↦ simp (other, there) (is_ready-update j k f cs keeps (simp there at h))
  ]
  | inl found ↦ elim (Bool-cases (c.socket == j)) [
    | inl here ↦ simp (found, (keeps c).0, here) ((keeps c).1 (simp here at h))
    | inr there ↦ simp (found, (keeps c).0, there) (simp there at h)
  ]
]

pub is_ready-erase :
    (j k : ℕ) (cs : List Connection) → (j == k) ≡ false → is_ready j (erase k cs) ≡ is_ready j cs
is_ready-erase j k [] apart = refl
is_ready-erase j k (c ∷ cs) apart = let ih = is_ready-erase j k cs apart in ground arith

pub is_ready-append :
    (j : ℕ) (cs : List Connection) (c : Connection)
    → is_ready j cs ≡ true
    → is_ready j (cs ++ c ∷ []) ≡ true
is_ready-append j [] c h = absurd (cc)
is_ready-append j (x ∷ cs) c h = elim (Bool-cases (x.socket == j)) [
  | inl here ↦ simp here (simp here at h)
  | inr there ↦ simp there (is_ready-append j cs c (simp there at h))
]

pub scheduled-KeepsHello : KeepsHello scheduled
scheduled-KeepsHello c = ground arith

module _ (qt : Qt) where
  pub record Carried (s s' : Server qt) : Type 0 where
    pub same : s'.active_transfer ≡ s.active_transfer
    pub files : KeepsFiles qt s.world s'.world
    pub ready :
        (t : ActiveTransfer)
        → s.active_transfer ≡ some t
        → is_ready t.socket s.connections ≡ true
        → is_ready t.socket s'.connections ≡ true

  pub record Ended (k : ℕ) (s s' : Server qt) : Type 0 where
    pub owned : owns qt k s.active_transfer ≡ true
    pub gone : s'.active_transfer ≡ none
    pub others :
        (t : ActiveTransfer)
        → s.active_transfer ≡ some t
        → (p : Text) → p ≢ t.part_path
        → qt.content s'.world p ≡ qt.content s.world p

  pub data Calm : (k : ℕ) (s s' : Server qt) → Type 0 where
    ended : {k : ℕ} {s s' : Server qt} → Ended k s s' → Calm k s s'
    carried : {k : ℕ} {s s' : Server qt} → Carried s s' → Calm k s s'

  pub Carried-refl : (s : Server qt) → Carried s s
  Carried-refl s = record { same = refl; files = ((λ p. refl), (λ p. refl)); ready = λ t at h. h }

  pub Carried-trans : {s s' s'' : Server qt} → Carried s s' → Carried s' s'' → Carried s s''
  Carried-trans a b = record {
    same = b.same ∙ a.same;
    files = ((λ p. b.files.0 p ∙ a.files.0 p), (λ p. b.files.1 p ∙ a.files.1 p));
    ready = λ t at h. b.ready t (a.same ∙ at) (a.ready t at h);
  }

  Ended-Carried : {k : ℕ} {s s' s'' : Server qt} → Ended k s s' → Carried s' s'' → Ended k s s''
  Ended-Carried a b = record {
    owned = a.owned;
    gone = b.same ∙ a.gone;
    others = λ t at p apart. b.files.0 p ∙ a.others t at p apart;
  }

  pub Carried-Ended : {k : ℕ} {s s' s'' : Server qt} → Carried s s' → Ended k s' s'' → Ended k s s''
  Carried-Ended {k} a b = record {
    owned = subst (λ o. owns qt k o ≡ true) a.same b.owned;
    gone = b.gone;
    others = λ t at p apart. b.others t (a.same ∙ at) p apart ∙ a.files.0 p;
  }

  Ended-twice : {k : ℕ} {s s' s'' : Server qt} → Ended k s s' → Ended k s' s'' → Calm k s s''
  Ended-twice {k} a b =
      absurd (let bad : false ≡ true = subst (λ o. owns qt k o ≡ true) a.gone b.owned in cc)

  pub Calm-trans : {k : ℕ} {s s' s'' : Server qt} → Calm k s s' → Calm k s' s'' → Calm k s s''
  Calm-trans (Calm.ended a) (Calm.ended b) = Ended-twice a b
  Calm-trans (Calm.ended a) (Calm.carried b) = Calm.ended (Ended-Carried a b)
  Calm-trans (Calm.carried a) (Calm.ended b) = Calm.ended (Carried-Ended a b)
  Calm-trans (Calm.carried a) (Calm.carried b) = Calm.carried (Carried-trans a b)

  pub Calm-refl : {k : ℕ} (s : Server qt) → Calm k s s
  Calm-refl s = Calm.carried (Carried-refl s)

  -- A change of the world that keeps the files, and one of a connection that keeps its handshake.
  pub Calm-world :
      {k : ℕ} (s : Server qt) (w : qt.World)
      → KeepsFiles qt s.world w
      → Calm k s (record s { world = w })
  Calm-world s w keeps = Calm.carried (record { same = refl; files = keeps; ready = λ t at h. h })

  pub Calm-update :
      {k : ℕ} (j : ℕ) (f : Connection → Connection) (s : Server qt)
      → KeepsHello f
      → Calm k s (record s { connections = update j f s.connections })
  Calm-update j f s keeps = Calm.carried (record {
    same = refl;
    files = ((λ p. refl), (λ p. refl));
    ready = λ t at h. is_ready-update t.socket j f s.connections keeps h;
  })
