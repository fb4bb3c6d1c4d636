-- ===== src/Network/Qt/Memory.antt =====
-- A file system in memory, on which each call succeeds: it has what Qt documents.
use core_desk.Base.{
  ◌≡◌, ◌≢◌, refl, ◌∙◌, Bool, true, false, Bool-cases, not, ◌&&◌, inl, inr, if◌then◌else◌, [], ◌∷◌,
  ◌++◌, Option, none, some, length, take, text_eq, text_eq→≡, text_eq_refl, &&-right,
}
use core_desk.Common.{Text, text}
use core_desk.Network.Qt.{Qt, QtLaws, SocketLaws}

pub record Memory : Type 0 where
  pub files : Text → Option Text
  pub writes : Text → Text

abbrev pub set {ℓ} : {A : Type ℓ} → Text → A → (Text → A) → Text → A
set p a f q = if text_eq q p then a else f q

abbrev pub is_some {ℓ} : {A : Type ℓ} → Option A → Bool
is_some none = false
is_some (some a) = true

abbrev content_or_nil : Option Text → Text
content_or_nil none = []
content_or_nil (some b) = b

abbrev can_move : Memory → Text → Text → Bool
can_move m old new = is_some (m.files old) && not (is_some (m.files new))

abbrev move : Memory → Text → Text → Memory
move m old new = record m { files = set new (m.files old) (set old none m.files) }

-- The directory `in` is there, and holds all files.
abbrev pub memory : Qt
memory = record {
  World = Memory;
  listens = λ m address port. true;
  after_listen = λ m address port. m;
  server_error = λ m. [];
  is_listening = λ m. true;
  after_server_close = λ m. m;
  server_port = λ m. 45827;
  bytes_to_write = λ m socket. 0;
  is_connected = λ m socket. true;
  accepted = λ m socket bytes. some (length bytes);
  after_write = λ m socket bytes. m;
  disconnects_now = λ m socket. true;
  after_disconnect = λ m socket. m;
  aborts_now = λ m socket. true;
  after_abort = λ m socket. m;
  is_directory = λ m p. text_eq p (text "in");
  exists = λ m p. if text_eq p (text "in") then true else is_some (m.files p);
  exists_error = λ m p. none;
  opens = λ m p. true;
  after_open = λ m p. record { files = set p (some []) m.files; writes = set p [] m.writes };
  writes_all = λ m p bytes. true;
  after_append = λ m p bytes. record m { writes = set p (m.writes p ++ bytes) m.writes };
  flushes = λ m p. true;
  after_flush = λ m p. record m { files = set p (some (m.writes p)) m.files };
  after_close = λ m p. m;
  file_error = λ m p. [];
  renames = λ m old new. can_move m old new;
  after_rename = λ m old new. if can_move m old new then move m old new else m;
  after_remove = λ m p. record m { files = set p none m.files };
  after_connect = λ m socket host port. m;
  after_bytes_written = λ m socket n. m;
  is_unconnected = λ m socket. false;
  socket_error = λ m socket. [];
  is_file = λ m p. is_some (m.files p);
  file_size = λ m p. length (content_or_nil (m.files p));
  file_name = λ p. p;
  opens_to_read = λ m p. is_some (m.files p);
  after_open_to_read = λ m p. m;
  at_end = λ m p. false;
  read = λ m p n. take n (content_or_nil (m.files p));
  after_read = λ m p n. m;
  read_failed = λ m p. false;
  random_bytes = λ m. 1 ∷ 2 ∷ 3 ∷ 4 ∷ 5 ∷ 6 ∷ 7 ∷ 8 ∷ 9 ∷ 10 ∷ 11 ∷ 12 ∷ 13 ∷ 14 ∷ 15 ∷ 16 ∷ [];
  after_random = λ m. m;
  sha256_hex = λ bytes. text "00112233445566778899aabbccddeeff00112233445566778899aabbccddeeff";
  content = λ m p. m.files p;
  written = λ m p. m.writes p;
}

set_same {ℓ} : {A : Type ℓ} (p : Text) (a : A) (f : Text → A) → set p a f p ≡ a
set_same p a f = rw (text_eq_refl p)

set_other {ℓ} :
    {A : Type ℓ} (p : Text) (a : A) (f : Text → A) (q : Text) → q ≢ p → set p a f q ≡ f q
set_other p a f q apart = elim (Bool-cases (text_eq q p)) [
  | inl same ↦ absurd (apart (text_eq→≡ q p same))
  | inr other ↦ rw other
]

absent-of : (o : Option Text) → not (is_some o) ≡ true → o ≡ none
absent-of none h = refl
absent-of (some x) h = absurd (cc)

moved :
    (m : Memory) (old new : Text)
    → can_move m old new ≡ true
    → (m.files new ≡ none)
      × ((if can_move m old new then move m old new else m).files new ≡ m.files old)
moved m old new can = (
  absent-of (m.files new) (&&-right (is_some (m.files old)) (not (is_some (m.files new))) can),
  rw can (set_same new (m.files old) (set old none m.files)),
)

moved_others :
    (m : Memory) (old new p : Text)
    → p ≢ old
    → p ≢ new
    → (if can_move m old new then move m old new else m).files p ≡ m.files p
moved_others m old new p a b = elim (Bool-cases (can_move m old new)) [
  | inl can ↦
      rw can
        (set_other new (m.files old) (set old none m.files) p b ∙ set_other old none m.files p a)
  | inr cannot ↦ rw cannot
]

moved_writes :
    (m : Memory) (old new p : Text)
    → (if can_move m old new then move m old new else m).writes p ≡ m.writes p
moved_writes m old new p = elim (Bool-cases (can_move m old new)) [
  | inl can ↦ rw can
  | inr cannot ↦ rw cannot
]

pub memory_laws : QtLaws memory
memory_laws = record {
  listen-KeepsFiles = λ m address port. ((λ p. refl), (λ p. refl));
  server_close-KeepsFiles = λ m. ((λ p. refl), (λ p. refl));
  write-KeepsFiles = λ m socket bytes. ((λ p. refl), (λ p. refl));
  disconnect-KeepsFiles = λ m socket. ((λ p. refl), (λ p. refl));
  abort-KeepsFiles = λ m socket. ((λ p. refl), (λ p. refl));
  open-KeepsOthers = λ m path p apart. set_other path (some []) m.files p apart;
  written-open = λ m path opens. set_same path [] m.writes;
  append-KeepsOthers = λ m path bytes p apart. refl;
  written-append = λ m path bytes writes. set_same path (m.writes path ++ bytes) m.writes;
  flush-KeepsOthers = λ m path p apart. set_other path (some (m.writes path)) m.files p apart;
  content-flush = λ m path flushes. set_same path (some (m.writes path)) m.files;
  content-close = λ m path bytes there. there;
  close-KeepsOthers = λ m path p apart. refl;
  written-flush = λ m path p. refl;
  written-close = λ m path p. refl;
  written-rename = λ m old new p. moved_writes m old new p;
  content-rename = λ m old new can. moved m old new can;
  rename_others = λ m old new p a b. moved_others m old new p a b;
  rename_failed = λ m old new p cannot. rw cannot;
  remove-KeepsOthers = λ m path p apart. set_other path none m.files p apart;
}

pub memory_sockets : SocketLaws memory
memory_sockets = record {
  abort-ConnectsNone = λ m k j on. on;
  disconnect-ConnectsNone = λ m k j on. on;
  close-ConnectsNone = λ m p j on. on;
  open_to_read-ConnectsNone = λ m p j on. on;
  read-ConnectsNone = λ m p n j on. on;
  bytes_written-ConnectsNone = λ m k n j on. on;
  random-ConnectsNone = λ m j on. on;
}
