-- ===== src/Network/Server/Reads.antt =====
-- The server over one read, and what any work of it leaves.
use core_desk.Base.{
  ℕ, ◌≡◌, refl, ◌∙◌, true, false, ◌⊎◌, inl, inr, ◌&&◌, not, if◌then◌else◌, List, [], ◌∷◌, some,
  Option-cases,
}
use core_desk.Common.{Text, Result, success, failure}
use core_desk.Protocol.Json.{JsonLibrary}
use core_desk.Protocol.Frame.{Frame, push}
use core_desk.Network.Qt.{Qt, QtLaws}
use core_desk.Network.Server.{find, has, Server, on_connection}
use core_desk.Network.Server.Handlers.{
  dispatch_frame, dispatch_frames, take_read, handle_ready_read,
}
use core_desk.Network.Server.Paths.{is_part_path}
use core_desk.Network.Server.Calm.{Carried, Calm, Calm-update}
use core_desk.Network.Server.Closes.{close_protocol_error-Calm}
use core_desk.Network.Server.Invariant.{
  IsValid, Published, Progress, Calm-Progress, Progress-Calm, Carried-IsValid,
}
use core_desk.Network.Server.Frames.{dispatch_frame-Progress}

module _ (qt : Qt) where
  -- After any work: the server is valid, and each file that is complete is as it was.
  pub record Settled (s s' : Server qt) : Type 0 where
    pub valid : IsValid qt s'
    pub kept :
        (p bytes : Text)
        → is_part_path p ≡ false
        → qt.content s.world p ≡ some bytes
        → qt.content s'.world p ≡ some bytes

  pub Settled-refl : (s : Server qt) → IsValid qt s → Settled s s
  Settled-refl s v = record { valid = v; kept = λ p bytes off at. at }

  pub Settled-trans : {s s' s'' : Server qt} → Settled s s' → Settled s' s'' → Settled s s''
  Settled-trans a b = record {
    valid = b.valid;
    kept = λ p bytes off at. b.kept p bytes off (a.kept p bytes off at);
  }

  still_there :
      (s s' : Server qt) (p bytes : Text)
      → (qt.content s'.world p ≡ qt.content s.world p) ⊎ Published qt s p s'
      → qt.content s.world p ≡ some bytes
      → qt.content s'.world p ≡ some bytes
  still_there s s' p bytes (inl same) at = same ∙ at
  still_there s s' p bytes (inr f) at = absurd (let absent = f.absent in cc)

  pub Progress-Settled : {k : ℕ} {s s' : Server qt} → Progress qt k s s' → Settled s s'
  Progress-Settled {k} {s} {s'} a = record {
    valid = a.valid;
    kept = λ p bytes off at. still_there s s' p bytes (a.files p off) at;
  }

  pub Carried-Settled : {s s' : Server qt} → IsValid qt s → Carried qt s s' → Settled s s'
  Carried-Settled {s} {s'} v c = record {
    valid = Carried-IsValid qt s s' v c;
    kept = λ p bytes off at. c.files.0 p ∙ at;
  }

module _ {qt : Qt} (laws : QtLaws qt) (lib : JsonLibrary) where
  -- At a valid server, the handler of any frame from any socket leaves each file that is not named as
  -- a part file as it was; or it puts it where there was none, and then the server's active transfer
  -- had it as its target, and its size and its SHA-256 are those that the transfer was offered with.
  pub dispatch_frame-files :
      (k : ℕ) (frame : Frame) (s : Server qt) (p : Text)
      → IsValid qt s
      → is_part_path p ≡ false
      → (qt.content (dispatch_frame qt lib k frame s).world p ≡ qt.content s.world p)
        ⊎ Published qt s p (dispatch_frame qt lib k frame s)
  dispatch_frame-files k frame s p v off =
      (dispatch_frame-Progress laws lib k frame s v).files p off

  dispatch_frames-Settled :
      (k : ℕ) (frames : List Frame) (s : Server qt)
      → IsValid qt s
      → Settled qt s (dispatch_frames qt lib k frames s)
  unfolding dispatch_frames
  dispatch_frames-Settled k [] s v = Settled-refl qt s v
  dispatch_frames-Settled k (frame ∷ frames) s v =
      let first = dispatch_frame-Progress laws lib k frame s v in
      let rest = dispatch_frames-Settled k frames (dispatch_frame qt lib k frame s) first.valid in
      elim (has k s.connections && not s.terminated)
        as (λ b.
          Settled qt s
            (if b then dispatch_frames qt lib k frames (dispatch_frame qt lib k frame s) else s)) [
              | true ↦ Settled-trans qt (Progress-Settled qt first) rest
              | false ↦ Settled-refl qt s v
            ]

  -- The buffer of a connection is changed.
  pub buffered :
      (k : ℕ) (b : Text) (s : Server qt)
      → Calm qt k s (on_connection qt k (λ c. record c { decoder = b }) s)
  buffered k b s = Calm-update qt k (λ c. record c { decoder = b }) s (λ c. (refl, λ h. h))

  take_read-Settled :
      (k : ℕ) (o : Text × Result (List Frame)) (s : Server qt)
      → IsValid qt s
      → Settled qt s (take_read qt lib k o s)
  unfolding take_read
  take_read-Settled k (b, failure e) s v =
      let first = Calm-Progress qt v (buffered k b s) in
      Progress-Settled qt (Progress-Calm qt first (close_protocol_error-Calm laws k _))
  take_read-Settled k (b, success frames) s v =
      let first = Calm-Progress qt v (buffered k b s) in
      Settled-trans qt (Progress-Settled qt first) (dispatch_frames-Settled k frames _ first.valid)

  pub handle_ready_read-Settled :
      (k : ℕ) (bytes : Text) (s : Server qt)
      → IsValid qt s
      → Settled qt s (handle_ready_read qt lib k bytes s)
  unfolding handle_ready_read
  handle_ready_read-Settled k bytes s v = elim (Option-cases (find k s.connections)) [
    | inl unknown ↦ simp (unknown, handle_ready_read) (Settled-refl qt s v)
    | inr (c, found) ↦
        simp (found, handle_ready_read) (take_read-Settled k (push c.decoder bytes) s v)
  ]
