-- ===== src/Network/Server/Isolation.antt =====
-- A socket cannot disturb the transfer of another.
use core_desk.Base.{
  ℕ, ◌==◌, ◌≡◌, refl, ◌∙◌, true, false, inl, inr, ◌&&◌, not, if◌then◌else◌, List, [], ◌∷◌, some,
  Option-cases,
}
use core_desk.Common.{Text, Result, success, failure}
use core_desk.Protocol.Json.{JsonLibrary}
use core_desk.Protocol.Frame.{Frame, push}
use core_desk.Network.Qt.{Qt, QtLaws}
use core_desk.Network.Server.{ActiveTransfer, find, has, Server}
use core_desk.Network.Server.Handlers.{
  dispatch_frame, dispatch_frames, take_read, handle_ready_read,
}
use core_desk.Network.Server.Closes.{close_protocol_error-Calm}
use core_desk.Network.Server.Invariant.{IsValid, Progress, Calm-Progress, Progress-Calm}
use core_desk.Network.Server.Frames.{dispatch_frame-Progress}
use core_desk.Network.Server.Reads.{buffered}

module _ (qt : Qt) where
  -- What the frames of one socket leave of the transfer of another, and of all files.
  pub record Undisturbed (t : ActiveTransfer) (s s' : Server qt) : Type 0 where
    pub transfer : s'.active_transfer ≡ some t
    pub files : (p : Text) → qt.content s'.world p ≡ qt.content s.world p

  Undisturbed-trans :
      {t : ActiveTransfer} {s s' s'' : Server qt}
      → Undisturbed t s s'
      → Undisturbed t s' s''
      → Undisturbed t s s''
  Undisturbed-trans a b = record { transfer = b.transfer; files = λ p. b.files p ∙ a.files p }

  Progress-Undisturbed :
      {k : ℕ} {s s' : Server qt} (t : ActiveTransfer)
      → s.active_transfer ≡ some t
      → (t.socket == k) ≡ false
      → Progress qt k s s'
      → Undisturbed t s s'
  Progress-Undisturbed t at other a = record {
    transfer = (a.isolated t at other).0;
    files = (a.isolated t at other).1;
  }

module _ {qt : Qt} (laws : QtLaws qt) (lib : JsonLibrary) (t : ActiveTransfer) (k : ℕ)
    (other : (t.socket == k) ≡ false) where
  frames-Undisturbed :
      (frames : List Frame) (s : Server qt)
      → IsValid qt s
      → s.active_transfer ≡ some t
      → Undisturbed qt t s (dispatch_frames qt lib k frames s)
  unfolding dispatch_frames
  frames-Undisturbed [] s v at = record { transfer = at; files = λ p. refl }
  frames-Undisturbed (frame ∷ frames) s v at =
      let progress = dispatch_frame-Progress laws lib k frame s v in
      let first : Undisturbed qt t s (dispatch_frame qt lib k frame s) =
        Progress-Undisturbed qt t at other progress in
      let rest =
        frames-Undisturbed frames (dispatch_frame qt lib k frame s) progress.valid first.transfer in
      elim (has k s.connections && not s.terminated)
        as (λ b.
          Undisturbed qt t s
            (if b then dispatch_frames qt lib k frames (dispatch_frame qt lib k frame s) else s)) [
              | true ↦ Undisturbed-trans qt first rest
              | false ↦ record { transfer = at; files = λ p. refl }
            ]

  take_read-Undisturbed :
      (o : Text × Result (List Frame)) (s : Server qt)
      → IsValid qt s
      → s.active_transfer ≡ some t
      → Undisturbed qt t s (take_read qt lib k o s)
  unfolding take_read
  take_read-Undisturbed (b, failure e) s v at = Progress-Undisturbed qt t at other (
      Progress-Calm qt (Calm-Progress qt v (buffered laws lib k b s))
        (close_protocol_error-Calm laws k _))
  take_read-Undisturbed (b, success frames) s v at =
      let first = Calm-Progress qt v (buffered laws lib k b s) in
      let kept : Undisturbed qt t s _ = Progress-Undisturbed qt t at other first in
      Undisturbed-trans qt kept (frames-Undisturbed frames _ first.valid kept.transfer)

  -- At a valid server, a read of any bytes from a socket that does not own the active transfer leaves
  -- that transfer as it was, and every file, its part file too. Where the JSON library throws another
  -- exception than a parse error at a payload of the read, the program ends in it, and it is the files
  -- that are left.
  pub handle_ready_read-Undisturbed :
      (bytes : Text) (s : Server qt)
      → IsValid qt s
      → s.active_transfer ≡ some t
      → Undisturbed qt t s (handle_ready_read qt lib k bytes s)
  unfolding handle_ready_read
  handle_ready_read-Undisturbed bytes s v at = elim (Option-cases (find k s.connections)) [
    | inl unknown ↦ simp (unknown, handle_ready_read) (record { transfer = at; files = λ p. refl })
    | inr (c, found) ↦
        simp (found, handle_ready_read) (take_read-Undisturbed (push c.decoder bytes) s v at)
  ]
