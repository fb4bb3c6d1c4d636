-- ===== src/Protocol/Frame/Stream.antt =====
-- A connection seen end to end: what was encoded at one side is what comes out at the other.
use mathlib.Core.List.{flatten}
use core_desk.Base.{
  suc, ◌≡◌, refl, sym, ap, ◌∙◌, List, [], ◌∷◌, ◌++◌, length, All, Option, Option-cases, inl, inr,
  none, some, arith, append-nil,
}
use core_desk.Common.{Error, success, failure, Text}
use core_desk.Protocol.Frame.{Frame, encode_bytes, stop, round, push}
use core_desk.Protocol.Frame.Decode.{Fits, Sendable, round-encode, encode-Sendable}
use core_desk.Protocol.Frame.Append.{round-emit-lt}
use core_desk.Protocol.Frame.Chunks.{
  Outcome, prepend, and_then, Waits, push-append, push-Waits, drain-stop, drain-emit, drain_fuel,
  drain-prepend,
}

-- What a caller has of a connection: the frames that its reads delivered, before an error too, the
-- buffer, and the error at which it dropped the connection.
pub record Delivery : Type 0 where
  pub frames : List Frame
  pub buffer : Text
  pub error : Option Error

-- A caller goes on from an outcome, or drops the connection at an error.
abbrev pub continue : Outcome → (Text → Delivery) → Delivery
continue (b, success fs) next = record {
  frames = fs ++ (next b).frames;
  buffer = (next b).buffer;
  error = (next b).error;
}
continue (b, failure e) next = record { frames = []; buffer = b; error = some e }

-- The reads of one connection, one after the other.
unfoldable pub feed : Text → List Text → Delivery
feed b [] = record { frames = []; buffer = b; error = none }
feed b (c ∷ cs) = continue (push b c) (λ b'. feed b' cs)

-- What one read with this end returns: the frames, or else the error alone.
abbrev pub read_of : Text → List Frame → Option Error → Outcome
read_of b fs none = (b, success fs)
read_of b fs (some e) = (b, failure e)

abbrev pub as_read : Delivery → Outcome
as_read d = read_of d.buffer d.frames d.error

prepend-read_of :
    (fs gs : List Frame) (b : Text) (o : Option Error)
    → read_of b (fs ++ gs) o ≡ prepend fs (read_of b gs o)
prepend-read_of fs gs b none = refl
prepend-read_of fs gs b (some e) = refl

-- The bytes of frames that are sent one after the other.
unfoldable pub stream : List Frame → Text
stream [] = []
stream (f ∷ fs) = encode_bytes f ++ stream fs

push-nil : (b : Text) → round b ≡ stop → push b [] ≡ (b, success [])
unfolding push
push-nil b h = rw append-nil (drain-stop (suc (length b)) [] b h)

feed_rest :
    (o : Outcome) (cs : List Text)
    → Waits o
    → ((b : Text) → round b ≡ stop → as_read (feed b cs) ≡ push b (flatten cs))
    → as_read (continue o (λ b. feed b cs)) ≡ and_then o (flatten cs)
feed_rest (b, success fs) cs w ih =
    prepend-read_of fs (feed b cs).frames (feed b cs).buffer (feed b cs).error
    ∙ ap (prepend fs) (ih b w.0)
feed_rest (b, failure e) cs w ih = refl

-- However the bytes of a connection are cut into reads: if one read of all of them succeeds, the reads
-- deliver the same frames in the same order and leave the same buffer, without an error; if it fails,
-- the reads end with the same error and the same buffer. Then the frames of the reads before the
-- error were delivered, of which one read delivers none.
pub feed-flatten :
    (b : Text) (cs : List Text) → round b ≡ stop → as_read (feed b cs) ≡ push b (flatten cs)
unfolding feed flatten
feed-flatten b [] h = sym (push-nil b h)
feed-flatten b (c ∷ cs) h =
    feed_rest (push b c) cs (push-Waits b c) (λ b' s. feed-flatten b' cs s)
    ∙ sym (push-append b c (flatten cs))

delivered :
    (b : Text) (fs : List Frame) (d : Delivery)
    → as_read d ≡ (b, success fs)
    → d ≡ record { frames = fs; buffer = b; error = none }
delivered b fs d h = elim (Option-cases d.error) [
  | inl ended ↦
      let e : read_of d.buffer d.frames none ≡ (b, success fs) =
        ap (read_of d.buffer d.frames) (sym ended) ∙ h in
      cc
  | inr (x, ended) ↦
      let e : read_of d.buffer d.frames (some x) ≡ (b, success fs) =
        ap (read_of d.buffer d.frames) (sym ended) ∙ h in
      absurd (let bad = ap (λ y. y.1) e in cc)
]

push-encode :
    (f : Frame) (rest : Text)
    → Fits f
    → Sendable f
    → push [] (encode_bytes f ++ rest) ≡ prepend (f ∷ []) (push [] rest)
unfolding push
push-encode f rest w s =
    let b = encode_bytes f ++ rest in
    let e = round-encode f (encode_bytes f) rest w (encode-Sendable f s) in
    drain-emit (length b) [] b f rest e
    ∙ drain-prepend (length b) (f ∷ []) [] rest
    ∙ ap (prepend (f ∷ [])) (
        drain_fuel (length b) (suc (length rest)) [] rest (omega (arith, round-emit-lt b f rest e))
          (omega arith))

push-stream :
    (fs : List Frame) → All Fits fs → All Sendable fs → push [] (stream fs) ≡ ([], success fs)
unfolding stream round
push-stream [] w s = push-nil [] refl
push-stream (f ∷ fs) w s =
    push-encode f (stream fs) w.0 s.0 ∙ ap (prepend (f ∷ [])) (push-stream fs w.1 s.1)

-- Frames that are sent one after the other arrive as they were sent, in order, with nothing left
-- in the buffer and without an error, however the network cuts their bytes.
pub feed-stream :
    (fs : List Frame) (cs : List Text)
    → All Fits fs
    → All Sendable fs
    → flatten cs ≡ stream fs
    → feed [] cs ≡ record { frames = fs; buffer = []; error = none }
unfolding round
feed-stream fs cs w s e =
    delivered [] fs (feed [] cs) (feed-flatten [] cs refl ∙ ap (push []) e ∙ push-stream fs w s)
