-- ===== src/Protocol/Frame/Chunks.antt =====
-- The decoder over a stream: how the bytes are cut into reads makes no difference.
use core_desk.Base.{
  ℕ, zero, suc, ◌+◌, ◌<◌, ◌≡◌, refl, sym, ap, ◌∙◌, subst, ◌⊎◌, inl, inr, List, [], ◌∷◌, ◌++◌,
  length, arith, length-append, append-nil, append_assoc,
}
use core_desk.Common.{Error, Result, success, failure, Text}
use core_desk.Protocol.Frame.{
  Frame, frame_header_size, max_payload_size, Round, stop, fail, emit, round, drain, push,
}
use core_desk.Protocol.Frame.Append.{
  round-append_fail, round-append_emit, round-emit-lt, round-stop-lt,
}

abbrev pub Outcome : Type 0
Outcome = Text × Result (List Frame)

-- Frames that were already taken stand before those of a later outcome.
abbrev pub prepend : List Frame → Outcome → Outcome
prepend fs (b, success gs) = (b, success (fs ++ gs))
prepend fs (b, failure e) = (b, failure e)

-- The next `push` of a caller that goes on after a success and gives up after an error.
abbrev pub and_then : Outcome → Text → Outcome
and_then (b, success fs) y = prepend fs (push b y)
and_then (b, failure e) y = (b, failure e)

Round-cases :
    (s : Round)
    → (s ≡ stop) ⊎ (((e : Error) × (s ≡ fail e)) ⊎ ((f : Frame) × (r : Text) × (s ≡ emit f r)))
Round-cases stop = inl refl
Round-cases (fail e) = inr (inl (e, refl))
Round-cases (emit f r) = inr (inr (f, r, refl))

pub drain-stop :
    (n : ℕ) (fs : List Frame) (b : Text) → round b ≡ stop → drain n fs b ≡ (b, success fs)
unfolding drain
drain-stop zero fs b h = refl
drain-stop (suc n) fs b h = rw (h, drain)

drain-fail :
    (n : ℕ) (fs : List Frame) (b : Text) (e : Error)
    → round b ≡ fail e
    → drain (suc n) fs b ≡ ([], failure e)
unfolding drain
drain-fail n fs b e h = rw (h, drain)

pub drain-emit :
    (n : ℕ) (fs : List Frame) (b : Text) (f : Frame) (r : Text)
    → round b ≡ emit f r
    → drain (suc n) fs b ≡ drain n (fs ++ f ∷ []) r
unfolding drain
drain-emit n fs b f r h = rw (h, drain)

-- Any fuel above the length of the buffer gives the same result.
pub drain_fuel :
    (n m : ℕ) (fs : List Frame) (b : Text)
    → length b < n
    → length b < m
    → drain n fs b ≡ drain m fs b
drain_fuel zero m fs b h k = absurd (omega arith)
drain_fuel (suc n) zero fs b h k = absurd (omega arith)
drain_fuel (suc n) (suc m) fs b h k = elim (Round-cases (round b)) [
  | inl s ↦ drain-stop (suc n) fs b s ∙ sym (drain-stop (suc m) fs b s)
  | inr (inl (e, s)) ↦ drain-fail n fs b e s ∙ sym (drain-fail m fs b e s)
  | inr (inr (f, r, s)) ↦
      drain-emit n fs b f r s
      ∙ drain_fuel n m (fs ++ f ∷ []) r (omega (arith, round-emit-lt b f r s))
          (omega (arith, round-emit-lt b f r s))
      ∙ sym (drain-emit m fs b f r s)
]

pub prepend-append :
    (fs gs : List Frame) (o : Outcome) → prepend (fs ++ gs) o ≡ prepend fs (prepend gs o)
prepend-append fs gs (b, success hs) = rw (append_assoc fs gs hs)
prepend-append fs gs (b, failure e) = refl

pub drain-prepend :
    (n : ℕ) (fs gs : List Frame) (b : Text) → drain n (fs ++ gs) b ≡ prepend fs (drain n gs b)
unfolding drain
drain-prepend zero fs gs b = refl
drain-prepend (suc n) fs gs b = elim (Round-cases (round b)) [
  | inl s ↦ rw (s, drain)
  | inr (inl (e, s)) ↦ rw (s, drain)
  | inr (inr (f, r, s)) ↦
      rw (s, drain)
        (ap (λ l. drain n l r) (append_assoc fs gs (f ∷ [])) ∙ drain-prepend n fs (gs ++ f ∷ []) r)
]

drain-push :
    (n : ℕ) (fs : List Frame) (x y : Text)
    → length (x ++ y) < n
    → drain n fs (x ++ y) ≡ prepend fs (push x y)
unfolding push
drain-push n fs x y h =
    ap (λ l. drain n l (x ++ y)) (sym (append-nil fs))
    ∙ drain-prepend n fs [] (x ++ y)
    ∙ ap (prepend fs) (drain_fuel n (suc (length (x ++ y))) [] (x ++ y) h (omega arith))

drain-append :
    (n m : ℕ) (fs : List Frame) (b y : Text)
    → length b < n
    → length (b ++ y) < m
    → drain m fs (b ++ y) ≡ and_then (drain n fs b) y
drain-append zero m fs b y h k = absurd (omega arith)
drain-append (suc n) zero fs b y h k = absurd (omega arith)
drain-append (suc n) (suc m) fs b y h k = elim (Round-cases (round b)) [
  | inl s ↦ drain-push (suc m) fs b y k ∙ ap (λ o. and_then o y) (sym (drain-stop (suc n) fs b s))
  | inr (inl (e, s)) ↦
      drain-fail m fs (b ++ y) e (round-append_fail b y e s)
      ∙ ap (λ o. and_then o y) (sym (drain-fail n fs b e s))
  | inr (inr (f, r, s)) ↦
      drain-emit m fs (b ++ y) f (r ++ y) (round-append_emit b y f r s)
      ∙ drain-append n m (fs ++ f ∷ []) r y (omega (arith, round-emit-lt b f r s))
          (omega (arith, round-emit-lt b f r s, length-append b y, length-append r y))
      ∙ ap (λ o. and_then o y) (sym (drain-emit n fs b f r s))
]

-- One read of `x ++ y` returns what a read of `x` and then one of `y` return together, where an error
-- of the second takes the place of the frames of the first.
pub push-append : (b x y : Text) → push b (x ++ y) ≡ and_then (push b x) y
unfolding push
push-append b x y =
    ap (λ z. drain (suc (length z)) [] z) (sym (append_assoc b x y))
    ∙ drain-append (suc (length (b ++ x))) (suc (length ((b ++ x) ++ y))) [] (b ++ x) y
        (omega arith) (omega arith)

-- What holds of the buffer after a call.
abbrev pub Waits : Outcome → Type 0
Waits (b, success fs) = (round b ≡ stop) × (length b < frame_header_size + max_payload_size)
Waits (b, failure e) = b ≡ []

drain-Waits : (n : ℕ) (fs : List Frame) (b : Text) → length b < n → Waits (drain n fs b)
drain-Waits zero fs b h = absurd (omega arith)
drain-Waits (suc n) fs b h = elim (Round-cases (round b)) [
  | inl s ↦ subst Waits (sym (drain-stop (suc n) fs b s)) (s, round-stop-lt b s)
  | inr (inl (e, s)) ↦ subst Waits (sym (drain-fail n fs b e s)) refl
  | inr (inr (f, r, s)) ↦
      subst Waits (sym (drain-emit n fs b f r s))
        (drain-Waits n (fs ++ f ∷ []) r (omega (arith, round-emit-lt b f r s)))
]

-- A successful call leaves no whole frame in the buffer, which stays shorter than the longest
-- frame whatever the peer sends; a failed call leaves the buffer empty.
pub push-Waits : (b x : Text) → Waits (push b x)
unfolding push
push-Waits b x = drain-Waits (suc (length (b ++ x))) [] (b ++ x) (omega arith)
