-- ===== src/Index/Tokenizer/Trim.antt =====
-- `trim_ascii` of src/index/Tokenizer.cpp.
use mathlib.Core.List.{reverse-append, reverse-reverse, reverse-cons}
use core_desk.Base.{
  ℕ, ◌≡◌, refl, sym, ap, ◌∙◌, subst, Bool-cases, inl, inr, true, false, [], ◌∷◌, ◌++◌, reverse, All,
}
use core_desk.Common.{Text}
use core_desk.Index.Tokenizer.{is_ascii_space, skip_spaces, trim_ascii}

abbrev pub Spaces : Text → Type 0
Spaces = All λ ch. is_ascii_space ch ≡ true

-- A text that does not begin with a space.
abbrev pub IsBare : Text → Type 0
IsBare [] = Unit
IsBare (ch ∷ text) = is_ascii_space ch ≡ false

IsBare-append : (s t : Text) → IsBare (s ++ t) → IsBare s
IsBare-append [] t h = tt
IsBare-append (ch ∷ s) t h = h

Spaces-snoc : (s : Text) (ch : ℕ) → Spaces s → is_ascii_space ch ≡ true → Spaces (s ++ ch ∷ [])
Spaces-snoc [] ch a h = (h, tt)
Spaces-snoc (x ∷ s) ch a h = (a.0, Spaces-snoc s ch a.1 h)

Spaces-reverse : (s : Text) → Spaces s → Spaces (reverse s)
Spaces-reverse [] a = tt
Spaces-reverse (ch ∷ s) a =
    subst Spaces (sym (reverse-cons ch s)) (Spaces-snoc (reverse s) ch (Spaces-reverse s a.1) a.0)

skip_spaces_lem :
    (text : Text)
    → (pre : Text) × (text ≡ pre ++ skip_spaces text) × Spaces pre × IsBare (skip_spaces text)
unfolding skip_spaces
skip_spaces_lem [] = ([], refl, tt, tt)
skip_spaces_lem (ch ∷ text) = elim (Bool-cases (is_ascii_space ch)) [
  | inl t ↦
      let (pre, whole, spaces, bare) = skip_spaces_lem text in
      rw (t, skip_spaces) (ch ∷ pre, ap (◌∷◌ ch) whole, (t, spaces), bare)
  | inr f ↦ rw (f, skip_spaces) ([], refl, tt, f)
]

-- Trimming a text cuts spaces off both its ends, and all of them: what is left neither begins nor
-- ends with a space.
pub trim_ascii-parts :
    (text : Text)
    → (pre : Text) × (post : Text) × (text ≡ pre ++ (trim_ascii text ++ post))
      × Spaces pre
      × Spaces post
      × IsBare (trim_ascii text)
      × IsBare (reverse (trim_ascii text))
unfolding trim_ascii
trim_ascii-parts text =
    let (pre, whole, spaces, bare) = skip_spaces_lem text in
    let u = skip_spaces text in
    let (cut, back, spaces', bare') = skip_spaces_lem (reverse u) in
    let s = skip_spaces (reverse u) in
    let u_parts : u ≡ reverse s ++ reverse cut =
      sym (reverse-reverse u) ∙ ap reverse back ∙ reverse-append cut s in
    (
      pre,
      reverse cut,
      whole ∙ ap (λ x. pre ++ x) u_parts,
      spaces,
      Spaces-reverse cut spaces',
      IsBare-append (reverse s) (reverse cut) (subst IsBare u_parts bare),
      subst IsBare (sym (reverse-reverse s)) bare',
    )
