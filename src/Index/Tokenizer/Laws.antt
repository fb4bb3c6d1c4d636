-- ===== src/Index/Tokenizer/Laws.antt =====
-- Tokens and the words of a text.
use core_desk.Base.{
  ℕ, zero, suc, ◌≤◌, ◌<◌, ltb, if◌then◌else◌, ◌≡◌, ◌≢◌, ◌⊎◌, refl, sym, ap, ◌∙◌, subst, Bool-cases,
  inl, inr, true, false, List, [], ◌∷◌, ◌++◌, map, length, take, All, arith, lt→ltb, take_whole,
  append-nil,
}
use core_desk.Common.{Text}
use core_desk.Index.Tokenizer.{
  max_token_bytes, is_separator, ascii_lower, normalize_index_text, flush, tokenize_from, tokenize,
}

-- The words between the separators of a text; some are empty. `word` is what was read of the first.
abbrev pub words_from : Text → Text → List Text
words_from word [] = word ∷ []
words_from word (ch ∷ text) = elim (is_separator ch) [
  | true ↦ word ∷ words_from [] text
  | false ↦ words_from (word ++ ch ∷ []) text
]

-- What is kept of a word: its first 128 bytes in lower case.
abbrev pub token_of : Text → Text
token_of word = map ascii_lower (take max_token_bytes word)

abbrev pub tokens_of : List Text → List Text
tokens_of [] = []
tokens_of (word ∷ ws) = flush (token_of word) ++ tokens_of ws

-- One more byte of a word.
map-take_snoc {ℓ κ} :
    {A : Type ℓ} {B : Type κ} (f : A → B) (n : ℕ) (xs : List A) (x : A)
    → map f (take n (xs ++ x ∷ [])) ≡ (
        if ltb (length (map f (take n xs))) n
        then map f (take n xs) ++ f x ∷ []
        else map f (take n xs))
map-take_snoc f zero xs x = refl
map-take_snoc f (suc n) [] x =
    rw (lt→ltb 0 (suc n) (omega arith)) (ap (λ xs. f x ∷ map f xs) (take_whole [] n (omega arith)))
map-take_snoc f (suc n) (y ∷ xs) x = ground (arith, map-take_snoc f n xs x)

ascii_lower_idem : (ch : ℕ) → ascii_lower (ascii_lower ch) ≡ ascii_lower ch
unfolding ascii_lower
ascii_lower_idem ch = ground arith

is_separator-ascii_lower : (ch : ℕ) → is_separator (ascii_lower ch) ≡ is_separator ch
unfolding is_separator ascii_lower
is_separator-ascii_lower ch = ground arith

tokenize_from_words :
    (text word : Text) → tokenize_from (token_of word) text ≡ tokens_of (words_from word text)
unfolding tokenize_from
tokenize_from_words [] word = sym (append-nil (flush (token_of word)))
tokenize_from_words (ch ∷ text) word = elim (Bool-cases (is_separator ch)) [
  | inl t ↦
      rw (t, tokenize_from, words_from)
        (ap (λ x. flush (token_of word) ++ x) (tokenize_from_words text []))
  | inr f ↦
      rw (f, tokenize_from, words_from)
        (ap (λ x. tokenize_from x text) (sym (map-take_snoc ascii_lower max_token_bytes word ch))
          ∙ tokenize_from_words text (word ++ ch ∷ []))
]

-- The tokens of a text are its words between separators, each in lower case and cut to 128 bytes,
-- without the empty ones.
pub tokenize-words : (text : Text) → tokenize text ≡ tokens_of (words_from [] text)
unfolding tokenize
tokenize-words text = tokenize_from_words text []

-- The bytes of " ._-/\\()[]{}".
abbrev pub separators : Text
separators = 32 ∷ 46 ∷ 95 ∷ 45 ∷ 47 ∷ 92 ∷ 40 ∷ 41 ∷ 91 ∷ 93 ∷ 123 ∷ 125 ∷ []

-- A byte of a token: it is not one of A to Z, 65 to 90, and not one of the separators.
pub record IsClean (ch : ℕ) : Type 0 where
  pub not_upper : (ch < 65) ⊎ (90 < ch)
  pub not_separator : All (λ sep. ch ≢ sep) separators

-- What the index holds: a token is not empty, not longer than 128 bytes, without upper-case letters
-- and without separators.
pub record IsToken (t : Text) : Type 0 where
  pub nonempty : 0 < length t
  pub short : length t ≤ 128
  pub clean : All IsClean t

ascii_lower-not_upper : (ch : ℕ) → (ascii_lower ch < 65) ⊎ (90 < ascii_lower ch)
unfolding ascii_lower
ascii_lower-not_upper ch = ground arith

is_separator-apart : (ch : ℕ) → is_separator ch ≡ false → All (λ sep. ch ≢ sep) separators
unfolding is_separator
is_separator-apart ch h = ground (arith, h)

ascii_lower-IsClean : (ch : ℕ) → is_separator ch ≡ false → IsClean (ascii_lower ch)
ascii_lower-IsClean ch h = record {
  not_upper = ascii_lower-not_upper ch;
  not_separator = is_separator-apart (ascii_lower ch) (is_separator-ascii_lower ch ∙ h);
}

All_snoc {ℓ κ} :
    {A : Type ℓ} (P : A → Type κ) (xs : List A) (x : A) → All P xs → P x → All P (xs ++ x ∷ [])
All_snoc P [] x a p = (p, tt)
All_snoc P (y ∷ xs) x a p = (a.0, All_snoc P xs x a.1 p)

words_from-All :
    (text word : Text)
    → All (λ ch. is_separator ch ≡ false) word
    → All (All (λ ch. is_separator ch ≡ false)) (words_from word text)
words_from-All [] word a = (a, tt)
words_from-All (ch ∷ text) word a = elim (Bool-cases (is_separator ch)) [
  | inl t ↦ rw (t, words_from) (a, words_from-All text [] tt)
  | inr f ↦
      rw (f, words_from)
        (words_from-All text (word ++ ch ∷ []) (All_snoc (λ c. is_separator c ≡ false) word ch a f))
]

token_of-IsClean :
    (n : ℕ) (word : Text)
    → All (λ ch. is_separator ch ≡ false) word
    → All IsClean (map ascii_lower (take n word))
token_of-IsClean zero word a = tt
token_of-IsClean (suc n) [] a = tt
token_of-IsClean (suc n) (ch ∷ word) a = (ascii_lower-IsClean ch a.0, token_of-IsClean n word a.1)

length-token_of : (n : ℕ) (word : Text) → length (map ascii_lower (take n word)) ≤ n
length-token_of zero word = omega arith
length-token_of (suc n) [] = omega arith
length-token_of (suc n) (ch ∷ word) = omega (arith, length-token_of n word)

flush-IsToken : (t : Text) → length t ≤ max_token_bytes → All IsClean t → All IsToken (flush t)
flush-IsToken [] short a = tt
flush-IsToken (ch ∷ t) short a = (record { nonempty = omega arith; short = short; clean = a }, tt)

All-append {ℓ κ} :
    {A : Type ℓ} (P : A → Type κ) (xs ys : List A) → All P xs → All P ys → All P (xs ++ ys)
All-append P [] ys a b = b
All-append P (x ∷ xs) ys a b = (a.0, All-append P xs ys a.1 b)

tokens_of-IsToken :
    (ws : List Text) → All (All (λ ch. is_separator ch ≡ false)) ws → All IsToken (tokens_of ws)
tokens_of-IsToken [] a = tt
tokens_of-IsToken (w ∷ ws) a =
    All-append IsToken (flush (token_of w)) (tokens_of ws)
      (flush-IsToken (token_of w) (length-token_of max_token_bytes w)
        (token_of-IsClean max_token_bytes w a.0))
      (tokens_of-IsToken ws a.1)

-- Each token of a text has 1 to 128 bytes, none of them one of the letters A to Z (65 to 90) or of the
-- separators, a space and the characters ._-/\()[]{}.
pub tokenize-IsToken : (text : Text) → All IsToken (tokenize text)
tokenize-IsToken text =
    subst (All IsToken) (sym (tokenize-words text))
      (tokens_of-IsToken (words_from [] text) (words_from-All text [] tt))

tokenize_from-normalize :
    (text current : Text)
    → tokenize_from current (normalize_index_text text) ≡ tokenize_from current text
unfolding tokenize_from
tokenize_from-normalize [] current = refl
tokenize_from-normalize (ch ∷ text) current = elim (Bool-cases (is_separator ch)) [
  | inl t ↦
      rw (is_separator-ascii_lower ch, t, tokenize_from)
        (ap (λ x. flush current ++ x) (tokenize_from-normalize text []))
  | inr f ↦
      rw (is_separator-ascii_lower ch, f, ascii_lower_idem ch, tokenize_from)
        (tokenize_from-normalize text (
          if ltb (length current) max_token_bytes then current ++ ascii_lower ch ∷ [] else current))
]

-- A normalized text has the same tokens.
pub tokenize-normalize_index_text :
    (text : Text) → tokenize (normalize_index_text text) ≡ tokenize text
unfolding tokenize
tokenize-normalize_index_text text = tokenize_from-normalize text []
