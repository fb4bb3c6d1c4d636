-- ===== src/Index/Tokenizer.antt =====
-- src/index/Tokenizer.cpp. A byte is a number; a path is its generic UTF-8 text.
pub mod Laws
pub mod Trim
pub mod Examples
use core_desk.Base.{
  ℕ, suc, ◌+◌, ◌-◌, ◌==◌, ltb, leb, if◌then◌else◌, Bool, true, false, ◌&&◌, ◌||◌, List, [], ◌∷◌,
  ◌++◌, map, reverse, length, is_nil,
}
use core_desk.Common.{Text}

abbrev pub max_token_bytes : ℕ
max_token_bytes = 128

-- ' ' '.' '_' '-' '/' '\\' '(' ')' '[' ']' '{' '}'.
unfoldable pub is_separator : ℕ → Bool
is_separator ch =
    ch == b' '
    || ch == b'.'
    || ch == b'_'
    || ch == b'-'
    || ch == b'/'
    || ch == 92
    || ch == b'('
    || ch == b')'
    || ch == b'['
    || ch == b']'
    || ch == b'{'
    || ch == b'}'

-- ' ' '\t' '\n' '\r' '\f' '\v'.
unfoldable pub is_ascii_space : ℕ → Bool
is_ascii_space ch = ch == b' ' || ch == 9 || ch == 10 || ch == 13 || ch == 12 || ch == 11

unfoldable pub ascii_lower : ℕ → ℕ
ascii_lower ch = if leb b'A' ch && leb ch b'Z' then ch - b'A' + b'a' else ch

-- The bytes of `generic_u8string()`, copied one by one.
abbrev pub path_to_index_text : Text → Text
path_to_index_text [] = []
path_to_index_text (ch ∷ path) = ch ∷ path_to_index_text path

abbrev pub normalize_index_text : Text → Text
normalize_index_text = map ascii_lower

-- `first` walks over the spaces.
pub skip_spaces : Text → Text
skip_spaces [] = []
skip_spaces (ch ∷ text) = if is_ascii_space ch then skip_spaces text else ch ∷ text

-- `last` walks back over the spaces, from the end to `first`.
unfoldable pub trim_ascii : Text → Text
unfolding skip_spaces
trim_ascii text = reverse (skip_spaces (reverse (skip_spaces text)))

-- The token that `flush` pushes, if there is one.
abbrev pub flush : Text → List Text
flush [] = []
flush (ch ∷ current) = (ch ∷ current) ∷ []

-- The bytes that the loop still reads, with the token it has begun.
pub tokenize_from : Text → Text → List Text
unfolding is_separator ascii_lower
tokenize_from current [] = flush current
tokenize_from current (ch ∷ text) = elim (is_separator ch) [
  | true ↦ flush current ++ tokenize_from [] text
  | false ↦
      tokenize_from
        (if ltb (length current) max_token_bytes then current ++ ascii_lower ch ∷ [] else current)
        text
]

unfoldable pub tokenize : Text → List Text
unfolding tokenize_from
tokenize text = tokenize_from [] text

abbrev pub tokenize_path : Text → List Text
tokenize_path path = tokenize (path_to_index_text path)
