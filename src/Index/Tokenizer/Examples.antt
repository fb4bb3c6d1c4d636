-- ===== src/Index/Tokenizer/Examples.antt =====
-- Tokens of texts written out.
use core_desk.Base.{◌≡◌, refl, [], ◌∷◌, ◌++◌, reverse, All}
use core_desk.Common.{Text, text}
use core_desk.Index.Tokenizer.{trim_ascii, tokenize, normalize_index_text}
use core_desk.Index.Tokenizer.Laws.{
  words_from, tokens_of, IsToken, tokenize-words, tokenize-IsToken, tokenize-normalize_index_text,
}
use core_desk.Index.Tokenizer.Trim.{Spaces, IsBare, trim_ascii-parts}

abbrev report : Text
report = text "src/My-Report (v2).TXT"

report_tokens :
    tokenize report ≡ text "src" ∷ text "my" ∷ text "report" ∷ text "v2" ∷ text "txt" ∷ []
unfolding tokenize text
report_tokens = refl

tokenize-words_example : tokenize report ≡ tokens_of (words_from [] report)
tokenize-words_example = tokenize-words report

tokenize-IsToken_example : All IsToken (tokenize report)
tokenize-IsToken_example = tokenize-IsToken report

tokenize-normalize_index_text_example : tokenize (normalize_index_text report) ≡ tokenize report
tokenize-normalize_index_text_example = tokenize-normalize_index_text report

abbrev padded : Text
padded = 32 ∷ 9 ∷ 97 ∷ 32 ∷ 98 ∷ 10 ∷ []

trim_ascii-parts_example :
    (pre : Text) × (post : Text) × (padded ≡ pre ++ (trim_ascii padded ++ post))
    × Spaces pre
    × Spaces post
    × IsBare (trim_ascii padded)
    × IsBare (reverse (trim_ascii padded))
trim_ascii-parts_example = trim_ascii-parts padded
