-- ===== src/Index/SearchEngine/Ranking.antt =====
-- Scores and the order of hits, in src/index/SearchEngine.cpp. `none` is an access out of range.
use core_desk.Base.{
  ℕ, suc, ◌==◌, ltb, if◌then◌else◌, Bool, true, false, not, ◌&&◌, ◌||◌, List, [], ◌∷◌, ◌++◌, map,
  Option, none, some, length, get_elem?, take, is_nil, text_eq, starts_with, contains,
}
use core_desk.Common.{Text}
use core_desk.Index.Snapshot.{FileRecord, IndexSnapshot, find}
use core_desk.Index.Tokenizer.{normalize_index_text, path_to_index_text, tokenize_path}
use core_desk.Index.SearchEngine.Postings.{text_less, sort}
use core_desk.Base.Eq.{nat_has_eq}

abbrev pub max_query_bytes : ℕ
max_query_bytes = 256

abbrev pub max_limit : ℕ
max_limit = 100

unfoldable pub clamp_limit : ℕ → ℕ
clamp_limit limit = if limit == 0 || ltb max_limit limit then max_limit else limit

pub record SearchHit : Type 0 where
  pub id : ℕ
  pub score : ℕ

pub record RankedHit : Type 0 where
  pub hit : SearchHit
  pub file_name_length : ℕ
  pub normalized_relative_path : Text

abbrev pub normalized_file_name : FileRecord → Text
normalized_file_name record' = normalize_index_text (path_to_index_text record'.file_name)

abbrev pub record_relative_path : FileRecord → Text
record_relative_path record' = normalize_index_text (path_to_index_text record'.relative_path)

-- The set of tokens of a record, as a list.
unfoldable pub record_tokens : FileRecord → List Text
record_tokens record' =
    tokenize_path record'.file_name
    ++ (tokenize_path record'.extension ++ tokenize_path record'.relative_path)

-- `tokens.find(token) != tokens.end()`, and `any_of` the tokens that start with a prefix.
abbrev pub has_token : Text → List Text → Bool
has_token token [] = false
has_token token (t ∷ ts) = text_eq t token || has_token token ts

abbrev pub has_prefix : Text → List Text → Bool
has_prefix prefix' [] = false
has_prefix prefix' (t ∷ ts) = starts_with t prefix' || has_prefix prefix' ts

-- A loop over the query's tokens that returns when a test holds.
abbrev pub any_of : (Text → Bool) → List Text → Bool
any_of test [] = false
any_of test (t ∷ ts) = test t || any_of test ts

unfoldable pub score_index_hit : FileRecord → Text → Text → List Text → ℕ
unfolding record_tokens
score_index_hit record' file_name query query_tokens =
    if text_eq file_name query
    then 100
    else if not (is_nil query) && starts_with file_name query
    then 80
    else if any_of (λ t. has_token t (record_tokens record')) query_tokens
    then 60
    else if any_of (λ t. has_prefix t (record_tokens record')) query_tokens
    then 50
    else 30

unfoldable pub ranked_hit_less : RankedHit → RankedHit → Bool
ranked_hit_less left right =
    if not (left.hit.score == right.hit.score)
    then ltb right.hit.score left.hit.score
    else if not (left.file_name_length == right.file_name_length)
    then ltb left.file_name_length right.file_name_length
    else text_less left.normalized_relative_path right.normalized_relative_path

-- What `make_ranked_hit` makes of the record.
unfoldable pub ranked_record : FileRecord → Text → List Text → ℕ → RankedHit
ranked_record record' query query_tokens fallback_score = record {
  hit = record {
    id = record'.id;
    score =
        if fallback_score == 0
        then score_index_hit record' (normalized_file_name record') query query_tokens
        else fallback_score;
  };
  file_name_length = length (normalized_file_name record');
  normalized_relative_path = record_relative_path record';
}

unfoldable pub make_ranked_hit : IndexSnapshot → ℕ → Text → List Text → ℕ → Option RankedHit
make_ranked_hit snapshot pos query query_tokens fallback_score =
    elim (get_elem? snapshot.records pos) [
      | none ↦ none
      | some record' ↦ some (ranked_record record' query query_tokens fallback_score)
    ]

-- Sorting all and keeping the first `limit` is `partial_sort` and `resize`.
unfoldable pub top_hits : List RankedHit → ℕ → List SearchHit
top_hits ranked limit = map (λ h. h.hit) (take limit (sort ranked_hit_less ranked))

abbrev pub push_hit : Option RankedHit → Option (List RankedHit) → Option (List RankedHit)
push_hit none rest = none
push_hit (some hit) none = none
push_hit (some hit) (some hits) = some (hit ∷ hits)

-- The loop of `build_index_hits`.
unfoldable pub rank_candidates : IndexSnapshot → Text → List Text → List ℕ → Option (List RankedHit)
rank_candidates snapshot query query_tokens [] = some []
rank_candidates snapshot query query_tokens (id ∷ ids) =
    let rest = rank_candidates snapshot query query_tokens ids in
    elim (find id snapshot.id_to_pos) [
      | none ↦ rest
      | some pos ↦ push_hit (make_ranked_hit snapshot pos query query_tokens 0) rest
    ]

-- The loop of `build_substring_hits`, at a position and with the number of hits it has.
unfoldable pub rank_names : IndexSnapshot → Text → List Text → ℕ → ℕ → Option (List RankedHit)
rank_names snapshot query [] pos ranked = some []
rank_names snapshot query (name ∷ names) pos ranked = elim (ltb ranked max_limit) [
  | false ↦ some []
  | true ↦ elim (contains name query) [
    | false ↦ rank_names snapshot query names (suc pos) ranked
    | true ↦
        push_hit (make_ranked_hit snapshot pos query [] 30)
          (rank_names snapshot query names (suc pos) (suc ranked))
  ]
]

abbrev pub all_top_hits : Option (List RankedHit) → ℕ → Option (List SearchHit)
all_top_hits none limit = none
all_top_hits (some ranked) limit = some (top_hits ranked limit)

abbrev pub build_index_hits :
    IndexSnapshot → List ℕ → Text → List Text → ℕ → Option (List SearchHit)
build_index_hits snapshot candidates query query_tokens limit =
    all_top_hits (rank_candidates snapshot query query_tokens candidates) limit

abbrev pub build_substring_hits : IndexSnapshot → Text → ℕ → Option (List SearchHit)
build_substring_hits snapshot query limit =
    all_top_hits (rank_names snapshot query snapshot.normalized_names 0 0) limit
