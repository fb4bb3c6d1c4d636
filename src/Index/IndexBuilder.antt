-- ===== src/Index/IndexBuilder.antt =====
-- src/index/IndexBuilder.cpp. `cancelled n` is what the cancellation token says when the build asks
-- it for the n-th time. A hash map is the list of its entries, in the order in which it is read.
pub mod Bounds
pub mod Postings
pub mod Order
use core_desk.Base.{
  ℕ, suc, ◌+◌, ◌%◌, ◌^◌, ◌==◌, ltb, if◌then◌else◌, Bool, true, false, ◌||◌, List, [], ◌∷◌, ◌++◌,
  map, length,
}
use core_desk.Base.Eq.{Eq, text_has_eq, nat_has_eq}
use core_desk.Common.{Text, text, ErrorCode, Error, Result, success, failure, ◌>>=◌}
use core_desk.Index.Snapshot.{FileRecord, IndexSnapshot}
use core_desk.Index.Tokenizer.{normalize_index_text, path_to_index_text, tokenize_path}
use core_desk.Index.SearchEngine.Postings.{text_less, sort, unique}

-- `filesystem::ScanOutput`, what the build uses of it.
pub record ScanOutput : Type 0 where
  pub root : Text
  pub records : List FileRecord

abbrev pub build_cancelled : Error
build_cancelled = record { code = ErrorCode.cancelled; message = text "index build cancelled" }

abbrev pub normalized_record_name : FileRecord → Text
normalized_record_name record' =
    normalize_index_text
      (path_to_index_text record'.file_name ++ 32 ∷ path_to_index_text record'.relative_path)

-- `set.insert(id)` of a set of numbers.
abbrev pub insert_id : ℕ → List ℕ → List ℕ
insert_id id [] = id ∷ []
insert_id id (x ∷ xs) = if x == id then x ∷ xs else x ∷ insert_id id xs

-- `token_sets[token].insert(id)`.
abbrev pub add_token : Text → ℕ → List (Text × List ℕ) → List (Text × List ℕ)
add_token token id [] = (token, id ∷ []) ∷ []
add_token token id ((t, ids) ∷ sets) =
    if text_has_eq.beq t token
    then (t, insert_id id ids) ∷ sets
    else (t, ids) ∷ add_token token id sets

abbrev pub add_tokens : List Text → ℕ → List (Text × List ℕ) → List (Text × List ℕ)
add_tokens [] id sets = sets
add_tokens (token ∷ tokens) id sets = add_tokens tokens id (add_token token id sets)

abbrev pub add_tokens_for_path : List (Text × List ℕ) → Text → ℕ → List (Text × List ℕ)
add_tokens_for_path sets path id = add_tokens (tokenize_path path) id sets

-- The snapshot and the token sets while the records are read.
pub record Building : Type 0 where
  pub records : List FileRecord
  pub id_to_pos : List (ℕ × ℕ)
  pub normalized_names : List Text
  pub token_sets : List (Text × List ℕ)

-- The body of the loop over the records.
unfoldable pub add_record : ℕ → FileRecord → Building → Building
add_record pos record' b =
    let id = (pos + 1) % 2 ^ 64 in
    let sets = add_tokens_for_path b.token_sets record'.file_name id in
    let sets = add_tokens_for_path sets record'.extension id in
    record {
      records = b.records ++ record record' { id = id } ∷ [];
      id_to_pos = (id, pos) ∷ b.id_to_pos;
      normalized_names = b.normalized_names ++ normalized_record_name record' ∷ [];
      token_sets = add_tokens_for_path sets record'.relative_path id;
    }

unfoldable pub add_records : (ℕ → Bool) → ℕ → List FileRecord → Building → Result Building
unfolding add_record
add_records cancelled pos [] b = success b
add_records cancelled pos (r ∷ rs) b =
    if cancelled (suc pos)
    then failure build_cancelled
    else add_records cancelled (suc pos) rs (add_record pos r b)

-- The loop over the token sets.
unfoldable pub make_postings : (ℕ → Bool) → ℕ → List (Text × List ℕ) → Result (List (Text × List ℕ))
make_postings cancelled poll [] = success []
make_postings cancelled poll ((token, ids) ∷ sets) =
    if cancelled poll
    then failure build_cancelled
    else make_postings cancelled (suc poll) sets >>= λ rest. success ((token, sort ltb ids) ∷ rest)

abbrev pub empty_building : Building
empty_building = record { records = []; id_to_pos = []; normalized_names = []; token_sets = [] }

-- The snapshot at the end of `build`.
abbrev pub snapshot_of : ℕ → ScanOutput → Building → List (Text × List ℕ) → IndexSnapshot
snapshot_of generation scan b postings = record {
  generation = generation;
  root = scan.root;
  records = b.records;
  id_to_pos = b.id_to_pos;
  token_index = postings;
  sorted_tokens = unique (sort text_less (map (λ e. e.0) b.token_sets));
  normalized_names = b.normalized_names;
}

unfoldable pub build : ℕ → ScanOutput → (ℕ → Bool) → Result IndexSnapshot
unfolding add_records make_postings
build generation scan cancelled =
    if cancelled 0
    then failure build_cancelled
    else add_records cancelled 0 scan.records empty_building >>= λ b.
        make_postings cancelled (suc (length scan.records)) b.token_sets >>= λ postings.
        success (snapshot_of generation scan b postings)
