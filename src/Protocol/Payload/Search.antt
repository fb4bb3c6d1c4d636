-- ===== src/Protocol/Payload/Search.antt =====
-- The payloads of a search: SearchRequest and SearchResponse with its results.
pub mod RoundTrip
use core_desk.Base.Int.{ℤ, pos}
use core_desk.Base.{
  ℕ, Bool, ◌||◌, String, List, [], ◌∷◌, Option, none, some, text_eq, if◌then◌else◌,
}
use core_desk.Common.{Result, success, failure, ◌>>=◌, Text, text, invalid, check, require}
use core_desk.Protocol.Json.{JsonLibrary}
use core_desk.Protocol.Json.Fields.{
  missing_or_wrong_type, require_object, required_string, required_bool, required_u64,
  required_size, required_i64, required_int, dump_json, decode_payload,
}

pub record SearchRequestPayload : Type 0 where
  pub query : Text
  pub limit : ℕ

pub record SearchResultPayload : Type 0 where
  pub name : Text
  pub path : Text
  pub relative_path : Text
  pub size : ℕ
  pub modified_ms : ℤ
  pub type : Text
  pub score : ℤ

pub record SearchResponsePayload : Type 0 where
  pub generation : ℕ
  pub stale : Bool
  pub elapsed_us : ℕ
  pub from_cache : Bool
  pub results : List SearchResultPayload

unfoldable pub is_valid_result_type : Text → Bool
is_valid_result_type type =
    text_eq type (text "file")
    || text_eq type (text "directory")
    || text_eq type (text "symlink")
    || text_eq type (text "other")

module _ (lib : JsonLibrary) where
  open lib use {Json, object, array, string, boolean, integer}

  unfoldable pub encode_search_request_payload : SearchRequestPayload → Result Text
  encode_search_request_payload payload =
      dump_json lib
        (object (("query", string payload.query) ∷ ("limit", integer (pos payload.limit)) ∷ []))

  unfoldable pub decode_search_request_payload : Text → Result SearchRequestPayload
  decode_search_request_payload bytes = decode_payload lib bytes λ json. do
    query ← required_string lib json "query"
    limit ← required_size lib json "limit"
    success (record { query = query; limit = limit })

  abbrev pub result_members : SearchResultPayload → List (String × Json)
  result_members result =
      ("name", string result.name)
      ∷ ("path", string result.path)
      ∷ ("relative_path", string result.relative_path)
      ∷ ("size", integer (pos result.size))
      ∷ ("modified_ms", integer result.modified_ms)
      ∷ ("type", string result.type)
      ∷ ("score", integer result.score)
      ∷ []

  -- The loop of `encode_search_response_payload` over the results.
  pub encode_results : List SearchResultPayload → Result (List Json)
  encode_results [] = success []
  encode_results (result ∷ rest) =
      check (require (is_valid_result_type result.type) (text "invalid result type"))
        (do jsons ← encode_results rest; success (object (result_members result) ∷ jsons))

  abbrev pub response_members : SearchResponsePayload → List Json → List (String × Json)
  response_members payload results =
      ("generation", integer (pos payload.generation))
      ∷ ("stale", boolean payload.stale)
      ∷ ("elapsed_us", integer (pos payload.elapsed_us))
      ∷ ("from_cache", boolean payload.from_cache)
      ∷ ("results", array results)
      ∷ []

  unfoldable pub encode_search_response_payload : SearchResponsePayload → Result Text
  unfolding encode_results
  encode_search_response_payload payload = do
    results ← encode_results payload.results
    dump_json lib (object (response_members payload results))

  -- One round of the loop of `decode_search_response_payload`.
  pub decode_result : Json → Result SearchResultPayload
  decode_result item = check (require_object lib item) (do
    name ← required_string lib item "name"
    path ← required_string lib item "path"
    relative_path ← required_string lib item "relative_path"
    size ← required_u64 lib item "size"
    modified_ms ← required_i64 lib item "modified_ms"
    type ← required_string lib item "type"
    score ← required_int lib item "score"
    check (require (is_valid_result_type type) (text "invalid result type")) (
        success (record {
          name = name;
          path = path;
          relative_path = relative_path;
          size = size;
          modified_ms = modified_ms;
          type = type;
          score = score;
        })))

  pub decode_results : List Json → Result (List SearchResultPayload)
  unfolding decode_result
  decode_results [] = success []
  decode_results (item ∷ rest) = do
    result ← decode_result item
    results ← decode_results rest
    success (result ∷ results)

  -- `results_it == json.end() || !results_it->is_array()`, and the items otherwise.
  pub required_results : Json → Result (List Json)
  required_results json = elim (lib.find json "results") [
    | none ↦ missing_or_wrong_type "results"
    | some it ↦ elim (lib.as_array it) [
      | none ↦ missing_or_wrong_type "results"
      | some items ↦ success items
    ]
  ]

  unfoldable pub decode_search_response_payload : Text → Result SearchResponsePayload
  unfolding decode_results required_results
  decode_search_response_payload bytes = decode_payload lib bytes λ json. do
    generation ← required_u64 lib json "generation"
    stale ← required_bool lib json "stale"
    elapsed_us ← required_u64 lib json "elapsed_us"
    from_cache ← required_bool lib json "from_cache"
    items ← required_results json
    results ← decode_results items
    success (record {
      generation = generation;
      stale = stale;
      elapsed_us = elapsed_us;
      from_cache = from_cache;
      results = results;
    })
