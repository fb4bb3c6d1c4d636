-- ===== src/Index/SearchEngine/Engine.antt =====
-- `SearchEngine` of src/index/SearchEngine.cpp. The outer `none` of a result is an access out of
-- range or a dangling iterator.
use core_desk.Base.{
  ℕ, ◌==◌, ltb, if◌then◌else◌, Bool, true, false, List, [], ◌∷◌, Option, none, some, length, is_nil,
}
use core_desk.Base.Eq.{text_has_eq}
use core_desk.Common.{Text, text, Result, success, failure, invalid}
use core_desk.Index.LruCache.{LruCache, get, put, clear}
use core_desk.Index.LruCache
use core_desk.Index.Snapshot.{IndexSnapshot}
use core_desk.Index.Tokenizer.{normalize_index_text, trim_ascii, tokenize}
use core_desk.Index.SearchEngine.Postings.{candidates}
use core_desk.Index.SearchEngine.Ranking.{
  SearchHit, max_query_bytes, clamp_limit, build_index_hits, build_substring_hits,
}
use core_desk.Index.SearchEngine.Key.{make_cache_key}

pub record SearchRequest : Type 0 where
  pub query_utf8 : Text
  pub limit : ℕ

pub record SearchResponse : Type 0 where
  pub generation : ℕ
  pub hits : List SearchHit
  pub elapsed : ℕ
  pub from_cache : Bool

pub record CachedSearch : Type 0 where
  pub generation : ℕ
  pub hits : List SearchHit

pub record SearchEngine : Type 0 where
  pub cache : LruCache Text CachedSearch

unfoldable pub make : ℕ → SearchEngine
make cache_capacity = record { cache = LruCache.make cache_capacity }

unfoldable pub clear_cache : SearchEngine → SearchEngine
clear_cache engine = record { cache = clear engine.cache }

-- The hits that `search` computes when the cache has none.
unfoldable pub compute_hits : IndexSnapshot → Text → List Text → ℕ → Option (List SearchHit)
compute_hits snapshot query query_tokens limit = elim (candidates snapshot query_tokens) [
  | [] ↦ build_substring_hits snapshot query limit
  | id ∷ ids ↦ build_index_hits snapshot (id ∷ ids) query query_tokens limit
]

abbrev pub no_hits : IndexSnapshot → ℕ → SearchResponse
no_hits snapshot elapsed = record {
  generation = snapshot.generation;
  hits = [];
  elapsed = elapsed;
  from_cache = false;
}

-- `search` from the tokens on.
unfoldable pub search_index :
    SearchEngine → IndexSnapshot → Text → ℕ → ℕ → Option (SearchEngine × Result SearchResponse)
search_index engine snapshot query limit elapsed = elim (tokenize query) [
  | [] ↦ some (engine, success (no_hits snapshot elapsed))
  | token ∷ tokens ↦ elim (compute_hits snapshot query (token ∷ tokens) limit) [
    | none ↦ none
    | some hits ↦
        elim (put engine.cache (make_cache_key query limit)
          (record { generation = snapshot.generation; hits = hits })) [
            | none ↦ none
            | some cache ↦ some (
              record { cache = cache },
              success (record {
                generation = snapshot.generation;
                hits = hits;
                elapsed = elapsed;
                from_cache = false;
              }),
            )
          ]
  ]
]

-- `search` from the cache on. A hit of another generation empties the cache.
unfoldable pub search_cached :
    SearchEngine → IndexSnapshot → Text → ℕ → ℕ → Option (SearchEngine × Result SearchResponse)
search_cached engine snapshot query limit elapsed =
    elim (get engine.cache (make_cache_key query limit)) [
      | none ↦ none
      | some (cache, none) ↦ search_index (record { cache = cache }) snapshot query limit elapsed
      | some (cache, some cached) ↦
          if cached.generation == snapshot.generation
          then some (
            record { cache = cache },
            success (record {
              generation = snapshot.generation;
              hits = cached.hits;
              elapsed = elapsed;
              from_cache = true;
            }),
          )
          else search_index (record { cache = clear cache }) snapshot query limit elapsed
    ]

-- `search`, with the time that the clock measures.
unfoldable pub search :
    SearchEngine → IndexSnapshot → SearchRequest → ℕ → Option (SearchEngine × Result SearchResponse)
search engine snapshot request elapsed =
    let query = normalize_index_text (trim_ascii request.query_utf8) in
    if ltb max_query_bytes (length request.query_utf8)
    then some (engine, failure (invalid (text "search query is too long")))
    else if is_nil query
    then some (engine, success (no_hits snapshot elapsed))
    else search_cached engine snapshot query (clamp_limit request.limit) elapsed
