-- ===== src/Index/SearchEngine/Coherence.antt =====
-- The cache of the search engine: what it holds is what the search would compute.
use core_desk.Base.{
  ℕ, ◌==◌, ==→≡, ltb, if◌then◌else◌, ◌≡◌, refl, sym, ap, ◌∙◌, subst, Bool-cases, Option-cases, inl,
  inr, true, false, List, [], ◌∷◌, Option, none, some, length, All, arith, is_nil,
}
use core_desk.Base.Eq.{text_has_eq}
use core_desk.Common.{Text, text, Result, success, failure, invalid}
use core_desk.Index.LruCache.{LruCache, clear, get, put}
use core_desk.Index.LruCache
use core_desk.Index.LruCache.Nodes.{view}
use core_desk.Index.LruCache.Spec.{lookup}
use core_desk.Index.LruCache.Moves.{IsValid, make-IsValid, clear-IsValid, get-Moves}
use core_desk.Index.LruCache.Refines.{put-Moves}
use core_desk.Index.LruCache.Kept.{All-lookup, All-recent_get, All-recent_put}
use core_desk.Index.Snapshot.{IndexSnapshot}
use core_desk.Index.Tokenizer.{normalize_index_text, trim_ascii, tokenize}
use core_desk.Index.SearchEngine.Ranking.{SearchHit, max_query_bytes, clamp_limit}
use core_desk.Index.SearchEngine.Key.{make_cache_key, make_cache_key-injective}
use core_desk.Index.SearchEngine.Engine.{
  SearchRequest, SearchResponse, CachedSearch, SearchEngine, make, clear_cache, compute_hits,
  no_hits, search_index, search_cached, search,
}
use core_desk.Index.SearchEngine.Bounds.{IsIndexed, compute_hits-some}

-- The hits of a search without a cache.
unfoldable pub uncached_hits : IndexSnapshot → Text → ℕ → Option (List SearchHit)
uncached_hits snapshot query limit = elim (tokenize query) [
  | [] ↦ some []
  | token ∷ tokens ↦ compute_hits snapshot query (token ∷ tokens) limit
]

-- A search without a cache: the generation and the hits.
unfoldable pub uncached_search :
    IndexSnapshot → SearchRequest → Option (Result (ℕ × List SearchHit))
uncached_search snapshot request =
    let query = normalize_index_text (trim_ascii request.query_utf8) in
    if ltb max_query_bytes (length request.query_utf8)
    then some (failure (invalid (text "search query is too long")))
    else if is_nil query
    then some (success (snapshot.generation, []))
    else elim (uncached_hits snapshot query (clamp_limit request.limit)) [
      | none ↦ none
      | some hits ↦ some (success (snapshot.generation, hits))
    ]

-- What a response says of the index.
abbrev pub answer : Result SearchResponse → Result (ℕ × List SearchHit)
answer (failure e) = failure e
answer (success r) = success (r.generation, r.hits)

-- `snapshots` is the snapshot of each generation.
module _ (snapshots : ℕ → IndexSnapshot) (named : (g : ℕ) → (snapshots g).generation ≡ g)
    (indexed : (g : ℕ) → IsIndexed (snapshots g)) where
  pub Agrees : Text × CachedSearch → Type 0
  Agrees e =
      (query : Text) (limit : ℕ)
      → make_cache_key query limit ≡ e.0
      → uncached_hits (snapshots e.1.generation) query limit ≡ some e.1.hits

  pub record IsCoherent (engine : SearchEngine) : Type 0 where
    pub valid : IsValid engine.cache
    pub agrees : All Agrees (view engine.cache.items)

  -- A call of the engine that answers as a search without a cache does.
  abbrev pub Answers :
      Option (SearchEngine × Result SearchResponse) → Result (ℕ × List SearchHit) → Type 0
  Answers call expected =
      (engine : SearchEngine) × (r : Result SearchResponse) × (call ≡ some (engine, r))
      × (answer r ≡ expected)
      × IsCoherent engine

  pub make-IsCoherent : (capacity : ℕ) → IsCoherent (make capacity)
  unfolding make LruCache.make
  make-IsCoherent capacity = record { valid = make-IsValid capacity; agrees = tt }

  pub clear_cache-IsCoherent :
      (engine : SearchEngine) → IsCoherent engine → IsCoherent (clear_cache engine)
  unfolding clear_cache clear
  clear_cache-IsCoherent engine c = record {
    valid = clear-IsValid engine.cache c.valid;
    agrees = tt;
  }

  -- The entry that a search stores, under its own key only.
  stored-Agrees :
      (g : ℕ) (query : Text) (limit : ℕ) (hits : List SearchHit)
      → uncached_hits (snapshots g) query limit ≡ some hits
      → Agrees (
        make_cache_key query limit,
        record { generation = (snapshots g).generation; hits = hits },
      )
  unfolding Agrees
  stored-Agrees g query limit hits computed q l same =
      let (same_query, same_limit) = make_cache_key-injective q query l limit same in
      ap (λ x. uncached_hits (snapshots x) q l) (named g)
      ∙ ap (λ x. uncached_hits (snapshots g) x l) same_query
      ∙ ap (λ x. uncached_hits (snapshots g) query x) same_limit
      ∙ computed

  search_index-Answers :
      (engine : SearchEngine) (g : ℕ) (query : Text) (limit elapsed : ℕ)
      → IsCoherent engine
      → (hits : List SearchHit) × (uncached_hits (snapshots g) query limit ≡ some hits)
        × Answers (search_index engine (snapshots g) query limit elapsed) (success (g, hits))
  unfolding uncached_hits search_index
  search_index-Answers engine g query limit elapsed c = go (tokenize query) refl
    where
      go :
          (tokens : List Text)
          → tokenize query ≡ tokens
          → (hits : List SearchHit) × (uncached_hits (snapshots g) query limit ≡ some hits)
            × Answers (search_index engine (snapshots g) query limit elapsed) (success (g, hits))
      go [] e = (
        [],
        rw (e, uncached_hits) refl,
        (
          engine,
          success (no_hits (snapshots g) elapsed),
          rw (e, search_index) refl,
          ap (λ x. success (x, [])) (named g),
          c,
        ),
      )
      go (token ∷ tokens) e =
          let (hits, done, _) =
            compute_hits-some (snapshots g) query (token ∷ tokens) limit (indexed g) in
          let key = make_cache_key query limit in
          let entry : CachedSearch = record {
            generation = (snapshots g).generation;
            hits = hits;
          } in
          let (cache, stored, moves) = put-Moves engine.cache key entry c.valid in
          let computed : uncached_hits (snapshots g) query limit ≡ some hits =
            ground (arith, e, done) in
          (
            hits,
            computed,
            (
              record { cache = cache },
              success (record {
                generation = (snapshots g).generation;
                hits = hits;
                elapsed = elapsed;
                from_cache = false;
              }),
              ground (arith, e, done, stored),
              ap (λ x. success (x, hits)) (named g),
              record {
                valid = moves.valid;
                agrees = subst (All Agrees) (sym moves.items) (
                    All-recent_put Agrees engine.cache.capacity key entry (view engine.cache.items)
                      (stored-Agrees g query limit hits computed) c.agrees);
              },
            ),
          )

  search_cached-Answers :
      (engine : SearchEngine) (g : ℕ) (query : Text) (limit elapsed : ℕ)
      → IsCoherent engine
      → (hits : List SearchHit) × (uncached_hits (snapshots g) query limit ≡ some hits)
        × Answers (search_cached engine (snapshots g) query limit elapsed) (success (g, hits))
  unfolding search_cached clear_cache Agrees
  search_cached-Answers engine g query limit elapsed c =
      let key = make_cache_key query limit in
      let (cache, done, moves) = get-Moves engine.cache key c.valid in
      let c' : IsCoherent (record { cache = cache }) = record {
        valid = moves.valid;
        agrees =
            subst (All Agrees) (sym moves.items)
              (All-recent_get Agrees key (view engine.cache.items) c.agrees);
      } in
      elim (Option-cases (lookup key (view engine.cache.items))) [
        | inl miss ↦
            let (hits, computed, (engine', r, called, says, coherent)) =
              search_index-Answers (record { cache = cache }) g query limit elapsed c' in
            (hits, computed, (engine', r, ground (arith, done, miss, called), says, coherent))
        | inr (cached, found) ↦ elim (Bool-cases (cached.generation == (snapshots g).generation)) [
          | inl same ↦
              let agrees = All-lookup Agrees key (view engine.cache.items) cached c.agrees found in
              let g_same : cached.generation ≡ g =
                ==→≡ cached.generation (snapshots g).generation same ∙ named g in
              (
                cached.hits,
                ap (λ x. uncached_hits (snapshots x) query limit) (sym g_same)
                    ∙ agrees query limit refl,
                (
                  record { cache = cache },
                  success (record {
                    generation = (snapshots g).generation;
                    hits = cached.hits;
                    elapsed = elapsed;
                    from_cache = true;
                  }),
                  ground (arith, done, found, same),
                  ap (λ x. success (x, cached.hits)) (named g),
                  c',
                ),
              )
          | inr stale ↦
              let cleared = clear_cache-IsCoherent (record { cache = cache }) c' in
              let (hits, computed, (engine', r, called, says, coherent)) =
                search_index-Answers (clear_cache (record { cache = cache })) g query limit elapsed
                  cleared in
              (
                hits,
                computed,
                (engine', r, ground (arith, done, found, stale, called), says, coherent),
              )
        ]
      ]

  -- Each search on the snapshot of a generation returns, reads nothing out of range, follows no
  -- dangling iterator and answers as a search without a cache does, whatever the cache holds from
  -- earlier searches on other snapshots; and the cache stays so.
  pub search-Answers :
      (engine : SearchEngine) (g : ℕ) (request : SearchRequest) (elapsed : ℕ)
      → IsCoherent engine
      → (expected : Result (ℕ × List SearchHit)) × (uncached_search (snapshots g) request
          ≡ some expected)
        × Answers (search engine (snapshots g) request elapsed) expected
  unfolding search uncached_search
  search-Answers engine g request elapsed c =
      let query = normalize_index_text (trim_ascii request.query_utf8) in
      elim (Bool-cases (ltb max_query_bytes (length request.query_utf8))) [
        | inl long ↦
            let e = invalid (text "search query is too long") in
            (failure e, ground (arith, long), (engine, failure e, ground (arith, long), refl, c))
        | inr short ↦ elim (Bool-cases (is_nil query)) [
          | inl blank ↦ (
            success ((snapshots g).generation, []),
            ground (arith, short, blank),
            (
              engine,
              success (no_hits (snapshots g) elapsed),
              ground (arith, short, blank),
              refl,
              c,
            ),
          )
          | inr some_text ↦
              let (hits, computed, (engine', r, called, says, coherent)) =
                search_cached-Answers engine g query (clamp_limit request.limit) elapsed c in
              (
                success ((snapshots g).generation, hits),
                ground (arith, short, some_text, computed),
                (
                  engine',
                  r,
                  ground (arith, short, some_text, called),
                  says ∙ ap (λ x. success (x, hits)) (sym (named g)),
                  coherent,
                ),
              )
        ]
      ]
