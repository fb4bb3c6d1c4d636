-- ===== src/Index/SearchEngine/History.antt =====
-- A whole life of the search engine: searches on the snapshots of any generations, and calls that
-- empty the cache, in any order.
use core_desk.Base.{ℕ, ◌≡◌, refl, sym, ap, ◌∙◌, List, [], ◌∷◌, map, Option, none, some, arith}
use core_desk.Common.{Result}
use core_desk.Index.Snapshot.{IndexSnapshot}
use core_desk.Index.SearchEngine.Ranking.{SearchHit}
use core_desk.Index.SearchEngine.Engine.{
  SearchRequest, SearchResponse, SearchEngine, make, clear_cache, search,
}
use core_desk.Index.SearchEngine.Bounds.{IsIndexed}
use core_desk.Index.SearchEngine.Coherence.{
  uncached_search, answer, IsCoherent, make-IsCoherent, clear_cache-IsCoherent, search-Answers,
}

-- A search names its generation, its request and the time it takes.
pub data Event : Type 0 where
  search_event : ℕ → SearchRequest → ℕ → Event
  clear_event : Event

abbrev cons_option {ℓ} : {A : Type ℓ} → A → Option (List A) → Option (List A)
cons_option x none = none
cons_option x (some xs) = some (x ∷ xs)

module _ (snapshots : ℕ → IndexSnapshot) where
  abbrev pub run : SearchEngine → List Event → Option (List (Result SearchResponse))
  run engine [] = some []
  run engine (Event.clear_event ∷ events) = run (clear_cache engine) events
  run engine (Event.search_event g request elapsed ∷ events) =
      elim (search engine (snapshots g) request elapsed) [
        | none ↦ none
        | some (engine', r) ↦ cons_option r (run engine' events)
      ]

  -- The same searches without a cache.
  abbrev pub run_uncached : List Event → Option (List (Result (ℕ × List SearchHit)))
  run_uncached [] = some []
  run_uncached (Event.clear_event ∷ events) = run_uncached events
  run_uncached (Event.search_event g request elapsed ∷ events) =
      elim (uncached_search (snapshots g) request) [
        | none ↦ none
        | some r ↦ cons_option r (run_uncached events)
      ]

module _ (snapshots : ℕ → IndexSnapshot) (named : (g : ℕ) → (snapshots g).generation ≡ g)
    (indexed : (g : ℕ) → IsIndexed (snapshots g)) where
  run_lem :
      (events : List Event) (engine : SearchEngine)
      → IsCoherent snapshots named indexed engine
      → (replies : List (Result SearchResponse)) × (run snapshots engine events ≡ some replies)
        × (run_uncached snapshots events ≡ some (map answer replies))
  run_lem [] engine c = ([], refl, refl)
  run_lem (Event.clear_event ∷ events) engine c =
      run_lem events (clear_cache engine) (clear_cache-IsCoherent snapshots named indexed engine c)
  run_lem (Event.search_event g request elapsed ∷ events) engine c =
      let (expected, plain, (engine', r, called, says, coherent)) =
        search-Answers snapshots named indexed engine g request elapsed c in
      let (replies, ran, ran_plain) = run_lem events engine' coherent in
      (
        r ∷ replies,
        ground (arith, called, ran),
        rw (plain ∙ ap some (sym says), ran_plain, run_uncached) refl,
      )

  -- From a new engine on, every search returns, and the generations, hits and errors of all replies
  -- are those of the same searches without a cache, if each generation has one snapshot, with its
  -- positions in range.
  pub run-uncached :
      (capacity : ℕ) (events : List Event)
      → (replies : List (Result SearchResponse)) × (run snapshots (make capacity) events
          ≡ some replies)
        × (run_uncached snapshots events ≡ some (map answer replies))
  run-uncached capacity events =
      run_lem events (make capacity) (make-IsCoherent snapshots named indexed capacity)
