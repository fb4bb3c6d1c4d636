-- ===== src/Index/SearchEngine/Examples.antt =====
-- Searches in small indexes written out.
use core_desk.Base.{ℕ, ◌≡◌, ◌≤◌, refl, List, [], ◌∷◌, map, some, length, arith}
use core_desk.Base.{All, all_of, text_eq}
use core_desk.Index.SearchEngine.Postings.{all_candidates, candidates_for_token, candidates}
use core_desk.Index.SearchEngine.Intersect.{mem, Ascending}
use core_desk.Index.SearchEngine.Candidates.{candidates-mem}
use core_desk.Common.{Text, Result}
use core_desk.Index.Snapshot.{EntryType, FileRecord, IndexSnapshot}
use core_desk.Index.SearchEngine.Ranking.{SearchHit}
use core_desk.Index.SearchEngine.Key.{make_cache_key-injective}
use core_desk.Index.SearchEngine.Engine.{SearchResponse, make, compute_hits}
use core_desk.Index.SearchEngine.Bounds.{IsIndexed, compute_hits-some}
use core_desk.Index.SearchEngine.Coherence.{answer}
use core_desk.Index.SearchEngine.History.{Event, run, run_uncached, run-uncached}

abbrev readme : Text
readme = 114 ∷ 101 ∷ 97 ∷ 100 ∷ 109 ∷ 101 ∷ []

abbrev readme_record : FileRecord
readme_record = record {
  id = 1;
  absolute_path = 47 ∷ readme;
  relative_path = readme;
  file_name = readme;
  extension = [];
  size_bytes = 12;
  modified_time = 5;
  type = EntryType.regular_file;
}

-- The index of one file, of any generation.
abbrev small : ℕ → IndexSnapshot
small g = record {
  generation = g;
  root = 47 ∷ [];
  records = readme_record ∷ [];
  id_to_pos = (1, 0) ∷ [];
  token_index = (readme, 1 ∷ []) ∷ [];
  sorted_tokens = readme ∷ [];
  normalized_names = readme ∷ [];
}

small-IsIndexed : (g : ℕ) → IsIndexed (small g)
small-IsIndexed g = record { positions = (omega arith, tt); names = omega arith }

-- A search, the same one from the cache, one of the next generation and one after a clear.
abbrev four : List Event
four =
    Event.search_event 1 (record { query_utf8 = 82 ∷ 69 ∷ 65 ∷ []; limit = 10 }) 7
    ∷ Event.search_event 1 (record { query_utf8 = 114 ∷ 101 ∷ 97 ∷ 32 ∷ []; limit = 10 }) 3
    ∷ Event.search_event 2 (record { query_utf8 = 114 ∷ 101 ∷ 97 ∷ []; limit = 10 }) 4
    ∷ Event.clear_event
    ∷ Event.search_event 2 (record { query_utf8 = readme; limit = 0 }) 9
    ∷ []

run-uncached_example :
    (replies : List (Result SearchResponse)) × (run small (make 2) four ≡ some replies)
    × (run_uncached small four ≡ some (map answer replies))
run-uncached_example = run-uncached small (λ g. refl) small-IsIndexed 2 four

compute_hits-some_example :
    (hits : List SearchHit) × (compute_hits (small 1) readme (readme ∷ []) 10 ≡ some hits)
    × (length hits ≤ 10)
compute_hits-some_example = compute_hits-some (small 1) readme (readme ∷ []) 10 (small-IsIndexed 1)

make_cache_key-injective_example : (readme ≡ readme) × (◌≡◌ {A = ℕ} 25 25)
make_cache_key-injective_example = make_cache_key-injective readme readme 25 25 refl

small_candidates : All Ascending (all_candidates (small 1) (readme ∷ readme ∷ []))
unfolding text_eq
small_candidates = ((tt, tt), ((tt, tt), tt))

candidates-mem_example :
    mem 1 (candidates (small 1) (readme ∷ readme ∷ []))
    ≡ all_of (λ t. mem 1 (candidates_for_token (small 1) t)) (readme ∷ readme ∷ [])
candidates-mem_example = candidates-mem 1 (small 1) readme (readme ∷ []) small_candidates
