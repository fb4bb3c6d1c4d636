-- ===== src/Index/SearchEngine.antt =====
-- src/index/SearchEngine.cpp: posting lists, ranking, and the search that caches its hits.
pub mod Postings
pub mod Intersect
pub mod Candidates
pub mod Ranking
pub mod Key
pub mod Engine
pub mod Bounds
pub mod Coherence
pub mod History
pub mod Examples
