-- ===== src/Index.antt =====
-- The search index: cache, tokenizer, builder and search engine.
pub mod LruCache
pub mod Tokenizer
pub mod Snapshot
pub mod SearchEngine
pub mod IndexBuilder
