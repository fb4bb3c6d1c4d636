-- ===== src/Concurrency.antt =====
-- src/concurrency: what runs on several threads.
pub mod ThreadPool
