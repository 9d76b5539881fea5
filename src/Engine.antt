-- ===== src/Engine.antt =====
-- The database's engine in Go (internal), as far as the front ends depend on what it does.
pub mod Tokenizer
pub mod Matching
pub mod Bytes
pub mod Int64
pub mod Message
pub mod Heap
pub mod Dedup
pub mod Queue
pub mod Database
