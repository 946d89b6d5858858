-- ===== src/Tests.antt =====
-- Runs of the store and of the data structures on small inputs.
pub mod Memory
pub mod Log
pub mod Engine
pub mod Structures
pub mod Service
pub mod Api
pub mod Http
pub mod Concurrency
pub mod Client
pub mod Compaction
