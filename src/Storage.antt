-- ===== src/Storage.antt =====
-- kv-distributed/internal/storage: the sharded memory, the write-ahead log and the store over both.
pub mod Hash
pub mod Memory
pub mod Wal
pub mod Engine
pub mod Compaction
