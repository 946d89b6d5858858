-- ===== src/Service.antt =====
-- kv-distributed/internal/service: the service in front of the store, transactions and messages.
pub mod PubSub
pub mod KvService
pub mod Cleaner
pub mod Transactions
pub mod Queries
pub mod Scan
