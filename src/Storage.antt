-- ===== src/Storage.antt =====
-- src/storage/memory_store.cpp and include/gatekeeper/storage: the in-memory store.
pub mod Entry
pub mod Decimal
pub mod Pattern
pub mod Shard
pub mod Keys
pub mod Ttl
pub mod Counter
pub mod RateLimit
pub mod Quota
pub mod Idempotency
pub mod Purge
pub mod Store
pub mod Sweeps
