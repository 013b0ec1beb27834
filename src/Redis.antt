-- ===== src/Redis.antt =====
-- apps/api/adapters/cache.py: the Redis cache.
pub mod Client
pub mod Adapter
pub mod Refines
pub mod Scan
pub mod Store
pub mod Locks
