-- ===== src/Sessions.antt =====
-- Sessions: the model, the Redis cache manager, the service, and their properties.
pub mod Model
pub mod CacheManager
pub mod Locks
pub mod Service
pub mod Changes
pub mod Listing
pub mod Ownership
pub mod Creation
