-- ===== src/Witnesses.antt =====
-- A small world in which the properties' hypotheses hold, and a run of each property in it.
pub mod World
pub mod Store
pub mod Codec
pub mod Laws
pub mod Assistants
pub mod Redis
pub mod RedisStore
pub mod Translation
pub mod Sessions
pub mod Locks
pub mod Mcp
pub mod Runs
pub mod Records
pub mod Streams
pub mod Checkpoints
pub mod Agent
pub mod Resources
