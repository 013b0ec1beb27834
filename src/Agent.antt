-- ===== src/Agent.antt =====
-- apps/api/services/agent: the parts of the agent service that decide.
pub mod Context
pub mod Tracker
pub mod Signals
pub mod Blocks
pub mod Handlers
pub mod Tracking
pub mod Partial
pub mod Dispatch
pub mod Keeping
pub mod Aggregator
pub mod Usage
pub mod Aggregation
pub mod Runner
pub mod SingleQuery
pub mod Checkpointing
pub mod Turns
