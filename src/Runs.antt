-- ===== src/Runs.antt =====
-- The runs of the Assistants API: the model and its cache payload, the service, the executor.
pub mod Model
pub mod Service
pub mod Listing
pub mod Stored
pub mod Transitions
pub mod Paging
pub mod Executor
