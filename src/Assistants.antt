-- ===== src/Assistants.antt =====
-- apps/api/services/assistants/assistant_service.py: assistants, behind a cache and a database.
pub mod Model
pub mod Service
pub mod Listing
pub mod RoundTrip
pub mod Ownership
pub mod Stored
pub mod Paging
