-- ===== src/Checkpoints.antt =====
-- apps/api/services/checkpoint.py and apps/api/services/agent/checkpoint_manager.py.
pub mod Service
pub mod Keys
pub mod Stored
