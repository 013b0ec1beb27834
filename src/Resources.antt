-- ===== src/Resources.antt =====
-- apps/api/services: agents, projects and tool presets, which the cache alone keeps.
pub mod Index
pub mod Projects
pub mod Agents
pub mod ToolPresets
pub mod Shelves
pub mod Names
pub mod AgentLife
