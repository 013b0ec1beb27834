-- ===== src/Mcp.antt =====
-- apps/api/services/mcp_config_validator.py and mcp_config_loader.py: the checks of MCP server
-- configurations and what of them is logged, and the loading and merging of them.
pub mod Validator
pub mod Redaction
pub mod Loader
pub mod Merging
pub mod Templates
pub mod Substitution
