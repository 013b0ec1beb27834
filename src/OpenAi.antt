-- ===== src/OpenAi.antt =====
-- apps/api/services/openai
pub mod Requests
pub mod Models
pub mod Errors
pub mod Tools
pub mod RequestTranslator
pub mod ResponseTranslator
pub mod Streaming
