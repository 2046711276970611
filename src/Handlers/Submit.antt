-- ===== src/Handlers/Submit.antt =====
-- `submit_job` of src/handlers.rs, POST /api/v1/jobs.
pub mod Request
pub mod Prompt
pub mod Resolve
pub mod Stored
pub mod Accepts
pub mod Sound
pub mod Keeps
