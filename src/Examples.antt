-- ===== src/Examples.antt =====
-- The theorems at concrete inputs.
pub mod Data
pub mod Jobs
pub mod Worker
pub mod Handlers
pub mod Submit
pub mod Purge
pub mod Images
pub mod Host
pub mod Comfy
pub mod Workflow
pub mod Prompts
pub mod Redact
