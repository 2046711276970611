-- ===== src/Handlers.antt =====
-- The handlers of src/handlers.rs for `/api/v1/jobs/...`.
pub mod Control
pub mod Listing
pub mod Poll
pub mod Submit
