-- ===== src/Images.antt =====
-- src/images.rs and src/inputs.rs: the serving of a job's output, of its renditions and of an input.
pub mod Negotiate
pub mod File
pub mod Serve
pub mod Revalidate
pub mod Kept
pub mod Recorded
