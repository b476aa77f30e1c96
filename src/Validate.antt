-- ===== src/Validate.antt =====
-- crates/musts-core/src/validate.rs, with manifest/ids.rs and snapshot/paths.rs: which files a check
-- is about, what its scope hash is made of, and what a run asks for and stores.
pub mod Scope
pub mod Tasks
pub mod Files
pub mod Declaration
pub mod Checks
pub mod Run
mod Examples
mod RunExamples
mod AgainExamples
