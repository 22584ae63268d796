-- ===== src/Selection.antt =====
-- apps/web/src/operator: which strategy group and which of its runs the console shows.
pub mod Storage
pub mod Validate
pub mod Verified
pub mod Groups
pub mod Saving
pub mod Operator
pub mod Restoring
pub mod Reload
pub mod Account
pub mod Source
mod Examples
