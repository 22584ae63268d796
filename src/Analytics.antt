-- ===== src/Analytics.antt =====
-- apps/web/src/pages: what the pages compute from the records of a run.
pub mod Fields
pub mod Execution
pub mod Classes
pub mod Volume
pub mod Statuses
pub mod Allocation
pub mod Allocated
mod Examples
