-- ===== src/Trading.antt =====
-- apps/web/src/operator: preparing an operation and confirming it.
pub mod Confirm
pub mod Tickets
pub mod Confirmed
pub mod Order
pub mod Prepared
pub mod RunControl
pub mod RunReasons
pub mod RunPanel
pub mod RunTickets
mod RunExamples
mod Examples
