-- ===== src/Market.antt =====
-- apps/web/src/operator: the live market data of one instrument.
pub mod Buffer
pub mod Rows
pub mod Hook
pub mod Effects
pub mod Superseded
pub mod Refinement
mod Examples
