-- ===== src/Charts.antt =====
-- apps/web/src/operator: the charts of results.
pub mod Points
pub mod Appended
pub mod Ordered
pub mod Results
pub mod Metrics
pub mod Rising
pub mod Indicators
pub mod Averages
pub mod LastAverage
pub mod AverageTimes
mod Examples
