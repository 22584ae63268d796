-- ===== src/Stream.antt =====
-- packages/sdk-ts: the event stream of the terminal, from the messages to the connection.
pub mod Protocol
pub mod Store
pub mod Ingest
pub mod Runs
pub mod Delivery
pub mod Order
pub mod Sound
pub mod SoundRuns
pub mod Publish
pub mod Transfer
pub mod Staging
pub mod Client
pub mod Connection
pub mod Retries
pub mod Detail
pub mod Inspection
mod Examples
mod ClientExamples
