-- ===== src/Console.antt =====
-- apps/web/src/operator: what the console asks of its server, and when.
pub mod Poll
pub mod PollRuns
pub mod Session
pub mod Request
pub mod Requests
pub mod Replay
pub mod Replies
pub mod Sessions
pub mod Reads
pub mod Sharing
pub mod Upload
pub mod Uploads
pub mod Observation
pub mod Observed
mod Examples
mod AnswerExamples
