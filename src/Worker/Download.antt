-- ===== src/Worker/Download.antt =====
-- internal/worker/download.go: the parts of a job are downloaded, with retries.
pub mod Links
pub mod Progress
pub mod Failure
pub mod Process
pub mod Safe
pub mod Callback
pub mod States
