-- ===== src/Worker.antt =====
-- internal/worker: the orchestrator and its loops.
pub mod Startup
pub mod Helpers
pub mod Batch
pub mod Submit
pub mod Poll
pub mod Download
pub mod Finalize
pub mod Remove
pub mod Moves
