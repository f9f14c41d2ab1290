-- ===== src/Files.antt =====
-- internal/files: where a job's files lie, and how a part is downloaded.
pub mod Layout
pub mod Downloader
pub mod Payload
