-- ===== src/Api.antt =====
-- internal/api: submissions, removals and the two interfaces.
pub mod Categories
pub mod Http
pub mod Qbit
pub mod Library
pub mod Listing
pub mod Progress
pub mod Router
pub mod Words
pub mod Source
pub mod Submission
pub mod Removal
pub mod Sab
