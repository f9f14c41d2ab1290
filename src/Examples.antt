-- ===== src/Examples.antt =====
-- Concrete inputs: an environment whose answers are fixed, and a few jobs; and each headline theorem
-- at one of them.
pub mod Data
pub mod Fixtures
mod Moves
mod Queue
mod Effects
mod Results
mod Service
mod Requests
mod Remote
mod Settings
