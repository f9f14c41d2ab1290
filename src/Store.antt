-- ===== src/Store.antt =====
-- internal/store/store.go: the statements on the tables and the methods of `Store`.
pub mod Retry
pub mod RetryBound
pub mod Rules
pub mod Jobs
pub mod Answers
pub mod Claims
pub mod Exclusion
pub mod Parts
pub mod Sessions
pub mod Audit
pub mod Keys
pub mod EventRules
pub mod StateRules
pub mod LogRules
