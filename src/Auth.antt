-- ===== src/Auth.antt =====
-- internal/auth: who may use the two interfaces.
pub mod Qbit
pub mod Sab
