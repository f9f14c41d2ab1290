-- ===== src/Compat.antt =====
-- internal/compat: jobs as qBittorrent and SABnzbd would show them.
pub mod Floats
pub mod Transfer
pub mod Qbit
pub mod Sab
pub mod Views
pub mod Slots
