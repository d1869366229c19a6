-- ===== src/Config.antt =====
-- The configuration of the daemon.
pub mod Profile
pub mod Settings
pub mod Loader
pub mod Args
