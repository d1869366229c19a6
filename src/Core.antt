-- ===== src/Core.antt =====
-- The device side of the daemon.
pub mod EventLoop
pub mod Emitter
pub mod Player
pub mod Device
pub mod Pacer
