-- ===== src/Ipc.antt =====
-- The control socket of the user interface.
pub mod Request
pub mod Dispatch
pub mod Server
