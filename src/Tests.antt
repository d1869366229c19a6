-- ===== src/Tests.antt =====
-- Concrete runs of the daemon's parts, and instances of the theorems.
pub mod App
pub mod Loop
pub mod Listener
pub mod Log
pub mod Config
pub mod Ipc
pub mod Pacer
pub mod Scope
pub mod Scroll
pub mod Startup
