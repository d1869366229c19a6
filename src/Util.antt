-- ===== src/Util.antt =====
-- What the other parts of the daemon use.
pub mod Log
