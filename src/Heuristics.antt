-- ===== src/Heuristics.antt =====
-- The heuristic engine.
pub mod Direction
pub mod Scroll
