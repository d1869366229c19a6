-- ===== src/Heuristics/Direction.antt =====
-- heuristics/scroll_state.hpp: the logical tick of the heuristic engine.

pub data Direction : Type 0 where
  none left right : Direction
