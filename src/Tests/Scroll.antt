-- ===== src/Tests/Scroll.antt =====
-- Wheel events through the gesture engine, and instances of its theorems.
use loginext.Config.Profile.Sane.{IsSane, profile_for-IsSane}
use loginext.Config.Profile.{SensitivityMode, Profile, profile_medium, profile_for}
use loginext.Heuristics.Direction.{Direction}
use loginext.Heuristics.Scroll.Invariant.{IsValid}
use loginext.Heuristics.Scroll.LeadingEdge.{
  IsIdle, started, process_hwheel-started, process_hwheel-confirmed,
}
use loginext.Heuristics.Scroll.Process.{Tick, process_hwheel-Tick}
use loginext.Heuristics.Scroll.Rate.{Event, Spaced, ticks, step, ticks-Spaced}
use loginext.Heuristics.Scroll.{
  ScrollState, fresh, sign, direction_for, dynamic_threshold, since_last, idle_reset, debounce,
  confirms, gesture_start, decide, settle, process_hwheel, tick_leak, decay,
}
use loginext.Prelude.{ℕ, ◌*◌, ◌+◌, inl, inr, ◌≡◌, ◌≢◌, refl, pos, List, [], ◌∷◌, arith}

abbrev medium : Profile
medium = profile_medium

medium-IsSane : IsSane medium
unfolding profile_for
medium-IsSane = profile_for-IsSane SensitivityMode.medium

-- The state some time after a gesture.
abbrev rested : ScrollState
rested = record fresh {
  last_event_ns = 1_000_000_000;
  last_emit_ns = 900_000_000;
  direction = pos 1;
  accumulator = 6;
}

rested-IsIdle : IsIdle medium rested 2_000_000_000
rested-IsIdle = record {
  seen = omega arith;
  silent = omega arith;
  emit_past = omega arith;
  pending_past = omega arith;
}

rested-IsValid : IsValid rested
rested-IsValid = record {
  direction_sign = inr (inr refl);
  pending_sign = inr (inl refl);
  reverse_fits = omega arith;
  emit_past = omega arith;
  pending_past = omega arith;
}

one_ne : pos 1 ≢ pos 0
one_ne e = ground arith

process_hwheel-started_example :
    process_hwheel rested (pos 1) 2_000_000_000 medium
    ≡ (started rested (pos 1) 2_000_000_000, Direction.none)
process_hwheel-started_example =
    process_hwheel-started medium rested (pos 1) 2_000_000_000 medium-IsSane rested-IsIdle one_ne

process_hwheel-confirmed_example :
    (process_hwheel
      (process_hwheel rested (pos 1) 2_000_000_000 medium).0
      (pos 1)
      2_020_000_000
      medium).1
    ≡ Direction.right
unfolding direction_for sign
process_hwheel-confirmed_example =
    process_hwheel-confirmed medium rested (pos 1) (pos 1) 2_000_000_000 2_020_000_000 medium-IsSane
      rested-IsIdle one_ne one_ne (omega arith)

-- A candidate that the next event confirms.
abbrev waiting : ScrollState
waiting = started rested (pos 1) 2_000_000_000

waiting_ticks : (process_hwheel waiting (pos 1) 2_020_000_000 medium).1 ≢ Direction.none
unfolding process_hwheel sign direction_for dynamic_threshold since_last idle_reset debounce
    confirms gesture_start decide settle
waiting_ticks e = cc

process_hwheel-Tick_example :
    Tick waiting (pos 1) 2_020_000_000 medium (process_hwheel waiting (pos 1) 2_020_000_000 medium)
process_hwheel-Tick_example = process_hwheel-Tick waiting (pos 1) 2_020_000_000 medium waiting_ticks

abbrev event_at : ℕ → Event
event_at ms = record { profile = medium; value = pos 1; ts = 1_000_000_000 + ms * 1_000_000 }

abbrev stream : List Event
stream = event_at 0 ∷ event_at 20 ∷ event_at 40 ∷ event_at 90 ∷ event_at 140 ∷ []

stream-ticks : ticks fresh stream ≡ 1_020_000_000 ∷ 1_140_000_000 ∷ []
unfolding ticks step tick_leak decay process_hwheel sign direction_for dynamic_threshold since_last
    idle_reset debounce confirms gesture_start decide settle
stream-ticks = refl

ticks-Spaced_example : Spaced 80_000_000 (ticks fresh stream)
ticks-Spaced_example = ticks-Spaced 80_000_000 stream (omega arith)
