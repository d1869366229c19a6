-- ===== src/Heuristics/Scroll.antt =====
-- heuristics/scroll_state.{hpp,cpp}: the gesture engine. Timestamps are nanoseconds since boot, so
-- they are not negative; a comparison `a - b < c` of `int64_t` is written `a < b + c`.
pub mod Threshold
pub mod Leak
pub mod Emit
pub mod Process
pub mod Rate
pub mod Invariant
pub mod LeadingEdge
use loginext.Config.Profile.{Profile}
use loginext.Heuristics.Direction.{Direction}
use loginext.Prelude.{
  ℕ, zero, suc, ◌+◌, ◌-◌, ◌*◌, ◌/◌, ◌^◌, Bool, true, false, not, ◌&&◌, ◌||◌, ltb, leb, ◌==◌,
  if◌then◌else◌, ℤ, pos, negsuc, eqb_ℤ, abs, is_positive,
}

pub record ScrollState : Type 0 where
  pub accumulator : ℕ
  pub direction : ℤ
  pub pending_dir : ℤ
  pub reverse_count : ℕ
  pub last_event_ns : ℕ
  pub last_emit_ns : ℕ
  pub pending_ts : ℕ

-- `ScrollState{}`
abbrev pub fresh : ScrollState
fresh = record {
  accumulator = 0;
  direction = pos 0;
  pending_dir = pos 0;
  reverse_count = 0;
  last_event_ns = 0;
  last_emit_ns = 0;
  pending_ts = 0;
}

unfoldable pub sign : ℤ → ℤ
sign (pos zero) = pos 0
sign (pos (suc n)) = pos 1
sign (negsuc n) = negsuc 0

unfoldable pub direction_for : ℤ → Direction
direction_for dir = if is_positive dir then Direction.right else Direction.left

-- `std::clamp`
abbrev pub clamp : ℕ → ℕ → ℕ → ℕ
clamp v lo hi = if ltb v lo then lo else if ltb hi v then hi else v

-- The quotient of C++ rounds towards zero, so a falling curve is subtracted.
unfoldable pub dynamic_threshold : ℕ → Profile → ℕ
dynamic_threshold dt_ns p =
    let clamped = clamp dt_ns p.fast_dt_ns p.slow_dt_ns in
    let denominator = p.slow_dt_ns - p.fast_dt_ns in
    if leb p.fast_threshold p.slow_threshold
    then p.fast_threshold
      + (p.slow_threshold - p.fast_threshold) * (clamped - p.fast_dt_ns) / denominator
    else p.fast_threshold
      - (p.fast_threshold - p.slow_threshold) * (clamped - p.fast_dt_ns) / denominator

abbrev pub int64_max : ℕ
int64_max = 2 ^ 63 - 1

-- `dt`. A negative one (the clock went back) acts as 0 does: it exceeds no limit, and the curve
-- clamps it.
unfoldable pub since_last : ScrollState → ℕ → ℕ
since_last s ts = if ltb 0 s.last_event_ns then ts - s.last_event_ns else int64_max

unfoldable pub idle_reset : Profile → ℕ → ScrollState → ScrollState
idle_reset p dt s =
    if ltb p.idle_reset_ns dt
    then record s { accumulator = 0; direction = pos 0; reverse_count = 0 }
    else s

-- The jitter debounce; the flag says that the event is absorbed.
unfoldable pub debounce : Profile → ℤ → ScrollState → ScrollState × Bool
debounce p event_dir s =
    if not (eqb_ℤ event_dir s.direction) && not (eqb_ℤ s.direction (pos 0))
    then if ltb p.reverse_tolerance (s.reverse_count + 1)
      then (record s { accumulator = 0; direction = event_dir; reverse_count = 0 }, false)
      else (record s { reverse_count = s.reverse_count + 1 }, true)
    else (
      record s {
        direction = if eqb_ℤ s.direction (pos 0) then event_dir else s.direction;
        reverse_count = 0;
      },
      false,
    )

-- An earlier candidate that this event confirms.
unfoldable pub confirms : Profile → ℤ → ℕ → ScrollState → Bool
confirms p event_dir ts s =
    not (eqb_ℤ s.pending_dir (pos 0))
    && eqb_ℤ event_dir s.pending_dir
    && leb ts (s.pending_ts + p.confirmation_window_ns)

unfoldable pub gesture_start : Profile → ℕ → ScrollState → Bool
gesture_start p ts s = s.last_emit_ns == 0 || ltb (s.last_emit_ns + p.idle_reset_ns) ts

abbrev pub clear_pending : ScrollState → ScrollState
clear_pending s = record s { pending_dir = pos 0; pending_ts = 0 }

abbrev pub emit : ℤ → ℕ → ScrollState → ScrollState × Direction
emit event_dir ts s = (record s { accumulator = 0; last_emit_ns = ts }, direction_for event_dir)

-- From the pending confirmation to the end; `s` has the event in its accumulator.
unfoldable pub decide : Profile → ℤ → ℕ → ℕ → ScrollState → ScrollState × Direction
decide p event_dir ts dt s =
    let s' = if eqb_ℤ s.pending_dir (pos 0) then s else clear_pending s in
    if confirms p event_dir ts s
    then emit event_dir ts s'
    else if gesture_start p ts s'
    then (record s' { pending_dir = event_dir; pending_ts = ts }, Direction.none)
    else if ltb ts (s'.last_emit_ns + p.emit_cooldown_ns)
    then (s', Direction.none)
    else if leb (dynamic_threshold dt p) s'.accumulator
    then emit event_dir ts s'
    else (s', Direction.none)

-- What follows the debounce.
unfoldable pub settle : Profile → ℤ → ℕ → ℕ → ScrollState × Bool → ScrollState × Direction
settle p value ts dt (s, true) = (record s { last_event_ns = ts }, Direction.none)
settle p value ts dt (s, false) =
    decide p (sign value) ts dt
      (record s { accumulator = s.accumulator + abs value; last_event_ns = ts })

unfoldable pub process_hwheel : ScrollState → ℤ → ℕ → Profile → ScrollState × Direction
process_hwheel s value ts p =
    let dt = since_last s ts in
    if eqb_ℤ value (pos 0)
    then (s, Direction.none)
    else settle p value ts dt (debounce p (sign value) (idle_reset p dt s))

-- `for (i = 0; i < periods && accumulator > 0; ++i) accumulator >>= shift`
unfoldable pub decay : ℕ → ℕ → ℕ → ℕ
decay zero shift acc = acc
decay (suc periods) shift acc = elim (acc == 0) [
  | true ↦ acc
  | false ↦ decay periods shift (acc / 2 ^ shift)
]

unfoldable pub tick_leak : ScrollState → ℕ → Profile → ScrollState
unfolding decay
tick_leak s now_ns p =
    if s.accumulator == 0
    then s
    else if s.last_event_ns == 0
    then s
    else if leb (s.last_event_ns + p.leak_interval_ns) now_ns
    then record s {
      accumulator =
          decay ((now_ns - s.last_event_ns) / p.leak_interval_ns) p.leak_decay_shift s.accumulator;
    }
    else s
