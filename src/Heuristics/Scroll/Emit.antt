-- ===== src/Heuristics/Scroll/Emit.antt =====
-- When `process_hwheel` emits a tick, which tick, and what it leaves behind.
use loginext.Config.Profile.{Profile}
use loginext.Heuristics.Direction.{Direction}
use loginext.Heuristics.Scroll.{
  ScrollState, direction_for, dynamic_threshold, idle_reset, debounce, confirms, gesture_start,
  decide,
}
use loginext.Prelude.{
  ℕ, ◌+◌, ◌≤◌, ◌<◌, ◌≡◌, ◌≢◌, ◌⊎◌, inl, inr, true, false, ℤ, pos, negsuc, eqb_ℤ, Bool-cases, arith,
}

pub eqb_ℤ-eq : (a b : ℤ) → eqb_ℤ a b ≡ true → a ≡ b
eqb_ℤ-eq (pos a) (pos b) h = ground arith
eqb_ℤ-eq (negsuc a) (negsuc b) h = ground arith
eqb_ℤ-eq (pos a) (negsuc b) h = cc
eqb_ℤ-eq (negsuc a) (pos b) h = cc

pub eqb_ℤ_refl : (a : ℤ) → eqb_ℤ a a ≡ true
eqb_ℤ_refl (pos a) = ground arith
eqb_ℤ_refl (negsuc a) = ground arith

pub direction_for-ne-none : (d : ℤ) → direction_for d ≢ Direction.none
unfolding direction_for
direction_for-ne-none d = ground arith

-- The fields that only the decision writes.
pub record Keeps (s s' : ScrollState) : Type 0 where
  pub pending_dir : s'.pending_dir ≡ s.pending_dir
  pub pending_ts : s'.pending_ts ≡ s.pending_ts
  pub last_emit_ns : s'.last_emit_ns ≡ s.last_emit_ns

pub idle_reset-Keeps : (p : Profile) (dt : ℕ) (s : ScrollState) → Keeps s (idle_reset p dt s)
unfolding idle_reset
idle_reset-Keeps p dt s = ground arith

pub debounce-Keeps : (p : Profile) (d : ℤ) (s : ScrollState) → Keeps s (debounce p d s).0
unfolding debounce
debounce-Keeps p d s = ground arith

-- The two ways to a tick at time `ts`: a candidate confirmed, or a sustained swipe.
pub record IsConfirmed (p : Profile) (d : ℤ) (ts : ℕ) (s : ScrollState) : Type 0 where
  pub same_dir : s.pending_dir ≡ d
  pub pending : d ≢ pos 0
  pub in_window : ts ≤ s.pending_ts + p.confirmation_window_ns

pub record IsSustained (p : Profile) (ts : ℕ) (s : ScrollState) : Type 0 where
  pub started : s.last_emit_ns ≢ 0
  pub ongoing : ts ≤ s.last_emit_ns + p.idle_reset_ns
  pub cooled : s.last_emit_ns + p.emit_cooldown_ns ≤ ts

-- What a tick leaves in the state.
pub record Emitted (d : ℤ) (ts : ℕ) (out : ScrollState × Direction) : Type 0 where
  pub tick : out.1 ≡ direction_for d
  pub emptied : out.0.accumulator ≡ 0
  pub stamped : out.0.last_emit_ns ≡ ts
  pub no_pending : out.0.pending_dir ≡ pos 0

pub decide-Emitted :
    (p : Profile) (d : ℤ) (ts dt : ℕ) (s : ScrollState)
    → (decide p d ts dt s).1 ≢ Direction.none
    → Emitted d ts (decide p d ts dt s)
unfolding decide gesture_start
decide-Emitted p d ts dt s h = ground (arith, eqb_ℤ-eq s.pending_dir (pos 0))

confirms-IsConfirmed :
    (p : Profile) (d : ℤ) (ts : ℕ) (s : ScrollState)
    → confirms p d ts s ≡ true
    → IsConfirmed p d ts s
unfolding confirms
confirms-IsConfirmed p d ts s h = ground (arith, eqb_ℤ-eq d s.pending_dir, eqb_ℤ_refl (pos 0))

decide-IsSustained :
    (p : Profile) (d : ℤ) (ts dt : ℕ) (s : ScrollState)
    → (decide p d ts dt s).1 ≢ Direction.none
    → confirms p d ts s ≡ false
    → IsSustained p ts s × (dynamic_threshold dt p ≤ s.accumulator)
unfolding decide gesture_start
decide-IsSustained p d ts dt s h c = ground arith

pub decide_why :
    (p : Profile) (d : ℤ) (ts dt : ℕ) (s : ScrollState)
    → (decide p d ts dt s).1 ≢ Direction.none
    → IsConfirmed p d ts s ⊎ (IsSustained p ts s × (dynamic_threshold dt p ≤ s.accumulator))
decide_why p d ts dt s h = elim (Bool-cases (confirms p d ts s)) [
  | inl c ↦ inl (confirms-IsConfirmed p d ts s c)
  | inr c ↦ inr (decide-IsSustained p d ts dt s h c)
]

-- With no tick the time of the last one stands.
pub decide_silent :
    (p : Profile) (d : ℤ) (ts dt : ℕ) (s : ScrollState)
    → (decide p d ts dt s).1 ≡ Direction.none
    → (decide p d ts dt s).0.last_emit_ns ≡ s.last_emit_ns
unfolding decide direction_for
decide_silent p d ts dt s h = ground arith

-- A candidate that is pending afterwards was so before, or is this event, at a gesture's start.
pub decide_pending :
    (p : Profile) (d : ℤ) (ts dt : ℕ) (s : ScrollState)
    → (decide p d ts dt s).0.pending_dir ≢ pos 0
    → ((decide p d ts dt s).0.pending_dir ≡ d)
      × ((decide p d ts dt s).0.pending_ts ≡ ts)
      × ((decide p d ts dt s).0.last_emit_ns ≡ s.last_emit_ns)
      × ((s.last_emit_ns ≡ 0) ⊎ (s.last_emit_ns + p.idle_reset_ns < ts))
unfolding decide gesture_start
decide_pending p d ts dt s h = ground (arith, eqb_ℤ-eq s.pending_dir (pos 0))
