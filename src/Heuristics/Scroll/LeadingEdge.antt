-- ===== src/Heuristics/Scroll/LeadingEdge.antt =====
-- The start of a gesture: the first event after a silence is held back, and only a second event of
-- the same direction within the confirmation window makes it a tick.
use native.Mathlib.Nat.{zero-add}
use loginext.Config.Profile.{Profile}
use loginext.Config.Profile.Sane.{IsSane}
use loginext.Heuristics.Direction.{Direction}
use loginext.Heuristics.Scroll.Emit.{eqb_ℤ-eq, eqb_ℤ_refl}
use loginext.Heuristics.Scroll.Process.{
  debounced, process_decided, debounced-Keeps, process_absorbed,
}
use loginext.Heuristics.Scroll.{
  ScrollState, sign, direction_for, since_last, idle_reset, debounce, decide, confirms,
  gesture_start, process_hwheel,
}
use loginext.Prelude.{
  ℕ, zero, suc, ◌+◌, ◌≤◌, ◌<◌, ◌≡◌, ◌≢◌, inl, inr, refl, ap, ◌∙◌, Bool, true, false, ◌&&◌, leb,
  if◌then◌else◌, ℤ, pos, negsuc, eqb_ℤ, abs, Bool-cases, arith,
}

-- The state after a first event that starts a gesture.
abbrev pub started : ScrollState → ℤ → ℕ → ScrollState
started s value ts = record {
  accumulator = abs value;
  direction = sign value;
  pending_dir = sign value;
  reverse_count = 0;
  last_event_ns = ts;
  last_emit_ns = s.last_emit_ns;
  pending_ts = ts;
}

sign-ne-zero : (v : ℤ) → v ≢ pos 0 → sign v ≢ pos 0
unfolding sign
sign-ne-zero (pos zero) ne = absurd (ne refl)
sign-ne-zero (pos (suc n)) ne = λ e. ground arith
sign-ne-zero (negsuc n) ne = λ e. cc

-- A silence longer than the idle reset.
pub record IsIdle (p : Profile) (s : ScrollState) (ts : ℕ) : Type 0 where
  pub seen : 0 < s.last_event_ns
  pub silent : s.last_event_ns + p.idle_reset_ns < ts
  pub emit_past : s.last_emit_ns ≤ s.last_event_ns
  pub pending_past : s.pending_ts ≤ s.last_event_ns

module _ (p : Profile) (s : ScrollState) (value : ℤ) (ts : ℕ) (sane : IsSane p)
    (idle : IsIdle p s ts) (moved : value ≢ pos 0) where
  idle_debounced :
      debounced s value ts p
      ≡ (record s { accumulator = 0; direction = sign value; reverse_count = 0 }, false)
  unfolding debounce idle_reset since_last
  idle_debounced = ground (arith, eqb_ℤ_refl (pos 0))

  decide_idle :
      (x : ScrollState)
      → x.last_emit_ns ≡ s.last_emit_ns
      → x.pending_dir ≡ s.pending_dir
      → x.pending_ts ≡ s.pending_ts
      → decide p (sign value) ts (since_last s ts) x
        ≡ (record x { pending_dir = sign value; pending_ts = ts }, Direction.none)
  unfolding decide confirms gesture_start
  decide_idle x a b c = ground arith

  -- The first event after a silence longer than the idle reset, of a value other than 0, yields no
  -- tick: the state holds it as the pending candidate. The profile is sane, an event was seen
  -- before, and the stored times are not after it.
  pub process_hwheel-started : process_hwheel s value ts p ≡ (started s value ts, Direction.none)
  process_hwheel-started =
      process_decided s value ts p moved (ap (λ x. x.1) idle_debounced)
      ∙ rw idle_debounced (decide_idle _ refl refl refl ∙ rw zero-add)

module _ (p : Profile) (s : ScrollState) (value next : ℤ) (ts ts' : ℕ) (sane : IsSane p)
    (idle : IsIdle p s ts) (moved : value ≢ pos 0) (moved' : next ≢ pos 0) (later : ts ≤ ts') where
  abbrev follows : Bool
  follows = eqb_ℤ (sign next) (sign value) && leb ts' (ts + p.confirmation_window_ns)

  abbrev held : ScrollState
  held = started s value ts

  absorbed_follows : (debounced held next ts' p).1 ≡ true → follows ≡ false
  unfolding debounce idle_reset
  absorbed_follows h = ground arith

  decide_held :
      (x : ScrollState)
      → x.last_emit_ns ≡ s.last_emit_ns
      → x.pending_dir ≡ sign value
      → x.pending_ts ≡ ts
      → (decide p (sign next) ts' (since_last held ts') x).1
        ≡ (if follows then direction_for (sign next) else Direction.none)
  unfolding decide confirms gesture_start
  decide_held x a b c = ground (arith, sign-ne-zero value moved, eqb_ℤ-eq (sign value) (pos 0))

  -- After the first event of a gesture, the next event yields a tick exactly when it has the same
  -- direction and lies within the confirmation window; the tick has that direction. The profile is
  -- sane, the first event came after a silence longer than the idle reset, both values are not 0,
  -- and the clock does not go back.
  pub process_hwheel-confirmed :
      (process_hwheel (process_hwheel s value ts p).0 next ts' p).1
      ≡ (if follows then direction_for (sign next) else Direction.none)
  process_hwheel-confirmed =
      rw (process_hwheel-started p s value ts sane idle moved)
        (elim (Bool-cases (debounced held next ts' p).1) [
          | inl a ↦ rw (process_absorbed held next ts' p moved' a, absorbed_follows a)
          | inr a ↦
              let k = debounced-Keeps held next ts' p in
              rw (process_decided held next ts' p moved' a)
                (decide_held _ k.last_emit_ns k.pending_dir k.pending_ts)
        ])
