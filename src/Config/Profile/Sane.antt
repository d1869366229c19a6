-- ===== src/Config/Profile/Sane.antt =====
-- What the heuristics and the pacer rely on in a profile, and that the built-in profiles have it.
use loginext.Prelude.{◌≤◌, ◌<◌, ◌≡◌, refl, some, arith}
use loginext.Config.Profile.{
  SensitivityMode, low, medium, high, inherit, Profile, profile_for, mode_name, mode_from_str,
}

pub record IsSane (p : Profile) : Type 0 where
  pub threshold_pos : 0 < p.fast_threshold
  pub threshold_order : p.fast_threshold ≤ p.slow_threshold
  pub dt_order : p.fast_dt_ns < p.slow_dt_ns
  pub cooldown_le_idle : p.emit_cooldown_ns ≤ p.idle_reset_ns
  pub window_le_idle : p.confirmation_window_ns ≤ p.idle_reset_ns
  pub cooldown_pos : 0 < p.emit_cooldown_ns
  pub pacing_pos : 0 < p.pacing_interval_ns
  pub release_pos : 0 < p.key_release_delay_ns
  pub release_lt_pacing : p.key_release_delay_ns < p.pacing_interval_ns
  pub damping_pos : 0 < p.damping_timeout_ns
  pub leak_pos : 0 < p.leak_interval_ns
  pub shift_pos : 0 < p.leak_decay_shift
  pub tolerance_fits : p.reverse_tolerance ≤ 126

-- Each mode resolves to a profile with ordered thresholds and times and positive intervals.
pub profile_for-IsSane : (m : SensitivityMode) → IsSane (profile_for m)
unfolding profile_for
profile_for-IsSane low = omega arith
profile_for-IsSane medium = omega arith
profile_for-IsSane high = omega arith
profile_for-IsSane inherit = omega arith

-- The name of a mode parses back to that mode.
pub mode_from_str-mode_name : (m : SensitivityMode) → mode_from_str (mode_name m) ≡ some m
unfolding mode_from_str mode_name
mode_from_str-mode_name low = refl
mode_from_str-mode_name medium = refl
mode_from_str-mode_name high = refl
mode_from_str-mode_name inherit = refl
