-- ===== src/Config/Profile.antt =====
-- config/profile.hpp: the sensitivity modes, the three timing profiles, and the text form of a mode.
pub mod Sane
use loginext.Prelude.{ℕ, Option, none, some, List, [], ◌∷◌, if◌then◌else◌, Bytes, codes, eq_bytes}

pub data SensitivityMode : Type 0 where
  low medium high inherit : SensitivityMode

-- Durations in nanoseconds. Every value that the program puts here is positive.
pub record Profile : Type 0 where
  pub idle_reset_ns : ℕ
  pub emit_cooldown_ns : ℕ
  pub fast_threshold : ℕ
  pub slow_threshold : ℕ
  pub fast_dt_ns : ℕ
  pub slow_dt_ns : ℕ
  pub pacing_interval_ns : ℕ
  pub damping_timeout_ns : ℕ
  pub leak_interval_ns : ℕ
  pub confirmation_window_ns : ℕ
  pub reverse_tolerance : ℕ
  pub leak_decay_shift : ℕ
  pub key_release_delay_ns : ℕ

abbrev pub profile_low : Profile
profile_low = record {
  idle_reset_ns = 250_000_000;
  emit_cooldown_ns = 180_000_000;
  fast_threshold = 2;
  slow_threshold = 4;
  fast_dt_ns = 50_000_000;
  slow_dt_ns = 350_000_000;
  pacing_interval_ns = 120_000_000;
  damping_timeout_ns = 200_000_000;
  leak_interval_ns = 150_000_000;
  confirmation_window_ns = 80_000_000;
  reverse_tolerance = 2;
  leak_decay_shift = 1;
  key_release_delay_ns = 2_000_000;
}

abbrev pub profile_medium : Profile
profile_medium = record {
  idle_reset_ns = 200_000_000;
  emit_cooldown_ns = 100_000_000;
  fast_threshold = 1;
  slow_threshold = 3;
  fast_dt_ns = 40_000_000;
  slow_dt_ns = 250_000_000;
  pacing_interval_ns = 80_000_000;
  damping_timeout_ns = 150_000_000;
  leak_interval_ns = 200_000_000;
  confirmation_window_ns = 70_000_000;
  reverse_tolerance = 1;
  leak_decay_shift = 1;
  key_release_delay_ns = 2_000_000;
}

abbrev pub profile_high : Profile
profile_high = record {
  idle_reset_ns = 150_000_000;
  emit_cooldown_ns = 50_000_000;
  fast_threshold = 1;
  slow_threshold = 2;
  fast_dt_ns = 30_000_000;
  slow_dt_ns = 200_000_000;
  pacing_interval_ns = 60_000_000;
  damping_timeout_ns = 120_000_000;
  leak_interval_ns = 200_000_000;
  confirmation_window_ns = 60_000_000;
  reverse_tolerance = 1;
  leak_decay_shift = 1;
  key_release_delay_ns = 1_500_000;
}

unfoldable pub profile_for : SensitivityMode → Profile
profile_for SensitivityMode.low = profile_low
profile_for SensitivityMode.medium = profile_medium
profile_for SensitivityMode.high = profile_high
profile_for SensitivityMode.inherit = profile_medium

unfoldable pub mode_name : SensitivityMode → Bytes
mode_name SensitivityMode.low = codes "low"
mode_name SensitivityMode.medium = codes "medium"
mode_name SensitivityMode.high = codes "high"
mode_name SensitivityMode.inherit = []

-- `none` is the result `false`, which leaves `out` unchanged.
unfoldable pub mode_from_str : Bytes → Option SensitivityMode
mode_from_str [] = some SensitivityMode.inherit
mode_from_str (c ∷ s) =
    let eq = eq_bytes (c ∷ s) in
    if eq (codes "low")
    then some SensitivityMode.low
    else if eq (codes "medium")
    then some SensitivityMode.medium
    else if eq (codes "high")
    then some SensitivityMode.high
    else if eq (codes "inherit")
    then some SensitivityMode.inherit
    else none
