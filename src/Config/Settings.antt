-- ===== src/Config/Settings.antt =====
-- config/settings.hpp: the settings in force.
use loginext.Config.Profile.{SensitivityMode, Profile, profile_for, profile_medium}
use loginext.Presets.{PresetId}
use loginext.Prelude.{Bool, true, ◌≡◌, ◌≢◌, refl}

pub record Settings : Type 0 where
  pub mode : SensitivityMode
  pub invert_hwheel : Bool
  pub profile : Profile
  pub active_preset : PresetId

-- `Settings{}`
abbrev pub default_settings : Settings
default_settings = record {
  mode = SensitivityMode.medium;
  invert_hwheel = true;
  profile = profile_medium;
  active_preset = PresetId.tab_nav;
}

unfoldable pub apply_mode : Settings → Settings
apply_mode s = record s { profile = profile_for s.mode }

-- The profile is the mode's; the mode is a real one, and the preset no sentinel.
pub record IsConsistent (s : Settings) : Type 0 where
  pub profile_is : s.profile ≡ profile_for s.mode
  pub mode_ne : s.mode ≢ SensitivityMode.inherit
  pub preset_ne : s.active_preset ≢ PresetId.count

pub default-IsConsistent : IsConsistent default_settings
unfolding profile_for
default-IsConsistent = record { profile_is = refl; mode_ne = λ e. cc; preset_ne = λ e. cc }
