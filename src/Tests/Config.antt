-- ===== src/Tests/Config.antt =====
-- Loads of concrete configuration texts, and instances of the theorems on the configuration.
use loginext.Config.Loader.Fuel.{parse_members_fuel}
use loginext.Config.Loader.RoundTrip.{render, load_settings-render}
use loginext.Config.Loader.{
  skip_ws, match_lit, string_body, parse_string_view, parse_bool, skip_value, sensitivity,
  apply_value, parse_member, parse_members, parse_object, parse, load_settings,
}
use loginext.Config.Profile.{SensitivityMode}
use loginext.Config.Settings.{default_settings, apply_mode, default-IsConsistent}
use loginext.Heuristics.Direction.{Direction}
use loginext.Presets.{PresetId, preset_for, resolve, preset_id_from_str}
use loginext.Core.Emitter.Registered.{member, resolve_registered}
use loginext.Core.Emitter.{keyboard_codes}
use loginext.Prelude.{◌≡◌, ◌≢◌, ◌<◌, refl, true, false, some, get_or, codes, Bytes, arith}

abbrev file : Bytes
file = codes "{\"sensitivity\" : \"high\", \"theme\": \"dark\", \"active_preset\":\"zoom\"}"

load_file : load_settings (some file) default_settings ≡ (
  apply_mode
      (record default_settings { mode = SensitivityMode.high; active_preset = PresetId.zoom }),
  true,
)
unfolding load_settings parse parse_object parse_members parse_member apply_value sensitivity
    skip_value parse_bool parse_string_view string_body match_lit skip_ws preset_id_from_str
load_file = refl

-- A value of a wrong kind rejects the whole file.
load_wrong :
    load_settings (some (codes "{\"invert_hwheel\": true, \"sensitivity\": 3}")) default_settings
    ≡ (default_settings, false)
unfolding load_settings parse parse_object parse_members parse_member apply_value sensitivity
    skip_value parse_bool parse_string_view string_body match_lit skip_ws preset_id_from_str
load_wrong = refl

load_settings-render_example :
    load_settings (some (render SensitivityMode.medium true PresetId.tab_nav)) default_settings
    ≡ (default_settings, true)
load_settings-render_example =
    load_settings-render default_settings default_settings default-IsConsistent

abbrev members : Bytes
members = codes "\"active_preset\":\"none\"}"

parse_members_fuel_example :
    parse_members 30 members default_settings ≡ parse_members 90 members default_settings
parse_members_fuel_example =
    parse_members_fuel 30 90 members default_settings (omega arith) (omega arith)

left_ne : Direction.left ≢ Direction.none
left_ne e = cc

zoom_ne : PresetId.zoom ≢ PresetId.count
zoom_ne e = cc

zoom_parsed : preset_id_from_str (codes "zoom") ≡ some PresetId.zoom
unfolding preset_id_from_str
zoom_parsed = refl

two_down : 1 < (resolve PresetId.zoom Direction.left).count
unfolding resolve preset_for
two_down = omega arith

resolve_registered_example :
    member (get_or (resolve PresetId.zoom Direction.left).keys 1 0) keyboard_codes ≡ true
resolve_registered_example = resolve_registered PresetId.zoom Direction.left 1 two_down
