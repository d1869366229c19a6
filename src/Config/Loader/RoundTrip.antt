-- ===== src/Config/Loader/RoundTrip.antt =====
-- The configuration text of some settings, as the format documents it, and what loading it gives.
use loginext.Config.Loader.{
  skip_ws, match_lit, string_body, parse_string_view, parse_bool, skip_value, sensitivity,
  apply_value, parse_member, parse_members, parse_object, parse, load_settings,
}
use loginext.Config.Profile.{SensitivityMode, Profile, profile_for, mode_name}
use loginext.Config.Settings.{Settings, apply_mode, IsConsistent}
use loginext.Presets.{PresetId, preset_id_str, preset_id_from_str}
use loginext.Prelude.{◌≡◌, ◌≢◌, refl, sym, ap, ◌∙◌, Bool, true, false, some, ◌++◌, Bytes, codes}

unfoldable pub bool_text : Bool → Bytes
bool_text true = codes "true"
bool_text false = codes "false"

-- `{"sensitivity": <mode>, "invert_hwheel": <flag>, "active_preset": <preset>}`
unfoldable pub render : SensitivityMode → Bool → PresetId → Bytes
render mode invert preset =
    codes "{\n  \"sensitivity\": \""
    ++ mode_name mode
    ++ codes "\",\n  \"invert_hwheel\": "
    ++ bool_text invert
    ++ codes ",\n  \"active_preset\": \""
    ++ preset_id_str preset
    ++ codes "\"\n}\n"

abbrev chosen : SensitivityMode → Bool → PresetId → Settings → Settings
chosen mode invert preset base =
    apply_mode (record base { mode = mode; invert_hwheel = invert; active_preset = preset })

load_settings-chosen :
    (mode : SensitivityMode) (invert : Bool) (preset : PresetId) (base : Settings)
    → mode ≢ SensitivityMode.inherit
    → preset ≢ PresetId.count
    → load_settings (some (render mode invert preset)) base ≡ (chosen mode invert preset base, true)
unfolding load_settings parse parse_object parse_members parse_member apply_value sensitivity
    skip_value parse_bool parse_string_view string_body match_lit skip_ws render bool_text mode_name
    preset_id_str preset_id_from_str
load_settings-chosen SensitivityMode.low true PresetId.tab_nav base h k = refl
load_settings-chosen SensitivityMode.low true PresetId.zoom base h k = refl
load_settings-chosen SensitivityMode.low true PresetId.none base h k = refl
load_settings-chosen SensitivityMode.low false PresetId.tab_nav base h k = refl
load_settings-chosen SensitivityMode.low false PresetId.zoom base h k = refl
load_settings-chosen SensitivityMode.low false PresetId.none base h k = refl
load_settings-chosen SensitivityMode.medium true PresetId.tab_nav base h k = refl
load_settings-chosen SensitivityMode.medium true PresetId.zoom base h k = refl
load_settings-chosen SensitivityMode.medium true PresetId.none base h k = refl
load_settings-chosen SensitivityMode.medium false PresetId.tab_nav base h k = refl
load_settings-chosen SensitivityMode.medium false PresetId.zoom base h k = refl
load_settings-chosen SensitivityMode.medium false PresetId.none base h k = refl
load_settings-chosen SensitivityMode.high true PresetId.tab_nav base h k = refl
load_settings-chosen SensitivityMode.high true PresetId.zoom base h k = refl
load_settings-chosen SensitivityMode.high true PresetId.none base h k = refl
load_settings-chosen SensitivityMode.high false PresetId.tab_nav base h k = refl
load_settings-chosen SensitivityMode.high false PresetId.zoom base h k = refl
load_settings-chosen SensitivityMode.high false PresetId.none base h k = refl
load_settings-chosen SensitivityMode.inherit invert preset base h k = absurd (h refl)
load_settings-chosen SensitivityMode.low invert PresetId.count base h k = absurd (k refl)
load_settings-chosen SensitivityMode.medium invert PresetId.count base h k = absurd (k refl)
load_settings-chosen SensitivityMode.high invert PresetId.count base h k = absurd (k refl)

chosen_all :
    (s base : Settings)
    → s.profile ≡ profile_for s.mode
    → chosen s.mode s.invert_hwheel s.active_preset base ≡ s
unfolding apply_mode
chosen_all s base e = ap (λ (p : Profile). record s { profile = p }) (sym e)

-- Loading the text of consistent settings gives these settings, whatever they were before, and
-- reports success.
pub load_settings-render :
    (s base : Settings)
    → IsConsistent s
    → load_settings (some (render s.mode s.invert_hwheel s.active_preset)) base ≡ (s, true)
load_settings-render s base c =
    load_settings-chosen s.mode s.invert_hwheel s.active_preset base c.mode_ne c.preset_ne
    ∙ ap (λ (x : Settings). (x, true)) (chosen_all s base c.profile_is)
