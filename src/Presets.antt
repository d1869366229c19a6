-- ===== src/Presets.antt =====
-- presets/preset.hpp: what a tick does. A preset maps a direction to a key combination.
pub mod Table
use loginext.Heuristics.Direction.{Direction}
use loginext.Prelude.{
  ℕ, zero, suc, Option, some, List, [], ◌∷◌, if◌then◌else◌, Bytes, codes, eq_bytes,
}

-- `count` is the sentinel of the enumeration; `none` is passthrough.
pub data PresetId : Type 0 where
  tab_nav zoom count none : PresetId

abbrev pub preset_count : ℕ
preset_count = 2

-- The value of `static_cast<PresetId>(i)` for an index below `preset_count`.
abbrev pub preset_at : ℕ → PresetId
preset_at zero = PresetId.tab_nav
preset_at (suc n) = PresetId.zoom

-- The key codes of linux/input-event-codes.h that the table uses.
abbrev pub key_tab : ℕ
key_tab = 15

abbrev pub key_left_ctrl : ℕ
key_left_ctrl = 29

abbrev pub key_left_shift : ℕ
key_left_shift = 42

abbrev pub key_kp_minus : ℕ
key_kp_minus = 74

abbrev pub key_kp_plus : ℕ
key_kp_plus = 78

-- `keys` has four entries, of which the first `count` are used.
pub record KeyCombo : Type 0 where
  pub keys : List ℕ
  pub count : ℕ

-- `KeyCombo{}`
abbrev pub no_combo : KeyCombo
no_combo = record { keys = 0 ∷ 0 ∷ 0 ∷ 0 ∷ []; count = 0 }

pub record Preset : Type 0 where
  pub on_left : KeyCombo
  pub on_right : KeyCombo

abbrev pub preset_tab_nav : Preset
preset_tab_nav = record {
  on_left = record { keys = key_left_ctrl ∷ key_left_shift ∷ key_tab ∷ 0 ∷ []; count = 3 };
  on_right = record { keys = key_left_ctrl ∷ key_tab ∷ 0 ∷ 0 ∷ []; count = 2 };
}

abbrev pub preset_zoom : Preset
preset_zoom = record {
  on_left = record { keys = key_left_ctrl ∷ key_kp_minus ∷ 0 ∷ 0 ∷ []; count = 2 };
  on_right = record { keys = key_left_ctrl ∷ key_kp_plus ∷ 0 ∷ 0 ∷ []; count = 2 };
}

unfoldable pub preset_id_str : PresetId → Bytes
preset_id_str PresetId.tab_nav = codes "tab_nav"
preset_id_str PresetId.zoom = codes "zoom"
preset_id_str PresetId.none = codes "none"
preset_id_str PresetId.count = codes "tab_nav"

unfoldable pub preset_name : PresetId → Bytes
preset_name PresetId.tab_nav = codes "Navigate between tabs"
preset_name PresetId.zoom = codes "Zoom in / out"
preset_name PresetId.none = codes "None (passthrough)"
preset_name PresetId.count = codes "Navigate between tabs"

unfoldable pub preset_for : PresetId → Preset
preset_for PresetId.tab_nav = preset_tab_nav
preset_for PresetId.zoom = preset_zoom
preset_for PresetId.none = preset_tab_nav
preset_for PresetId.count = preset_tab_nav

unfoldable pub resolve : PresetId → Direction → KeyCombo
resolve id Direction.left = (preset_for id).on_left
resolve id Direction.right = (preset_for id).on_right
resolve id Direction.none = no_combo

-- `Option.none` is the result `false`, which leaves `out` unchanged.
unfoldable pub preset_id_from_str : Bytes → Option PresetId
preset_id_from_str s =
    let eq = eq_bytes s in
    if eq (codes "tab_nav")
    then some PresetId.tab_nav
    else if eq (codes "zoom")
    then some PresetId.zoom
    else if eq (codes "none")
    then some PresetId.none
    else Option.none
