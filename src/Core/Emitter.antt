-- ===== src/Core/Emitter.antt =====
-- core/emitter.cpp: the events that are written to the two virtual devices.
pub mod Keys
pub mod Lands
pub mod Registered
pub mod Handle
use loginext.Presets.{PresetId, KeyCombo, Preset, preset_count, preset_at, preset_for}
use loginext.Prelude.{ℕ, zero, suc, ◌+◌, ◌==◌, if◌then◌else◌, ℤ, pos, List, [], ◌∷◌, ◌++◌, get_or}

-- `input_event` without its time stamp, which the emitter leaves 0.
pub record InputEvent : Type 0 where
  pub type : ℕ
  pub code : ℕ
  pub value : ℤ

-- The event types and codes of linux/input-event-codes.h that the daemon names.
abbrev pub ev_syn : ℕ
ev_syn = 0

abbrev pub ev_key : ℕ
ev_key = 1

abbrev pub ev_rel : ℕ
ev_rel = 2

abbrev pub ev_msc : ℕ
ev_msc = 4

abbrev pub rel_hwheel : ℕ
rel_hwheel = 6

pub data Device : Type 0 where
  keyboard mouse : Device

-- One `write` of a batch of events to a device. A failed write is only logged, so it changes
-- nothing that the daemon keeps.
pub record Write : Type 0 where
  pub device : Device
  pub events : List InputEvent

abbrev pub syn_report : InputEvent
syn_report = record { type = ev_syn; code = 0; value = pos 0 }

abbrev pub key_event : ℕ → ℕ → InputEvent
key_event code value = record { type = ev_key; code = code; value = pos value }

-- `for (i = 0; i < count; ++i)`, with the rounds left and `i`
unfoldable pub press_keys : List ℕ → ℕ → ℕ → List InputEvent
press_keys keys zero i = syn_report ∷ []
press_keys keys (suc n) i = key_event (get_or keys i 0) 1 ∷ press_keys keys n (i + 1)

-- `for (i = count - 1; i >= 0; --i)`; the argument is `i + 1`
unfoldable pub release_keys : List ℕ → ℕ → List InputEvent
release_keys keys zero = syn_report ∷ []
release_keys keys (suc i) = key_event (get_or keys i 0) 0 ∷ release_keys keys i

-- The writes of `press_combo`.
unfoldable pub emit_combo_down : KeyCombo → List Write
emit_combo_down combo =
    if combo.count == 0
    then []
    else record { device = Device.keyboard; events = press_keys combo.keys combo.count 0 } ∷ []

-- The writes of `release_combo`.
unfoldable pub emit_combo_up : KeyCombo → List Write
emit_combo_up combo =
    if combo.count == 0
    then []
    else record { device = Device.keyboard; events = release_keys combo.keys combo.count } ∷ []

unfoldable pub emit_passthrough : InputEvent → List Write
emit_passthrough ev = record { device = Device.mouse; events = ev ∷ [] } ∷ []

-- The codes of one combination that `setup_keyboard` declares; the arguments are the rounds left
-- and `k`.
unfoldable pub combo_codes : KeyCombo → ℕ → ℕ → List ℕ
combo_codes combo zero k = []
combo_codes combo (suc n) k =
    let code = get_or combo.keys k 0 in
    let rest = combo_codes combo n (k + 1) in if code == 0 then rest else code ∷ rest

-- The codes passed to UI_SET_KEYBIT by the loop of `setup_keyboard` over the preset table; the
-- arguments are the rounds left and `i`.
unfoldable pub registered_codes : ℕ → ℕ → List ℕ
registered_codes zero i = []
registered_codes (suc n) i =
    let p = preset_for (preset_at i) in
    (combo_codes p.on_left p.on_left.count 0 ++ combo_codes p.on_right p.on_right.count 0)
    ++ registered_codes n (i + 1)

abbrev pub keyboard_codes : List ℕ
keyboard_codes = registered_codes preset_count 0
