-- ===== src/Presets/Table.antt =====
-- Facts about the preset table.
use loginext.Heuristics.Direction.{Direction}
use loginext.Presets.{
  PresetId, KeyCombo, preset_tab_nav, preset_for, resolve, preset_id_str, preset_id_from_str,
}
use loginext.Prelude.{
  ℕ, zero, suc, ◌≤◌, ◌<◌, ◌≡◌, ◌≢◌, refl, some, [], ◌∷◌, length, get_or, Bytes, codes, eq_bytes_iff,
  arith,
}

-- A combination that a wheel tick may produce: four slots, of which 1 to 4 are used.
pub record IsPlayable (c : KeyCombo) : Type 0 where
  pub slots : length c.keys ≡ 4
  pub some_key : 0 < c.count
  pub fits : c.count ≤ 4
  pub coded : (k : ℕ) → k < c.count → get_or c.keys k 0 ≢ 0

two_keys : (a b : ℕ) → a ≢ 0 → b ≢ 0 → (k : ℕ) → k < 2 → get_or (a ∷ b ∷ 0 ∷ 0 ∷ []) k 0 ≢ 0
two_keys a b p q zero h = p
two_keys a b p q (suc zero) h = q
two_keys a b p q (suc (suc k)) h = absurd (omega arith)

three_keys :
    (a b c : ℕ) → a ≢ 0 → b ≢ 0 → c ≢ 0 → (k : ℕ) → k < 3 → get_or (a ∷ b ∷ c ∷ 0 ∷ []) k 0 ≢ 0
three_keys a b c p q r zero h = p
three_keys a b c p q r (suc zero) h = q
three_keys a b c p q r (suc (suc zero)) h = r
three_keys a b c p q r (suc (suc (suc k))) h = absurd (omega arith)

two-IsPlayable :
    (a b : ℕ) → a ≢ 0 → b ≢ 0 → IsPlayable (record { keys = a ∷ b ∷ 0 ∷ 0 ∷ []; count = 2 })
two-IsPlayable a b p q = record {
  slots = refl;
  some_key = omega arith;
  fits = omega arith;
  coded = two_keys a b p q;
}

tab_nav_left-IsPlayable : IsPlayable preset_tab_nav.on_left
tab_nav_left-IsPlayable = record {
  slots = refl;
  some_key = omega arith;
  fits = omega arith;
  coded = three_keys 29 42 15 (omega arith) (omega arith) (omega arith);
}

-- Whatever the preset, a left or right tick resolves to a combination of one to four keys whose
-- codes are not 0.
pub resolve-IsPlayable :
    (id : PresetId) (d : Direction) → d ≢ Direction.none → IsPlayable (resolve id d)
unfolding resolve preset_for
resolve-IsPlayable id Direction.none ne = absurd (ne refl)
resolve-IsPlayable PresetId.tab_nav Direction.left ne = tab_nav_left-IsPlayable
resolve-IsPlayable PresetId.none Direction.left ne = tab_nav_left-IsPlayable
resolve-IsPlayable PresetId.count Direction.left ne = tab_nav_left-IsPlayable
resolve-IsPlayable PresetId.zoom Direction.left ne =
    two-IsPlayable 29 74 (omega arith) (omega arith)
resolve-IsPlayable PresetId.tab_nav Direction.right ne =
    two-IsPlayable 29 15 (omega arith) (omega arith)
resolve-IsPlayable PresetId.none Direction.right ne =
    two-IsPlayable 29 15 (omega arith) (omega arith)
resolve-IsPlayable PresetId.count Direction.right ne =
    two-IsPlayable 29 15 (omega arith) (omega arith)
resolve-IsPlayable PresetId.zoom Direction.right ne =
    two-IsPlayable 29 78 (omega arith) (omega arith)

-- A preset that a user can select (each but the sentinel) is read back from its text form.
pub preset_id_from_str-preset_id_str :
    (id : PresetId) → id ≢ PresetId.count → preset_id_from_str (preset_id_str id) ≡ some id
unfolding preset_id_from_str preset_id_str
preset_id_from_str-preset_id_str PresetId.tab_nav ne = refl
preset_id_from_str-preset_id_str PresetId.zoom ne = refl
preset_id_from_str-preset_id_str PresetId.none ne = refl
preset_id_from_str-preset_id_str PresetId.count ne = absurd (ne refl)

-- What parses is exactly the text of the preset that is returned.
pub preset_id_from_str_sound :
    (s : Bytes) {id : PresetId} → preset_id_from_str s ≡ some id → s ≡ preset_id_str id
unfolding preset_id_from_str preset_id_str
preset_id_from_str_sound s h = ground (
  arith,
  eq_bytes_iff s (codes "tab_nav"),
  eq_bytes_iff s (codes "zoom"),
  eq_bytes_iff s (codes "none"),
)
