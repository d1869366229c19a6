-- ===== src/Core/Emitter/Registered.antt =====
-- `setup_keyboard` declares every key that the table can produce.
use loginext.Core.Emitter.{registered_codes, combo_codes, keyboard_codes}
use native.Mathlib.Decide.{dec_lt}
use loginext.Heuristics.Direction.{Direction}
use loginext.Presets.{PresetId, preset_for, resolve}
use loginext.Prelude.{
  ℕ, zero, suc, ◌<◌, ◌≡◌, refl, Bool, true, false, ◌==◌, ◌||◌, ◌&&◌, List, [], ◌∷◌, get_or, arith,
}

abbrev pub member : ℕ → List ℕ → Bool
member c [] = false
member c (x ∷ xs) = c == x || member c xs

-- The first `n` keys are all among the codes.
covers : List ℕ → List ℕ → ℕ → Bool
covers codes keys zero = true
covers codes keys (suc n) = member (get_or keys n 0) codes && covers codes keys n

covers_sound :
    (codes keys : List ℕ) (n k : ℕ)
    → covers codes keys n ≡ true
    → k < n
    → member (get_or keys k 0) codes ≡ true
unfolding covers
covers_sound codes keys zero k h lt = absurd (omega arith)
covers_sound codes keys (suc n) k h lt = elim (dec_lt k n) [
  | yes below ↦ covers_sound codes keys n k (ground arith) below
  | no above ↦ let last : k ≡ n = omega arith in rw last (ground arith)
]

table_covered :
    (id : PresetId) (d : Direction)
    → covers keyboard_codes (resolve id d).keys (resolve id d).count ≡ true
unfolding covers registered_codes combo_codes resolve preset_for
table_covered PresetId.tab_nav Direction.left = refl
table_covered PresetId.tab_nav Direction.right = refl
table_covered _ Direction.none = refl
table_covered PresetId.zoom Direction.left = refl
table_covered PresetId.zoom Direction.right = refl
table_covered _ Direction.left = refl
table_covered _ Direction.right = refl

-- Each key of each combination that a preset resolves to is declared to the virtual keyboard, so
-- the kernel drops none of them.
pub resolve_registered :
    (id : PresetId) (d : Direction) (k : ℕ)
    → k < (resolve id d).count
    → member (get_or (resolve id d).keys k 0) keyboard_codes ≡ true
resolve_registered id d k lt = covers_sound keyboard_codes _ _ k (table_covered id d) lt
