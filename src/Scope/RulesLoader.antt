-- ===== src/Scope/RulesLoader.antt =====
-- scope/rules_loader.cpp: the reader of `app_rules.txt`, whose lines are
-- `app=preset[,mode[,invert]]`. The line numbers serve only the messages.
pub mod Load
pub mod RoundTrip
pub mod WholeFile
use mathlib.Core.Option
use loginext.Config.Profile.{SensitivityMode, mode_from_str}
use loginext.Presets.{PresetId, preset_id_from_str}
use loginext.Scope.AppHash.{hash_app}
use loginext.Scope.Rules.{AppRule, RuleTable, clear, insert, invert_inherit, invert_on, invert_off}
use loginext.Prelude.{
  ℕ, zero, suc, Bool, true, false, ◌&&◌, ◌||◌, ◌==◌, if◌then◌else◌, Option, none, some, ℤ, List, [],
  ◌∷◌, take, Bytes, codes, eq_bytes,
}

abbrev pub is_blank : ℕ → Bool
is_blank c = c == b' ' || c == b'\t'

-- The two loops of `trim`.
unfoldable pub trim_front : Bytes → Bytes
trim_front [] = []
trim_front (c ∷ s) = if is_blank c then trim_front s else c ∷ s

abbrev pub keep_back : ℕ → Bytes → Bytes
keep_back c [] = if is_blank c || c == b'\r' then [] else c ∷ []
keep_back c (x ∷ rest) = c ∷ x ∷ rest

unfoldable pub trim_back : Bytes → Bytes
trim_back [] = []
trim_back (c ∷ s) = keep_back c (trim_back s)

unfoldable pub trim : Bytes → Bytes
trim s = trim_back (trim_front s)

-- `find(c)` and the two sides of the place; `none` is `npos`.
unfoldable pub split_at : ℕ → Bytes → Option (Bytes × Bytes)
split_at c [] = none
split_at c (x ∷ s) =
    let rest = Option.map (λ (r : Bytes × Bytes). (x ∷ r.0, r.1)) (split_at c s) in
    if x == c then some ([], s) else rest

abbrev pub grow_line : ℕ → List Bytes → List Bytes
grow_line c [] = (c ∷ []) ∷ []
grow_line c (line ∷ lines) = (c ∷ line) ∷ lines

-- The lines that the loop over the buffer meets: the last one may lack its newline.
unfoldable pub split_lines : Bytes → List Bytes
split_lines [] = []
split_lines (c ∷ s) = let rest = split_lines s in if c == b'\n' then [] ∷ rest else grow_line c rest

-- `split_csv`, with the fields that are left.
unfoldable pub split_csv : ℕ → Bytes → List Bytes
split_csv zero v = []
split_csv (suc n) v = elim (split_at b',' v) [
  | none ↦ trim v ∷ []
  | some (field, rest) ↦ trim field ∷ split_csv n rest
]

-- `nfields > i ? fields[i] : {}`
abbrev pub field : List Bytes → ℕ → Bytes
field [] i = []
field (f ∷ fs) zero = f
field (f ∷ fs) (suc i) = field fs i

-- The mode of a rule, and whether the text names one.
abbrev pub rule_mode : Option SensitivityMode → SensitivityMode × Bool
rule_mode none = (SensitivityMode.inherit, false)
rule_mode (some m) = (m, true)

-- The invert flag of a rule, and whether the text names one.
unfoldable pub rule_invert : Bytes → ℤ × Bool
rule_invert [] = (invert_inherit, true)
rule_invert (c ∷ s) =
    let eq = eq_bytes (c ∷ s) in
    if eq (codes "true") || eq (codes "1")
    then (invert_on, true)
    else if eq (codes "false") || eq (codes "0")
    then (invert_off, true)
    else if eq (codes "inherit")
    then (invert_inherit, true)
    else (invert_inherit, false)

-- The rest of a line once the preset's text is not empty: a rule unless the preset is unknown.
abbrev pub read_fields : Bytes → List Bytes → Option PresetId → Option AppRule × Bool
read_fields app fields none = (none, false)
read_fields app fields (some pid) =
    let mode = rule_mode (mode_from_str (field fields 1)) in
    let invert = rule_invert (field fields 2) in
    (
      some (record { app_hash = hash_app app; preset = pid; mode = mode.0; invert = invert.0 }),
      mode.1 && invert.1,
    )

-- A line without a preset is for the user interface only.
abbrev pub read_preset : Bytes → List Bytes → Bytes → Option AppRule × Bool
read_preset app fields [] = (none, true)
read_preset app fields (c ∷ s) = read_fields app fields (preset_id_from_str (c ∷ s))

abbrev pub read_entry : Bytes → Bytes → Option AppRule × Bool
read_entry [] value = (none, false)
read_entry (c ∷ app) value =
    let fields = split_csv 3 value in read_preset (c ∷ app) fields (field fields 0)

abbrev pub read_sides : Option (Bytes × Bytes) → Option AppRule × Bool
read_sides none = (none, false)
read_sides (some (app, value)) = read_entry (trim app) (trim value)

abbrev pub read_trimmed : Bytes → Option AppRule × Bool
read_trimmed [] = (none, true)
read_trimmed (c ∷ line) = if c == b'#' then (none, true) else read_sides (split_at b'=' (c ∷ line))

-- A round of the loop up to the call of `insert`: the rule to insert, if any, and whether `ok` may
-- stay.
unfoldable pub read_line : Bytes → Option AppRule × Bool
read_line line = read_trimmed (trim line)

-- The rest of the round. A full table drops the rule.
abbrev pub store : RuleTable → Bool → Option AppRule × Bool → RuleTable × Bool
store t ok (none, fine) = (t, ok && fine)
store t ok (some rule, fine) = let x = insert t rule in (x.0, ok && fine && x.1)

unfoldable pub load_lines : RuleTable → Bool → List Bytes → RuleTable × Bool
load_lines t ok [] = (t, ok)
load_lines t ok (line ∷ lines) = let x = store t ok (read_line line) in load_lines x.0 x.1 lines

-- `load_rules`. The file is `none` if the path is empty or the file cannot be opened or read; the
-- buffer takes 4095 bytes of it. The flag is the function's result.
unfoldable pub load_rules : Option Bytes → RuleTable → RuleTable × Bool
load_rules none out = (clear out, true)
load_rules (some src) out = load_lines (clear out) true (split_lines (take 4095 src))
