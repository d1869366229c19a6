-- ===== src/Tests/Scope.antt =====
-- Concrete rule files, and instances of the theorems on the rules.
use loginext.Config.Profile.{SensitivityMode, mode_name, mode_from_str}
use loginext.Presets.{PresetId, preset_id_str, preset_id_from_str}
use loginext.Scope.AppHash.{to_lower, mix, hash_from, hash_app}
use loginext.Scope.Rules.Inv.{fresh-IsValid}
use loginext.Scope.Rules.Map.{Inserts, insert-Inserts}
use loginext.Scope.Rules.{
  AppRule, fresh, lookup, lookup_from, insert, insert_from, invert_on, invert_off,
}
use loginext.Scope.RulesLoader.Load.{load_rules-lookup, last_rule, rule_lines, all_fine, file_lines}
use loginext.Scope.RulesLoader.RoundTrip.{
  IsName, InvertFlag, invert_text, render_line, render_value,
}
use loginext.Scope.RulesLoader.WholeFile.{
  RuleEntry, IsEntry, AreEntries, nil, cons, last_entry, render_file, load_rules-render_file,
}
use loginext.Scope.RulesLoader.{
  trim, trim_front, trim_back, split_at, split_lines, split_csv, rule_invert, read_line, load_rules,
}
use loginext.Prelude.{
  ℕ, ◌≤◌, ◌≡◌, ◌≢◌, refl, true, false, some, List, [], ◌∷◌, length, Bytes, codes, arith,
}

abbrev text : Bytes
text = codes "# per-app rules\n code = zoom , high,true\r\ngimp=zoom,,false\nbad line\nvim=\n"

-- FNV-1a of "a" is 0xe40c292c, in either case.
hash_letter : (hash_app (codes "a") ≡ 0xe40c292c) × (hash_app (codes "A") ≡ 0xe40c292c)
unfolding hash_app hash_from mix to_lower
hash_letter = (refl, refl)

abbrev code_rule : AppRule
code_rule = record {
  app_hash = hash_app (codes "code");
  preset = PresetId.zoom;
  mode = SensitivityMode.high;
  invert = invert_on;
}

read_code : read_line (codes " code = zoom , high,true\r") ≡ (some code_rule, true)
unfolding read_line trim trim_front trim_back split_at split_csv rule_invert preset_id_from_str
    mode_from_str
read_code = refl

text_flags : (rule_lines (file_lines text) ≡ 2) × (all_fine (file_lines text) ≡ false)
unfolding rule_lines all_fine split_lines read_line trim trim_front trim_back split_at split_csv
    rule_invert preset_id_from_str mode_from_str
text_flags = (refl, refl)

abbrev rule_1 : AppRule
rule_1 = record {
  app_hash = 65;
  preset = PresetId.zoom;
  mode = SensitivityMode.low;
  invert = invert_off;
}

insert-Inserts_example : Inserts fresh rule_1 (insert fresh rule_1)
insert-Inserts_example = insert-Inserts fresh rule_1 fresh-IsValid

-- Two hashes with the same home slot are kept apart.
colliding :
    let t = (insert (insert fresh rule_1).0 (record rule_1 { app_hash = 129 })).0 in
    (lookup t 65 ≡ some rule_1) × (lookup t 129 ≡ some (record rule_1 { app_hash = 129 }))
unfolding insert insert_from lookup lookup_from
colliding = (refl, refl)

text_small : rule_lines (file_lines text) ≤ 32
text_small = let (e, _) = text_flags in omega arith

load_rules-lookup_example :
    ((k : ℕ) → lookup (load_rules (some text) fresh).0 k ≡ last_rule (file_lines text) k)
    × ((load_rules (some text) fresh).1 ≡ all_fine (file_lines text))
load_rules-lookup_example = load_rules-lookup text fresh refl text_small

code-IsName : IsName b'c' (codes "ode")
unfolding trim_back split_at
code-IsName = record { not_blank = refl; not_comment = refl; no_equals = refl; closed = refl }

zoom_ne : PresetId.zoom ≢ PresetId.count
zoom_ne e = cc

abbrev code_entry : RuleEntry
code_entry = record {
  head = b'c';
  tail = codes "ode";
  preset = PresetId.zoom;
  mode = SensitivityMode.high;
  invert = InvertFlag.on;
}

code-IsEntry : IsEntry code_entry
code-IsEntry = record { name = code-IsName; one_line = refl; no_sentinel = zoom_ne }

-- The application is listed twice: the second line counts.
abbrev twice : List RuleEntry
twice = code_entry ∷ record code_entry { invert = InvertFlag.inherit } ∷ []

twice-AreEntries : AreEntries twice
twice-AreEntries =
    cons code-IsEntry
      (cons (record { name = code-IsName; one_line = refl; no_sentinel = zoom_ne }) nil)

twice_short : length (render_file twice) ≤ 4095
unfolding render_file render_line render_value preset_id_str mode_name invert_text
twice_short = omega arith

load_rules-render_file_example :
    ((k : ℕ) → lookup (load_rules (some (render_file twice)) fresh).0 k ≡ last_entry twice k)
    × ((load_rules (some (render_file twice)) fresh).1 ≡ true)
load_rules-render_file_example =
    load_rules-render_file twice fresh twice-AreEntries (omega arith) twice_short refl
