-- ===== src/Scope/RulesLoader/WholeFile.antt =====
-- A whole rules file, as the format documents it, and what loading it gives.
use loginext.Config.Profile.{SensitivityMode, mode_name}
use loginext.Presets.{PresetId, preset_id_str}
use loginext.Scope.AppHash.{hash_app}
use loginext.Scope.Rules.{AppRule, RuleTable, rule_capacity, lookup}
use loginext.Scope.RulesLoader.Load.{
  or_else, assigned, last_rule, rule_lines, all_fine, file_lines, load_rules-lookup,
}
use loginext.Scope.RulesLoader.RoundTrip.{
  IsName, InvertFlag, invert_text, invert_value, render_value, render_line, read_line-render_line,
}
use loginext.Scope.RulesLoader.{grow_line, split_lines, read_line, load_rules}
use loginext.Prelude.{
  ℕ, ◌≤◌, ◌≡◌, ◌≢◌, refl, sym, ap, subst, ◌∙◌, Bool, true, false, ◌==◌, if◌then◌else◌, Option, none,
  some, List, [], ◌∷◌, ◌++◌, length, Bytes, take_all, arith,
}

-- An application with its overrides; its id starts with `head`.
pub record RuleEntry : Type 0 where
  pub head : ℕ
  pub tail : Bytes
  pub preset : PresetId
  pub mode : SensitivityMode
  pub invert : InvertFlag

abbrev pub rule_of : RuleEntry → AppRule
rule_of e = record {
  app_hash = hash_app (e.head ∷ e.tail);
  preset = e.preset;
  mode = e.mode;
  invert = invert_value e.invert;
}

abbrev pub line_of : RuleEntry → Bytes
line_of e = render_line (e.head ∷ e.tail) e.preset e.mode e.invert

-- One line per entry
unfoldable pub render_file : List RuleEntry → Bytes
render_file [] = []
render_file (e ∷ es) = line_of e ++ b'\n' ∷ render_file es

-- The rule of the last entry for an application.
unfoldable pub last_entry : List RuleEntry → ℕ → Option AppRule
last_entry [] k = none
last_entry (e ∷ es) k = or_else (last_entry es k) (assigned (some (rule_of e)) k)

abbrev pub is_one_line : Bytes → Bool
is_one_line [] = true
is_one_line (c ∷ s) = if c == b'\n' then false else is_one_line s

-- What a line can say: an id that it can hold, and a preset that is no sentinel.
pub record IsEntry (e : RuleEntry) : Type 0 where
  pub name : IsName e.head e.tail
  pub one_line : is_one_line (e.head ∷ e.tail) ≡ true
  pub no_sentinel : e.preset ≢ PresetId.count

pub data AreEntries : List RuleEntry → Type 0 where
  nil : AreEntries []
  cons : {e : RuleEntry} {es : List RuleEntry} → IsEntry e → AreEntries es → AreEntries (e ∷ es)

is_one_line-append :
    (a b : Bytes) → is_one_line a ≡ true → is_one_line b ≡ true → is_one_line (a ++ b) ≡ true
is_one_line-append [] b p q = q
is_one_line-append (c ∷ a) b p q = ground (arith, is_one_line-append a b)

one_line-preset : (p : PresetId) → is_one_line (preset_id_str p) ≡ true
unfolding preset_id_str
one_line-preset PresetId.tab_nav = refl
one_line-preset PresetId.zoom = refl
one_line-preset PresetId.none = refl
one_line-preset PresetId.count = refl

one_line-mode : (m : SensitivityMode) → is_one_line (mode_name m) ≡ true
unfolding mode_name
one_line-mode SensitivityMode.low = refl
one_line-mode SensitivityMode.medium = refl
one_line-mode SensitivityMode.high = refl
one_line-mode SensitivityMode.inherit = refl

one_line-invert : (i : InvertFlag) → is_one_line (invert_text i) ≡ true
unfolding invert_text
one_line-invert InvertFlag.inherit = refl
one_line-invert InvertFlag.on = refl
one_line-invert InvertFlag.off = refl

one_line-line : (e : RuleEntry) → IsEntry e → is_one_line (line_of e) ≡ true
unfolding render_line render_value
one_line-line e h =
    let behind = b',' ∷ invert_text e.invert in
    let fields = b',' ∷ (mode_name e.mode ++ behind) in
    is_one_line-append (e.head ∷ e.tail) (b'=' ∷ (preset_id_str e.preset ++ fields)) h.one_line (
      is_one_line-append (preset_id_str e.preset) fields (one_line-preset e.preset) (
        is_one_line-append (mode_name e.mode) behind (one_line-mode e.mode)
          (one_line-invert e.invert)))

-- The first byte is no newline, and neither is one of the others.
one_line_split :
    (c : ℕ) (s : Bytes)
    → is_one_line (c ∷ s) ≡ true
    → ((c == b'\n') ≡ false) × (is_one_line s ≡ true)
one_line_split c s e = ground arith

split_lines-append :
    (a rest : Bytes) → is_one_line a ≡ true → split_lines (a ++ b'\n' ∷ rest) ≡ a ∷ split_lines rest
unfolding split_lines
split_lines-append [] rest e = refl
split_lines-append (c ∷ a) rest e =
    let (other, e') = one_line_split c a e in
    rw other (ap (grow_line c) (split_lines-append a rest e'))

-- What the reader says of the lines of a file of entries.
record Reads (es : List RuleEntry) (lines : List Bytes) : Type 0 where
  last : (k : ℕ) → last_rule lines k ≡ last_entry es k
  size : rule_lines lines ≡ length es
  fine : all_fine lines ≡ true

read_entry_line : (e : RuleEntry) → IsEntry e → read_line (line_of e) ≡ (some (rule_of e), true)
read_entry_line e h =
    read_line-render_line e.head e.tail h.name e.preset e.mode e.invert h.no_sentinel

lines-Reads : (es : List RuleEntry) → AreEntries es → Reads es (split_lines (render_file es))
unfolding render_file split_lines last_rule rule_lines all_fine last_entry
lines-Reads [] nil = record { last = λ k. refl; size = refl; fine = refl }
lines-Reads (e ∷ es) (cons h hs) =
    let rest = lines-Reads es hs in
    let line = read_entry_line e h in
    subst (Reads (e ∷ es))
      (sym (split_lines-append (line_of e) (render_file es) (one_line-line e h)))
      (record {
        last = λ k. rw (line, rest.last k) refl;
        size = rw (line, rest.size) (omega arith);
        fine = rw (line, rest.fine) refl;
      })

-- At most 32 entries, in a file of at most 4095 bytes, each with an id that a line can hold and a preset
-- that is no sentinel: after loading the file that lists them, whatever the 64 slots held before, an
-- application has the rule of its last entry, one without an entry has none, and no error is reported.
pub load_rules-render_file :
    (es : List RuleEntry) (t : RuleTable)
    → AreEntries es
    → length es ≤ 32
    → length (render_file es) ≤ 4095
    → length t.slots ≡ rule_capacity
    → ((k : ℕ) → lookup (load_rules (some (render_file es)) t).0 k ≡ last_entry es k)
      × ((load_rules (some (render_file es)) t).1 ≡ true)
load_rules-render_file es t hs few short w =
    let r : Reads es (file_lines (render_file es)) =
      rw (take_all 4095 (render_file es) short) (lines-Reads es hs) in
    let (reads, flag) = load_rules-lookup (render_file es) t w (omega (arith, r.size)) in
    (λ k. reads k ∙ r.last k, flag ∙ r.fine)
