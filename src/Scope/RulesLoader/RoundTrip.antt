-- ===== src/Scope/RulesLoader/RoundTrip.antt =====
-- The line of a rule, as the format documents it, and what reading it gives.
use mathlib.Core.Option
use loginext.Config.Profile.{SensitivityMode, mode_name, mode_from_str}
use loginext.Presets.{PresetId, preset_id_str, preset_id_from_str}
use loginext.Scope.AppHash.{hash_app}
use loginext.Scope.Rules.{invert_inherit, invert_on, invert_off}
use loginext.Scope.RulesLoader.{
  is_blank, trim_front, keep_back, trim_back, trim, split_at, split_csv, rule_invert, read_entry,
  read_line,
}
use loginext.Prelude.{
  ℕ, ◌≡◌, ◌≢◌, refl, ap, true, false, ◌==◌, none, some, ℤ, [], ◌∷◌, ◌++◌, Bytes, codes, arith,
}

pub data InvertFlag : Type 0 where
  inherit on off : InvertFlag

unfoldable pub invert_text : InvertFlag → Bytes
invert_text inherit = []
invert_text on = codes "true"
invert_text off = codes "false"

abbrev pub invert_value : InvertFlag → ℤ
invert_value inherit = invert_inherit
invert_value on = invert_on
invert_value off = invert_off

unfoldable pub render_value : PresetId → SensitivityMode → InvertFlag → Bytes
render_value p m i = preset_id_str p ++ b',' ∷ (mode_name m ++ b',' ∷ invert_text i)

-- `app=preset,mode,invert`
unfoldable pub render_line : Bytes → PresetId → SensitivityMode → InvertFlag → Bytes
render_line app p m i = app ++ b'=' ∷ render_value p m i

-- An application id that a line can hold: no blank at either end, no comment, no `=`.
pub record IsName (c : ℕ) (s : Bytes) : Type 0 where
  pub not_blank : is_blank c ≡ false
  pub not_comment : (c == b'#') ≡ false
  pub no_equals : split_at b'=' (c ∷ s) ≡ none
  pub closed : trim_back (c ∷ s) ≡ c ∷ s

trim_back-append :
    (a : Bytes) (y : ℕ) (t : Bytes)
    → trim_back (y ∷ t) ≡ y ∷ t
    → trim_back (a ++ y ∷ t) ≡ a ++ y ∷ t
unfolding trim_back
trim_back-append [] y t e = e
trim_back-append (x ∷ []) y t e = ap (keep_back x) e
trim_back-append (x ∷ z ∷ a) y t e = ap (keep_back x) (trim_back-append (z ∷ a) y t e)

split_at_none :
    (x : ℕ) (a : Bytes)
    → split_at b'=' (x ∷ a) ≡ none
    → ((x == b'=') ≡ false) × (split_at b'=' a ≡ none)
unfolding split_at
split_at_none x a e = ground arith

split_at-append :
    (a t : Bytes) → split_at b'=' a ≡ none → split_at b'=' (a ++ b'=' ∷ t) ≡ some (a, t)
unfolding split_at
split_at-append [] t e = refl
split_at-append (x ∷ a) t e =
    let (other, rest) = split_at_none x a e in
    rw other (ap (Option.map (λ (r : Bytes × Bytes). (x ∷ r.0, r.1))) (split_at-append a t rest))

trim_front_lem : (c : ℕ) (s : Bytes) → is_blank c ≡ false → trim_front (c ∷ s) ≡ c ∷ s
unfolding trim_front
trim_front_lem c s e = rw e

flag-closed : (i : InvertFlag) → trim_back (b',' ∷ invert_text i) ≡ b',' ∷ invert_text i
unfolding trim_back invert_text
flag-closed inherit = refl
flag-closed on = refl
flag-closed off = refl

value-closed :
    (p : PresetId) (m : SensitivityMode) (i : InvertFlag)
    → trim_back (b'=' ∷ render_value p m i) ≡ b'=' ∷ render_value p m i
unfolding render_value
value-closed p m i =
    trim_back-append (b'=' ∷ preset_id_str p) b',' (mode_name m ++ b',' ∷ invert_text i)
      (trim_back-append (b',' ∷ mode_name m) b',' (invert_text i) (flag-closed i))

read_value :
    (c : ℕ) (app : Bytes) (p : PresetId) (m : SensitivityMode) (i : InvertFlag)
    → p ≢ PresetId.count
    → read_entry (c ∷ app) (trim (render_value p m i)) ≡ (
      some
          (record { app_hash = hash_app (c ∷ app); preset = p; mode = m; invert = invert_value i }),
      true,
    )
unfolding render_value invert_text trim trim_front trim_back split_csv split_at rule_invert
    preset_id_str preset_id_from_str mode_name mode_from_str
read_value c app PresetId.tab_nav SensitivityMode.low InvertFlag.inherit ne = refl
read_value c app PresetId.tab_nav SensitivityMode.low InvertFlag.on ne = refl
read_value c app PresetId.tab_nav SensitivityMode.low InvertFlag.off ne = refl
read_value c app PresetId.tab_nav SensitivityMode.medium InvertFlag.inherit ne = refl
read_value c app PresetId.tab_nav SensitivityMode.medium InvertFlag.on ne = refl
read_value c app PresetId.tab_nav SensitivityMode.medium InvertFlag.off ne = refl
read_value c app PresetId.tab_nav SensitivityMode.high InvertFlag.inherit ne = refl
read_value c app PresetId.tab_nav SensitivityMode.high InvertFlag.on ne = refl
read_value c app PresetId.tab_nav SensitivityMode.high InvertFlag.off ne = refl
read_value c app PresetId.tab_nav SensitivityMode.inherit InvertFlag.inherit ne = refl
read_value c app PresetId.tab_nav SensitivityMode.inherit InvertFlag.on ne = refl
read_value c app PresetId.tab_nav SensitivityMode.inherit InvertFlag.off ne = refl
read_value c app PresetId.zoom SensitivityMode.low InvertFlag.inherit ne = refl
read_value c app PresetId.zoom SensitivityMode.low InvertFlag.on ne = refl
read_value c app PresetId.zoom SensitivityMode.low InvertFlag.off ne = refl
read_value c app PresetId.zoom SensitivityMode.medium InvertFlag.inherit ne = refl
read_value c app PresetId.zoom SensitivityMode.medium InvertFlag.on ne = refl
read_value c app PresetId.zoom SensitivityMode.medium InvertFlag.off ne = refl
read_value c app PresetId.zoom SensitivityMode.high InvertFlag.inherit ne = refl
read_value c app PresetId.zoom SensitivityMode.high InvertFlag.on ne = refl
read_value c app PresetId.zoom SensitivityMode.high InvertFlag.off ne = refl
read_value c app PresetId.zoom SensitivityMode.inherit InvertFlag.inherit ne = refl
read_value c app PresetId.zoom SensitivityMode.inherit InvertFlag.on ne = refl
read_value c app PresetId.zoom SensitivityMode.inherit InvertFlag.off ne = refl
read_value c app PresetId.none SensitivityMode.low InvertFlag.inherit ne = refl
read_value c app PresetId.none SensitivityMode.low InvertFlag.on ne = refl
read_value c app PresetId.none SensitivityMode.low InvertFlag.off ne = refl
read_value c app PresetId.none SensitivityMode.medium InvertFlag.inherit ne = refl
read_value c app PresetId.none SensitivityMode.medium InvertFlag.on ne = refl
read_value c app PresetId.none SensitivityMode.medium InvertFlag.off ne = refl
read_value c app PresetId.none SensitivityMode.high InvertFlag.inherit ne = refl
read_value c app PresetId.none SensitivityMode.high InvertFlag.on ne = refl
read_value c app PresetId.none SensitivityMode.high InvertFlag.off ne = refl
read_value c app PresetId.none SensitivityMode.inherit InvertFlag.inherit ne = refl
read_value c app PresetId.none SensitivityMode.inherit InvertFlag.on ne = refl
read_value c app PresetId.none SensitivityMode.inherit InvertFlag.off ne = refl
read_value c app PresetId.count m i ne = absurd (ne refl)

module _ (c : ℕ) (s : Bytes) (name : IsName c s) (p : PresetId) (m : SensitivityMode)
    (i : InvertFlag) where
  trim_line : trim (render_line (c ∷ s) p m i) ≡ render_line (c ∷ s) p m i
  unfolding trim render_line
  trim_line =
      rw (trim_front_lem c (s ++ b'=' ∷ render_value p m i) name.not_blank)
        (trim_back-append (c ∷ s) b'=' (render_value p m i) (value-closed p m i))

  trim_name : trim (c ∷ s) ≡ c ∷ s
  unfolding trim
  trim_name = rw (trim_front_lem c s name.not_blank) name.closed

  -- A line that gives an application a preset, a mode and an invert flag (the last two may be to
  -- inherit) is read back without an error as the rule of that application's hash. The application's
  -- id is not empty, has no blank at either end, does not start with `#` and has no `=`; the preset is
  -- no sentinel.
  pub read_line-render_line :
      p ≢ PresetId.count
      → read_line (render_line (c ∷ s) p m i) ≡ (
        some
            (record { app_hash = hash_app (c ∷ s); preset = p; mode = m; invert = invert_value i }),
        true,
      )
  unfolding read_line render_line
  read_line-render_line ne =
      rw
        (
          trim_line,
          name.not_comment,
          split_at-append (c ∷ s) (render_value p m i) name.no_equals,
          trim_name,
        )
        (read_value c s p m i ne)
