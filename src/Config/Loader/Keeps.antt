-- ===== src/Config/Loader/Keeps.antt =====
-- What a load does to the settings.
use mathlib.Core.Option
use loginext.Config.Loader.{
  ◌>>=◌, peek, consume, skip_ws, parse_string_view, parse_bool, skip_value, sensitivity, set_mode,
  set_invert, set_preset, apply_value, parse_member, after_member, parse_members, parse_object,
  parse, load_settings, loaded,
}
use loginext.Config.Profile.{SensitivityMode}
use loginext.Config.Settings.{Settings, apply_mode, IsConsistent}
use loginext.Presets.{PresetId, preset_id_from_str}
use loginext.Prelude.{
  ℕ, zero, suc, ◌≢◌, refl, Bool, true, false, ◌==◌, if◌then◌else◌, Option, none, some, [], ◌∷◌,
  length, take, Bytes, codes, eq_bytes, arith,
}

-- The settings that the parser may build: a real mode and a real preset.
pub record IsReal (s : Settings) : Type 0 where
  pub mode_ne : s.mode ≢ SensitivityMode.inherit
  pub preset_ne : s.active_preset ≢ PresetId.count

abbrev Yields {ℓ κ} : {A : Type ℓ} → (A → Type κ) → Option A → Type κ
Yields P none = Unit
Yields P (some a) = P a

bind-Yields {ℓ κ} :
    {A : Type ℓ} {B : Type ℓ} (P : A → Type κ) (Q : B → Type κ) (m : Option A) (f : A → Option B)
    → Yields P m
    → ((a : A) → P a → Yields Q (f a))
    → Yields Q (m >>= f)
bind-Yields P Q none f h k = tt
bind-Yields P Q (some a) f h k = k a h

any-Yields {ℓ} : {A : Type ℓ} (m : Option A) → Yields (λ a. Unit {0}) m
any-Yields none = tt
any-Yields (some a) = tt

sensitivity-Yields : (v : Bytes) → Yields (λ m. m ≢ SensitivityMode.inherit) (sensitivity v)
unfolding sensitivity
sensitivity-Yields v = ground arith

preset_id_from_str-Yields : (v : Bytes) → Yields (λ id. id ≢ PresetId.count) (preset_id_from_str v)
unfolding preset_id_from_str
preset_id_from_str-Yields v = ground arith

abbrev RealWith : Settings × Bytes → Type 0
RealWith x = IsReal x.0

module _ (out : Settings) (real : IsReal out) (s : Bytes) where
  set_mode-Yields : Yields RealWith (set_mode out s)
  set_mode-Yields =
      bind-Yields (λ x. Unit {0}) RealWith (parse_string_view s) _
        (any-Yields (parse_string_view s))
        (λ x t.
          bind-Yields (λ m. m ≢ SensitivityMode.inherit) RealWith (sensitivity x.0) _
            (sensitivity-Yields x.0) (λ m ne. record { mode_ne = ne; preset_ne = real.preset_ne }))

  set_invert-Yields : Yields RealWith (set_invert out s)
  set_invert-Yields =
      bind-Yields (λ x. Unit {0}) RealWith (parse_bool s) _ (any-Yields (parse_bool s))
        (λ x t. record { mode_ne = real.mode_ne; preset_ne = real.preset_ne })

  set_preset-Yields : Yields RealWith (set_preset out s)
  set_preset-Yields =
      bind-Yields (λ x. Unit {0}) RealWith (parse_string_view s) _
        (any-Yields (parse_string_view s))
        (λ x t.
          bind-Yields (λ id. id ≢ PresetId.count) RealWith (preset_id_from_str x.0) _
            (preset_id_from_str-Yields x.0)
            (λ id ne. record { mode_ne = real.mode_ne; preset_ne = ne }))

  skipped-Yields : (o : Option Bytes) → Yields RealWith (Option.map (λ r. (out, r)) o)
  skipped-Yields none = tt
  skipped-Yields (some r) = real

  pick-Yields :
      (a b c : Bool)
      → Yields RealWith (
          if a
          then set_mode out s
          else if b
          then set_invert out s
          else if c
          then set_preset out s
          else Option.map (λ r. (out, r)) (skip_value s))
  pick-Yields true b c = set_mode-Yields
  pick-Yields false true c = set_invert-Yields
  pick-Yields false false true = set_preset-Yields
  pick-Yields false false false = skipped-Yields (skip_value s)

  apply_value-Yields : (key : Bytes) → Yields RealWith (apply_value key out s)
  unfolding apply_value
  apply_value-Yields key =
      pick-Yields (eq_bytes key (codes "sensitivity")) (eq_bytes key (codes "invert_hwheel"))
        (eq_bytes key (codes "active_preset"))

parse_member-Yields :
    (s : Bytes) (out : Settings) → IsReal out → Yields RealWith (parse_member s out)
unfolding parse_member
parse_member-Yields s out real =
    bind-Yields (λ x. Unit {0}) RealWith (parse_string_view (skip_ws s)) _
      (any-Yields (parse_string_view (skip_ws s)))
      (λ x t.
        bind-Yields (λ r. Unit {0}) RealWith (consume b':' (skip_ws x.1)) _
          (any-Yields (consume b':' (skip_ws x.1)))
          (λ r t'.
            bind-Yields RealWith RealWith (apply_value x.0 out (skip_ws r)) _
              (apply_value-Yields out real (skip_ws r) x.0) (λ y real'. real')))

end-Yields :
    (out : Settings) (o : Option Bytes) → IsReal out → Yields IsReal (Option.map (λ r. out) o)
end-Yields out none real = tt
end-Yields out (some r) real = real

after_member-Yields :
    (loop : Bytes → Settings → Option Settings) (out : Settings) (r : Bytes) (c : Option Bytes)
    → IsReal out
    → ((r' : Bytes) → Yields IsReal (loop r' out))
    → Yields IsReal (after_member loop out r c)
after_member-Yields loop out r (some r') real h = h r'
after_member-Yields loop out r none real h = end-Yields out (consume b'}' r) real

parse_members-Yields :
    (n : ℕ) (s : Bytes) (out : Settings) → IsReal out → Yields IsReal (parse_members n s out)
unfolding parse_members
parse_members-Yields zero s out real = tt
parse_members-Yields (suc n) s out real =
    bind-Yields RealWith IsReal (parse_member s out) _ (parse_member-Yields s out real) (λ x real'.
      after_member-Yields (parse_members n) x.0 x.1 (consume b',' x.1) real'
        (λ r'. parse_members-Yields n r' x.0 real'))

choose-Yields :
    (b : Bool) (out : Settings) (o : Option Settings)
    → IsReal out
    → Yields IsReal o
    → Yields IsReal (if b then some out else o)
choose-Yields true out o real h = real
choose-Yields false out o real h = h

parse_object-Yields : (s : Bytes) (out : Settings) → IsReal out → Yields IsReal (parse_object s out)
unfolding parse_object
parse_object-Yields s out real =
    choose-Yields (peek s == b'}') out _ real (parse_members-Yields (suc (length s)) s out real)

parse-Yields : (s : Bytes) (out : Settings) → IsReal out → Yields IsReal (parse s out)
unfolding parse
parse-Yields s out real =
    bind-Yields (λ r. Unit {0}) IsReal (consume b'{' (skip_ws s)) _
      (any-Yields (consume b'{' (skip_ws s))) (λ r t. parse_object-Yields (skip_ws r) out real)

loaded-IsConsistent :
    (s : Settings) (o : Option Settings)
    → IsConsistent s
    → Yields IsReal o
    → IsConsistent (loaded s o).0
unfolding apply_mode
loaded-IsConsistent s none c h = c
loaded-IsConsistent s (some tmp) c h = record {
  profile_is = refl;
  mode_ne = h.mode_ne;
  preset_ne = h.preset_ne;
}

-- Whatever the file holds, and whether it can be read or not, `load_settings` leaves consistent
-- settings consistent: the mode is one of the three real modes, the preset a real one, and the
-- profile is the mode's.
pub load_settings-IsConsistent :
    (file : Option Bytes) (s : Settings) → IsConsistent s → IsConsistent (load_settings file s).0
unfolding load_settings
load_settings-IsConsistent none s c = c
load_settings-IsConsistent (some []) s c = c
load_settings-IsConsistent (some (x ∷ text)) s c =
    loaded-IsConsistent s (parse (take 4095 (x ∷ text)) s) c (
      parse-Yields (take 4095 (x ∷ text)) s
        (record { mode_ne = c.mode_ne; preset_ne = c.preset_ne }))
