-- ===== src/Config/Loader.antt =====
-- config/loader.cpp: the reader of the flat JSON configuration. The parser's `src_` and `pos_` are
-- the bytes that are left. A `false` result is `none`; the position serves only the messages.
pub mod Fuel
pub mod Keeps
pub mod RoundTrip
use mathlib.Core.Option
use loginext.Config.Profile.{SensitivityMode}
use loginext.Config.Settings.{Settings, apply_mode}
use loginext.Presets.{preset_id_from_str}
use loginext.Prelude.{
  ℕ, zero, suc, Bool, true, false, ◌&&◌, ◌||◌, leb, ◌==◌, if◌then◌else◌, Option, none, some, List,
  [], ◌∷◌, length, take, Bytes, codes, eq_bytes,
}

infixl 5 ◌>>=◌
abbrev pub ◌>>=◌ {ℓ κ} : {A : Type ℓ} {B : Type κ} → Option A → (A → Option B) → Option B
none >>= f = none
some a >>= f = f a

abbrev pub peek : Bytes → ℕ
peek [] = 0
peek (c ∷ s) = c

-- `consume`; the program consumes no NUL, so it fails at the end.
abbrev pub consume : ℕ → Bytes → Option Bytes
consume c [] = none
consume c (x ∷ s) = if x == c then some s else none

-- `std::isspace` in the C locale
abbrev pub is_space : ℕ → Bool
is_space c = c == b' ' || (leb 9 c && leb c 13)

unfoldable pub skip_ws : Bytes → Bytes
skip_ws [] = []
skip_ws (c ∷ s) = if is_space c then skip_ws s else c ∷ s

-- `match`: the bytes behind the literal
unfoldable pub match_lit : Bytes → Bytes → Option Bytes
match_lit [] s = some s
match_lit (x ∷ lit) [] = none
match_lit (x ∷ lit) (c ∷ s) = if x == c then match_lit lit s else none

-- From behind the opening quote: the text up to the next one, and what follows that.
unfoldable pub string_body : Bytes → Option (Bytes × Bytes)
string_body [] = none
string_body (c ∷ s) =
    let rest = Option.map (λ (r : Bytes × Bytes). (c ∷ r.0, r.1)) (string_body s) in
    if c == b'"' then some ([], s) else if c == b'\\' then none else rest

unfoldable pub parse_string_view : Bytes → Option (Bytes × Bytes)
parse_string_view s = consume b'"' s >>= string_body

-- What the two attempts of `parse_bool` give.
abbrev pub choose_bool : Option Bytes → Option Bytes → Option (Bool × Bytes)
choose_bool (some r) f = some (true, r)
choose_bool none (some r) = some (false, r)
choose_bool none none = none

unfoldable pub parse_bool : Bytes → Option (Bool × Bytes)
parse_bool s = choose_bool (match_lit (codes "true") s) (match_lit (codes "false") s)

unfoldable pub skip_value : Bytes → Option Bytes
skip_value s =
    if peek s == b'"'
    then Option.map (λ (r : Bytes × Bytes). r.1) (parse_string_view s)
    else if peek s == b't' || peek s == b'f'
    then Option.map (λ (r : Bool × Bytes). r.1) (parse_bool s)
    else none

-- The mode that the configuration may name.
unfoldable pub sensitivity : Bytes → Option SensitivityMode
sensitivity v =
    if eq_bytes v (codes "low")
    then some SensitivityMode.low
    else if eq_bytes v (codes "medium")
    then some SensitivityMode.medium
    else if eq_bytes v (codes "high")
    then some SensitivityMode.high
    else none

-- The three branches of `apply_value` for known keys.
abbrev pub set_mode : Settings → Bytes → Option (Settings × Bytes)
set_mode out s = do
  (v, r) ← parse_string_view s
  m ← sensitivity v
  some (record out { mode = m }, r)

abbrev pub set_invert : Settings → Bytes → Option (Settings × Bytes)
set_invert out s = do (b, r) ← parse_bool s; some (record out { invert_hwheel = b }, r)

abbrev pub set_preset : Settings → Bytes → Option (Settings × Bytes)
set_preset out s = do
  (v, r) ← parse_string_view s
  id ← preset_id_from_str v
  some (record out { active_preset = id }, r)

unfoldable pub apply_value : Bytes → Settings → Bytes → Option (Settings × Bytes)
apply_value key out s =
    if eq_bytes key (codes "sensitivity")
    then set_mode out s
    else if eq_bytes key (codes "invert_hwheel")
    then set_invert out s
    else if eq_bytes key (codes "active_preset")
    then set_preset out s
    else Option.map (λ r. (out, r)) (skip_value s)

-- One round of the loop, up to the comma or the brace.
unfoldable pub parse_member : Bytes → Settings → Option (Settings × Bytes)
parse_member s out = do
  (key, r) ← parse_string_view (skip_ws s)
  r' ← consume b':' (skip_ws r)
  (out', r'') ← apply_value key out (skip_ws r')
  some (out', skip_ws r'')

-- The end of a round: on from a comma, or out at the brace.
abbrev pub after_member :
    (Bytes → Settings → Option Settings) → Settings → Bytes → Option Bytes → Option Settings
after_member loop out r (some r') = loop r' out
after_member loop out r none = Option.map (λ r'. out) (consume b'}' r)

-- The loop of `parse`, on fuel; each round reads at least one byte.
unfoldable pub parse_members : ℕ → Bytes → Settings → Option Settings
parse_members zero s out = none
parse_members (suc fuel) s out = do
  (out', r) ← parse_member s out
  after_member (parse_members fuel) out' r (consume b',' r)

-- Behind the opening brace: `}` at once, or the members. One unit of fuel more than there are bytes
-- is enough.
unfoldable pub parse_object : Bytes → Settings → Option Settings
parse_object s out = if peek s == b'}' then some out else parse_members (suc (length s)) s out

-- `Parser::parse`
unfoldable pub parse : Bytes → Settings → Option Settings
parse src out = do s ← consume b'{' (skip_ws src); parse_object (skip_ws s) out

-- What `load_settings` makes of the parser's result.
abbrev pub loaded : Settings → Option Settings → Settings × Bool
loaded s none = (s, false)
loaded s (some tmp) = (apply_mode tmp, true)

-- `load_settings`. The file is `none` if the path is empty or the file cannot be opened or read; the
-- buffer takes 4095 bytes of it. The flag is the function's result.
unfoldable pub load_settings : Option Bytes → Settings → Settings × Bool
load_settings none s = (s, false)
load_settings (some []) s = (s, false)
load_settings (some (c ∷ text)) s = loaded s (parse (take 4095 (c ∷ text)) s)
