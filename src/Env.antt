-- ===== src/Env.antt =====
-- The environment of the process, as the components ask for it: `getenv`, `getuid` and the password
-- database, and the C texts that are printed from it.
pub mod Digits
use loginext.Prelude.{
  ℕ, zero, suc, ◌+◌, ◌-◌, ◌*◌, ◌/◌, ◌%◌, ◌^◌, min, Bool, true, false, ◌&&◌, ◌||◌, leb, ltb, ◌==◌,
  if◌then◌else◌, Option, none, some, List, [], ◌∷◌, ◌++◌, length, take, Bytes, codes,
}

-- A variable that is not set is `none`. `home_of` is what `getpwuid` finds as `pw_dir`.
pub record Env : Type 0 where
  pub xdg_runtime_dir : Option Bytes
  pub xdg_config_home : Option Bytes
  pub xdg_state_home : Option Bytes
  pub home : Option Bytes
  pub sudo_uid : Option Bytes
  pub sudo_gid : Option Bytes
  pub display : Option Bytes
  pub hyprland : Option Bytes
  pub uid : ℕ
  pub home_of : ℕ → Option Bytes

-- `v && *v`
abbrev pub nonempty : Option Bytes → Option Bytes
nonempty none = none
nonempty (some []) = none
nonempty (some (c ∷ s)) = some (c ∷ s)

-- `snprintf` into a buffer of `cap` bytes, checked for a text that is not empty and fits.
abbrev pub fits : ℕ → Bytes → Bool
fits cap text = ltb 0 (length text) && ltb (length text) cap

-- What such a buffer holds after it.
abbrev pub printed : ℕ → Bytes → Bytes
printed cap text = take (cap - 1) text

-- The last `n` decimal digits of a number before a text, without leading zeros.
unfoldable pub digits : ℕ → ℕ → Bytes → Bytes
digits zero n s = s
digits (suc fuel) n s =
    let s' = (b'0' + n % 10) ∷ s in
    let rest = digits fuel (n / 10) s' in if n / 10 == 0 then s' else rest

-- "%u": ten digits are enough for 32 bits.
abbrev pub decimal : ℕ → Bytes
decimal n = digits 10 n []

abbrev pub is_digit : ℕ → Bool
is_digit c = leb b'0' c && leb c b'9'

-- `isspace` in the C locale
abbrev pub is_space : ℕ → Bool
is_space c = c == 32 || (leb 9 c && leb c 13)

-- The digits at the front of a text, added to a number.
abbrev pub read_digits : ℕ → Bytes → ℕ
read_digits n [] = n
read_digits n (c ∷ s) =
    let rest = read_digits (n * 10 + (c - b'0')) s in if is_digit c then rest else n

abbrev pub ulong_max : ℕ
ulong_max = 2 ^ 64 - 1

-- `strtoul` behind the blanks; a value that is too large is ULONG_MAX, and a minus sign negates the
-- result in 64 bits.
abbrev pub read_signed : Bytes → ℕ
read_signed [] = 0
read_signed (c ∷ s) =
    if c == b'-'
    then (if leb (read_digits 0 s) ulong_max
        then (2 ^ 64 - read_digits 0 s) % 2 ^ 64
        else ulong_max)
    else if c == b'+'
    then min ulong_max (read_digits 0 s)
    else min ulong_max (read_digits 0 (c ∷ s))

unfoldable pub strtoul : Bytes → ℕ
strtoul [] = 0
strtoul (c ∷ s) = let rest = strtoul s in if is_space c then rest else read_signed (c ∷ s)

-- The cast to `uid_t` or `gid_t`
abbrev pub to_id : Bytes → ℕ
to_id s = strtoul s % 2 ^ 32

-- The directory of the user that ran sudo, if there is one.
abbrev pub sudo_home : Env → Option Bytes
sudo_home env = elim (nonempty env.sudo_uid) [ none ↦ none | some uid ↦ env.home_of (to_id uid) ]

-- The ids that a file goes to under sudo.
abbrev pub sudo_owner : Env → Option (ℕ × ℕ)
sudo_owner env = elim (nonempty env.sudo_uid) [
  | none ↦ none
  | some uid ↦
      some (to_id uid, elim (nonempty env.sudo_gid) [ none ↦ to_id uid | some gid ↦ to_id gid ])
]

-- `default_config_path` and `default_rules_path`, for the name of the file.
unfoldable pub config_path : Bytes → Env → Bytes
config_path file env = elim (nonempty env.xdg_config_home) [
  | some xdg ↦ xdg ++ codes "/loginext/" ++ file
  | none ↦ elim (sudo_home env) [
    | some dir ↦ dir ++ codes "/.config/loginext/" ++ file
    | none ↦ elim (nonempty env.home) [
      | some home ↦ home ++ codes "/.config/loginext/" ++ file
      | none ↦ []
    ]
  ]
]

unfoldable pub default_config_path : Env → Bytes
default_config_path env = config_path (codes "config.json") env

unfoldable pub default_rules_path : Env → Bytes
default_rules_path env = config_path (codes "app_rules.txt") env
