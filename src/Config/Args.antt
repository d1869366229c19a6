-- ===== src/Config/Args.antt =====
-- config/args.cpp: the command line. `getopt_long` is a library function: the model takes the options
-- that it returns, each with its argument.
use loginext.Config.Profile.{SensitivityMode}
use loginext.Prelude.{
  Bool, true, false, ◌||◌, if◌then◌else◌, Option, none, some, List, [], ◌∷◌, ◌≢◌, Bytes, codes,
  eq_bytes, arith,
}

-- The return values of `getopt_long` for the options of `parse_args`; `unknown` is '?'.
pub data Opt : Type 0 where
  mode invert config : Bytes → Opt
  quiet verbose debug_events debug_perf help unknown : Opt

pub record CliOptions : Type 0 where
  pub config_path : Bytes
  pub mode : SensitivityMode
  pub invert_hwheel : Bool
  pub cli_mode_set : Bool
  pub cli_invert_set : Bool
  pub help : Bool
  pub quiet : Bool
  pub verbose : Bool
  pub debug_events : Bool
  pub debug_perf : Bool

-- `CliOptions{}`
abbrev pub no_options : CliOptions
no_options = record {
  config_path = [];
  mode = SensitivityMode.medium;
  invert_hwheel = true;
  cli_mode_set = false;
  cli_invert_set = false;
  help = false;
  quiet = false;
  verbose = false;
  debug_events = false;
  debug_perf = false;
}

-- `none` is the result `false`, which leaves `out` unchanged.
unfoldable pub parse_mode : Bytes → Option SensitivityMode
parse_mode arg =
    let eq = eq_bytes arg in
    if eq (codes "low")
    then some SensitivityMode.low
    else if eq (codes "medium")
    then some SensitivityMode.medium
    else if eq (codes "high")
    then some SensitivityMode.high
    else none

unfoldable pub parse_bool : Bytes → Option Bool
parse_bool arg =
    let eq = eq_bytes arg in
    if eq (codes "true") || eq (codes "1")
    then some true
    else if eq (codes "false") || eq (codes "0")
    then some false
    else none

-- A round of the loop goes on, or returns.
pub data Step : Type 0 where
  go : CliOptions → Step
  stop : CliOptions → Bool → Step

abbrev pub take_mode : CliOptions → Option SensitivityMode → Step
take_mode out none = stop out false
take_mode out (some m) = go (record out { mode = m; cli_mode_set = true })

abbrev pub take_invert : CliOptions → Option Bool → Step
take_invert out none = stop out false
take_invert out (some b) = go (record out { invert_hwheel = b; cli_invert_set = true })

-- The switch; the flag of `stop` is true for the result 0.
unfoldable pub apply_opt : Opt → CliOptions → Step
apply_opt (Opt.mode arg) out = take_mode out (parse_mode arg)
apply_opt (Opt.invert arg) out = take_invert out (parse_bool arg)
apply_opt (Opt.config arg) out = go (record out { config_path = arg })
apply_opt Opt.quiet out = go (record out { quiet = true })
apply_opt Opt.verbose out = go (record out { verbose = true })
apply_opt Opt.debug_events out = go (record out { debug_events = true })
apply_opt Opt.debug_perf out = go (record out { debug_perf = true })
apply_opt Opt.help out = stop (record out { help = true }) true
apply_opt Opt.unknown out = stop out false

abbrev pub follow : (CliOptions → CliOptions × Bool) → Step → CliOptions × Bool
follow loop (go out) = loop out
follow loop (stop out ok) = (out, ok)

unfoldable pub parse_args : List Opt → CliOptions → CliOptions × Bool
parse_args [] out = (out, true)
parse_args (o ∷ opts) out = follow (parse_args opts) (apply_opt o out)

IsMode : Option SensitivityMode → Type 0
IsMode none = Unit
IsMode (some m) = m ≢ SensitivityMode.inherit

parse_mode-IsMode : (arg : Bytes) → IsMode (parse_mode arg)
unfolding parse_mode IsMode
parse_mode-IsMode arg = ground arith

HasMode : Step → Type 0
HasMode (go out) = out.mode ≢ SensitivityMode.inherit
HasMode (stop out ok) = out.mode ≢ SensitivityMode.inherit

take_mode-HasMode :
    (out : CliOptions) (o : Option SensitivityMode)
    → out.mode ≢ SensitivityMode.inherit
    → IsMode o
    → HasMode (take_mode out o)
unfolding HasMode IsMode
take_mode-HasMode out none h p = h
take_mode-HasMode out (some m) h p = p

take_invert-HasMode :
    (out : CliOptions) (o : Option Bool)
    → out.mode ≢ SensitivityMode.inherit
    → HasMode (take_invert out o)
unfolding HasMode
take_invert-HasMode out none h = h
take_invert-HasMode out (some b) h = h

apply_opt-HasMode :
    (o : Opt) (out : CliOptions) → out.mode ≢ SensitivityMode.inherit → HasMode (apply_opt o out)
unfolding apply_opt HasMode
apply_opt-HasMode (Opt.mode arg) out h =
    take_mode-HasMode out (parse_mode arg) h (parse_mode-IsMode arg)
apply_opt-HasMode (Opt.invert arg) out h = take_invert-HasMode out (parse_bool arg) h
apply_opt-HasMode (Opt.config arg) out h = h
apply_opt-HasMode Opt.quiet out h = h
apply_opt-HasMode Opt.verbose out h = h
apply_opt-HasMode Opt.debug_events out h = h
apply_opt-HasMode Opt.debug_perf out h = h
apply_opt-HasMode Opt.help out h = h
apply_opt-HasMode Opt.unknown out h = h

follow-mode :
    (loop : CliOptions → CliOptions × Bool) (x : Step)
    → HasMode x
    → ((out : CliOptions)
        → out.mode ≢ SensitivityMode.inherit
        → (loop out).0.mode ≢ SensitivityMode.inherit)
    → (follow loop x).0.mode ≢ SensitivityMode.inherit
unfolding HasMode
follow-mode loop (go out) h e = e out h
follow-mode loop (stop out ok) h e = h

-- Whatever the options are, the mode that `parse_args` leaves is a real one if it was one before.
pub parse_args-mode :
    (opts : List Opt) (out : CliOptions)
    → out.mode ≢ SensitivityMode.inherit
    → (parse_args opts out).0.mode ≢ SensitivityMode.inherit
unfolding parse_args
parse_args-mode [] out h = h
parse_args-mode (o ∷ opts) out h =
    follow-mode (parse_args opts) (apply_opt o out) (apply_opt-HasMode o out h)
      (parse_args-mode opts)
