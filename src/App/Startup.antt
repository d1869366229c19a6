-- ===== src/App/Startup.antt =====
-- main.cpp: `main`. The exits on a bad command line and on `--help` come before anything is taken;
-- `run_main` starts when the log is open. What the system answers at each step is an argument.
pub mod Released
pub mod Logging
use loginext.Config.Args.{CliOptions, no_options, Opt, parse_args, parse_args-mode}
use loginext.Config.Loader.Keeps.{load_settings-IsConsistent}
use loginext.Config.Loader.{load_settings}
use loginext.Config.Profile.{SensitivityMode}
use loginext.Config.Settings.{
  Settings, default_settings, apply_mode, IsConsistent, default-IsConsistent,
}
use loginext.Prelude.{
  ℕ, zero, suc, ◌+◌, ◌≡◌, ◌≢◌, ◌<◌, refl, subst, Bool, true, false, not, ◌&&◌, if◌then◌else◌,
  Option, List, Bytes, Bool-cases, inl, inr, arith,
}

-- The settings: the file first, then the command line.
unfoldable pub start_settings : CliOptions → Option Bytes → Settings
start_settings cli file =
    let s = (load_settings file default_settings).0 in
    let s' = record s {
      mode = if cli.cli_mode_set then cli.mode else s.mode;
      invert_hwheel = if cli.cli_invert_set then cli.invert_hwheel else s.invert_hwheel;
    } in
    apply_mode s'

medium_ne : SensitivityMode.medium ≢ SensitivityMode.inherit
medium_ne e = cc

pick-ne :
    (b : Bool) (m m' : SensitivityMode)
    → m ≢ SensitivityMode.inherit
    → m' ≢ SensitivityMode.inherit
    → (if b then m else m') ≢ SensitivityMode.inherit
pick-ne true m m' h h' = h
pick-ne false m m' h h' = h'

-- Whatever the options and the file are, the daemon starts with consistent settings.
pub start_settings-IsConsistent :
    (opts : List Opt) (file : Option Bytes)
    → IsConsistent (start_settings (parse_args opts no_options).0 file)
unfolding start_settings apply_mode
start_settings-IsConsistent opts file =
    let c = load_settings-IsConsistent file default_settings default-IsConsistent in
    record {
      profile_is = refl;
      mode_ne =
          pick-ne (parse_args opts no_options).0.cli_mode_set _ _
            (parse_args-mode opts no_options medium_ne) c.mode_ne;
      preset_ne = c.preset_ne;
    }

-- What `main` holds: the log, the socket, the grabbed device, the virtual devices, the timer, the
-- epoll instance and the listener's thread.
pub record Held : Type 0 where
  pub log : Bool
  pub ipc : Bool
  pub device : Bool
  pub emitter : Bool
  pub pacer : Bool
  pub loop : Bool
  pub scope : Bool

abbrev pub nothing : Held
nothing = record {
  log = false;
  ipc = false;
  device = false;
  emitter = false;
  pacer = false;
  loop = false;
  scope = false;
}

-- Whether each step succeeds. `found` and `stopped` are indexed by the attempt to find the device.
pub record Answers : Type 0 where
  pub ipc_ok : Bool
  pub found : ℕ → Bool
  pub stopped : ℕ → Bool
  pub grab_ok : Bool
  pub emitter_ok : Bool
  pub pacer_ok : Bool
  pub loop_ok : Bool
  pub timer_ok : Bool
  pub epoll_ok : Bool
  pub scope_ok : Bool
  pub loop_rc : Bool

-- `if (ipc_bound) shutdown_server`
abbrev pub ipc_down : Answers → Held → Held
ipc_down a h = if a.ipc_ok then record h { ipc = false } else h

abbrev pub log_down : Held → Held
log_down h = record h { log = false }

-- The flag is true for EXIT_SUCCESS.
abbrev pub teardown : Answers → Held → Held × Bool
teardown a h = (
  log_down (record h {
    scope = false;
    ipc = false;
    loop = false;
    pacer = false;
    emitter = false;
    device = false;
  }),
  a.loop_rc,
)

abbrev pub epoll_listener : Answers → Held → Held
epoll_listener a h = if a.ipc_ok && not a.epoll_ok then record h { ipc = false } else h

unfoldable pub run_timer : Answers → Held → Held × Bool
run_timer a h =
    if a.timer_ok then teardown a (record (epoll_listener a h) { scope = a.scope_ok }) else (
      log_down
          (record (ipc_down a h) { loop = false; pacer = false; emitter = false; device = false }),
      false,
    )

unfoldable pub run_loop : Answers → Held → Held × Bool
run_loop a h = if a.loop_ok then run_timer a (record h { loop = true }) else (
  log_down (record (ipc_down a h) { pacer = false; emitter = false; device = false }),
  false,
)

unfoldable pub run_pacer : Answers → Held → Held × Bool
run_pacer a h =
    if a.pacer_ok
    then run_loop a (record h { pacer = true })
    else (log_down (record (ipc_down a h) { emitter = false; device = false }), false)

unfoldable pub run_emitter : Answers → Held → Held × Bool
run_emitter a h =
    if a.emitter_ok
    then run_pacer a (record h { emitter = true })
    else (log_down (record (ipc_down a h) { device = false }), false)

unfoldable pub run_device : Answers → Held → Held × Bool
run_device a h =
    if a.grab_ok
    then run_emitter a h
    else (log_down (record (ipc_down a h) { device = false }), false)

-- How the search for the device ends.
pub data Search : Type 0 where
  valid missing interrupted : Search

-- The loop of attempts, with those left and `attempt`
unfoldable pub retry : Answers → ℕ → ℕ → Search
retry a zero attempt = missing
retry a (suc n) attempt =
    let rest = retry a n (attempt + 1) in
    if a.stopped attempt then interrupted else if a.found attempt then valid else rest

unfoldable pub find : Answers → Search
find a = let rest = retry a 9 1 in if a.found 0 then valid else rest

unfoldable pub searched : Answers → Held → Search → Held × Bool
searched a h valid = run_device a (record h { device = true })
searched a h missing = (log_down (ipc_down a h), false)
searched a h interrupted = (log_down (ipc_down a h), false)

unfoldable pub run_main : Answers → Held × Bool
run_main a = searched a (record nothing { log = true; ipc = a.ipc_ok }) (find a)
