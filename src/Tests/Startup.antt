-- ===== src/Tests/Startup.antt =====
-- Starts of the daemon, and instances of the theorems on the start.
use loginext.App.Startup.{
  Answers, nothing, find, run_main, retry, run_device, run_emitter, run_pacer, run_loop, run_timer,
  searched,
}
use loginext.Config.Args.{Opt, no_options, parse_args, apply_opt, parse_mode, parse_bool}
use loginext.Config.Profile.{SensitivityMode}
use loginext.Core.Emitter.Handle.{Request}
use loginext.Prelude.{◌≡◌, ◌==◌, refl, Bool, true, false, List, [], ◌∷◌, codes}

abbrev options : List Opt
options = Opt.verbose ∷ Opt.mode (codes "low") ∷ Opt.invert (codes "0") ∷ []

parse_options : parse_args options no_options ≡ (
  record no_options {
    verbose = true;
    mode = SensitivityMode.low;
    cli_mode_set = true;
    invert_hwheel = false;
    cli_invert_set = true;
  },
  true,
)
unfolding parse_args apply_opt parse_mode parse_bool
parse_options = refl

-- The device shows up at the fourth attempt, and the timer cannot be registered.
abbrev late : Answers
late = record {
  ipc_ok = true;
  found = λ n. n == 3;
  stopped = λ n. false;
  grab_ok = true;
  emitter_ok = true;
  pacer_ok = true;
  loop_ok = true;
  timer_ok = false;
  epoll_ok = true;
  scope_ok = true;
  loop_rc = true;
}

run_late : run_main late ≡ (nothing, false)
unfolding run_main find retry searched run_device run_emitter run_pacer run_loop run_timer
run_late = refl

abbrev always : Request → Bool
always r = true
