-- ===== src/App/Startup/Logging.antt =====
-- main.cpp: `main`, the configuration of the logger from the command line.
use loginext.Config.Args.{CliOptions}
use loginext.Prelude.{◌≡◌, refl, true, Bool-cases, inl, inr, if◌then◌else◌}
use loginext.Util.Log.{LogState, LogConfig, LogLevel, default_config, to_stderr}

abbrev log_config : CliOptions → LogConfig
log_config cli = record default_config {
  stderr_level = if cli.quiet then LogLevel.warn else LogLevel.info;
  file_level = if cli.verbose then LogLevel.trace else LogLevel.debug;
}

-- Whatever the command line says, a warning goes to stderr: `--quiet` mutes nothing above `info`.
problems_get_through :
    (cli : CliOptions) (g : LogState)
    → to_stderr (record g { cfg = log_config cli }) LogLevel.warn ≡ true
problems_get_through cli g = elim (Bool-cases cli.quiet) [ inl e ↦ rw e refl | inr e ↦ rw e refl ]
