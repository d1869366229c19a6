-- ===== src/Util/Log.antt =====
-- util/log.hpp and util/log.cpp: the logger. The formatted time and the formatted body are arguments, as
-- the text that the C library makes; what is asked of the system is a list of requests.
pub mod Lines
pub mod File
use loginext.Env.{Env, nonempty, fits, printed, decimal, sudo_home, sudo_owner}
use loginext.Prelude.{
  ℕ, ◌+◌, ◌-◌, ◌*◌, Bool, true, false, not, ◌&&◌, ◌||◌, leb, ltb, ◌==◌, if◌then◌else◌, Option, none,
  some, ℤ, negsuc, is_negative, List, [], ◌∷◌, ◌++◌, length, take, Bytes, codes,
}

pub data LogLevel : Type 0 where
  trace debug info warn error : LogLevel

abbrev pub level_number : LogLevel → ℕ
level_number trace = 0
level_number debug = 1
level_number info = 2
level_number warn = 3
level_number error = 4

pub data LogComponent : Type 0 where
  general core ipc scope heuristics preset config pacer kwin app_rules daemon perf : LogComponent

pub record LogConfig : Type 0 where
  pub file_enabled : Bool
  pub stderr_enabled : Bool
  pub file_level : LogLevel
  pub stderr_level : LogLevel

-- `LogConfig{}`
abbrev pub default_config : LogConfig
default_config = record {
  file_enabled = true;
  stderr_enabled = true;
  file_level = debug;
  stderr_level = info;
}

-- `g_fd`, `g_path` and `g_cfg`
pub record LogState : Type 0 where
  pub fd : ℤ
  pub path : Bytes
  pub cfg : LogConfig

abbrev pub fresh : LogState
fresh = record { fd = negsuc 0; path = []; cfg = default_config }

abbrev pub path_cap : ℕ
path_cap = 256

abbrev pub line_cap : ℕ
line_cap = 1024

pub data Request : Type 0 where
  mkdir unlink : Bytes → Request
  rename : Bytes → Bytes → Request
  chown : Bytes → ℕ → ℕ → Request
  open_file : Bytes → ℤ → Request
  close : ℤ → Request
  write : ℤ → Bytes → Request

abbrev pub checked : Bytes → Option Bytes
checked text = if fits path_cap text then some text else none

-- The user's home, where the variable need not be set, and must not be empty.
abbrev pub state_home : Env → Option Bytes
state_home env = elim (sudo_home env) [ none ↦ nonempty env.home | some dir ↦ nonempty (some dir) ]

unfoldable pub resolve_state_dir : Env → Option Bytes
resolve_state_dir env = elim (nonempty env.xdg_state_home) [
  | some xdg ↦ checked (xdg ++ codes "/loginext")
  | none ↦ elim (state_home env) [
    | some home ↦ checked (home ++ codes "/.local/state/loginext")
    | none ↦ none
  ]
]

-- The loop of `ensure_dir` from the second byte on: those before `i` are `done`.
unfoldable pub parents : Bytes → Bytes → List Request
parents done [] = []
parents done (c ∷ s) =
    let rest = parents (done ++ c ∷ []) s in if c == b'/' then mkdir done ∷ rest else rest

abbrev pub parents_of : Bytes → List Request
parents_of [] = []
parents_of (c ∷ s) = parents (c ∷ []) s

unfoldable pub ensure_dir : Bytes → List Request
ensure_dir path = if leb path_cap (length path) then [] else parents_of path ++ mkdir path ∷ []

unfoldable pub chown_to_invoking_user : Env → Bytes → List Request
chown_to_invoking_user env path = elim (sudo_owner env) [
  | none ↦ []
  | some (uid, gid) ↦ chown path uid gid ∷ []
]

abbrev pub rotate_threshold : ℕ
rotate_threshold = 2 * 1024 * 1024

-- The answers of the system: the size that `stat` gives, whether `rename` succeeds, and what `open` gives.
pub record Answers : Type 0 where
  pub size : Option ℕ
  pub renamed : Bool
  pub opened : ℤ

abbrev pub rotate_to : Env → Bytes → Bytes → Bool → List Request
rotate_to env path rotated renamed =
    unlink rotated
    ∷ rename path rotated
    ∷ (if renamed then chown_to_invoking_user env rotated else [])

abbrev pub rotate_sized : Env → Bytes → Option ℕ → Bool → List Request
rotate_sized env path none renamed = []
rotate_sized env path (some size) renamed =
    let rotated = path ++ codes ".1" in
    if ltb size rotate_threshold
    then []
    else if fits path_cap rotated
    then rotate_to env path rotated renamed
    else []

unfoldable pub maybe_rotate_log : Env → Bytes → Answers → List Request
maybe_rotate_log env path a = rotate_sized env path a.size a.renamed

-- The part of `log_init` behind the path
unfoldable pub open_log : Env → Answers → LogState → Bytes → LogState × Bool × List Request
open_log env a st path =
    let rotation = maybe_rotate_log env path a in
    if is_negative a.opened then (record st { fd = a.opened; path = [] }, false, rotation) else (
      record st { fd = a.opened; path = path },
      true,
      rotation ++ open_file path a.opened ∷ chown_to_invoking_user env path,
    )

-- The part behind the directory
unfoldable pub init_in : Env → Answers → LogState → Bytes → LogState × Bool × List Request
init_in env a st dir =
    let path = dir ++ codes "/daemon.log" in
    let made = ensure_dir dir ++ chown_to_invoking_user env dir in
    let (st', ok, es) = open_log env a st path in
    if fits path_cap path then (st', ok, made ++ es) else (record st { path = [] }, false, made)

-- The flag is true for a return code of 0.
unfoldable pub log_init : Env → LogConfig → Answers → LogState → LogState × Bool × List Request
log_init env cfg a st =
    let no_path = record st { cfg = cfg; path = [] } in
    let found : LogState × Bool × List Request = elim (resolve_state_dir env) [
      | none ↦ (no_path, false, [])
      | some dir ↦ init_in env a (record st { cfg = cfg }) dir
    ] in
    if cfg.file_enabled then found else (no_path, true, [])

-- The banner is cut to 128 bytes only if the text of the time is longer than any time.
unfoldable pub log_shutdown : LogState → Bytes → LogState × List Request
log_shutdown st ts = if is_negative st.fd then (record st { path = [] }, []) else (
  record st { fd = negsuc 0; path = [] },
  write st.fd (ts ++ codes " [INF] [core] === loginext daemon stopped ===\n") ∷ close st.fd ∷ [],
)

abbrev pub level_tag : LogLevel → Bytes
level_tag trace = codes "TRC"
level_tag debug = codes "DBG"
level_tag info = codes "INF"
level_tag warn = codes "WRN"
level_tag error = codes "ERR"

abbrev pub component_tag : LogComponent → Bytes
component_tag general = codes "gen"
component_tag core = codes "core"
component_tag ipc = codes "ipc"
component_tag scope = codes "scope"
component_tag heuristics = codes "heur"
component_tag preset = codes "preset"
component_tag config = codes "config"
component_tag pacer = codes "pacer"
component_tag kwin = codes "kwin"
component_tag app_rules = codes "rules"
component_tag daemon = codes "daemon"
component_tag perf = codes "perf"

abbrev pub stderr_fd : ℤ
stderr_fd = ℤ.pos 2

abbrev pub to_file : LogState → LogLevel → Bool
to_file st lvl =
    st.cfg.file_enabled
    && (not (is_negative st.fd) && leb (level_number st.cfg.file_level) (level_number lvl))

abbrev pub to_stderr : LogState → LogLevel → Bool
to_stderr st lvl =
    st.cfg.stderr_enabled && leb (level_number st.cfg.stderr_level) (level_number lvl)

-- The line, before it is cut to its buffer
abbrev pub whole_line : LogLevel → LogComponent → Bytes → Bytes → Bytes
whole_line lvl comp ts body =
    ts
    ++ codes " ["
    ++ level_tag lvl
    ++ codes "] ["
    ++ component_tag comp
    ++ codes "] "
    ++ body
    ++ codes "\n"

abbrev pub cut_line : LogLevel → LogComponent → Bytes → Bytes → Bytes
cut_line lvl comp ts text = printed (line_cap + 80) (whole_line lvl comp ts (printed line_cap text))

abbrev pub write_if : Bool → ℤ → Bytes → List Request
write_if b fd line = if b then write fd line ∷ [] else []

unfoldable pub log_msg_v : LogState → LogLevel → LogComponent → Bytes → Bytes → List Request
log_msg_v st lvl comp ts text =
    let line = cut_line lvl comp ts text in
    write_if (to_file st lvl) st.fd line ++ write_if (to_stderr st lvl) stderr_fd line

abbrev pub text_or : Bytes → Option Bytes → Bytes
text_or d none = d
text_or d (some s) = s

-- The part of the banner for the preset and the mode.
abbrev pub preset_part : Option Bytes → Option Bytes → Bytes
preset_part none mode = []
preset_part (some p) none = codes " preset=" ++ p
preset_part (some p) (some m) = codes " preset=" ++ p ++ codes " mode=" ++ m

unfoldable pub log_session_marker :
    LogState → Bytes → ℕ → Option Bytes → Option Bytes → Option Bytes → List Request
log_session_marker st ts pid version active_preset mode =
    let banner = printed line_cap (
      ts
      ++ codes " [INF] [core] === loginext started v="
      ++ text_or (codes "?") version
      ++ codes " pid="
      ++ decimal pid
      ++ preset_part active_preset mode
      ++ codes " ===\n") in
    write_if (not (is_negative st.fd)) st.fd banner
    ++ write_if st.cfg.stderr_enabled stderr_fd banner
