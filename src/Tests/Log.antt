-- ===== src/Tests/Log.antt =====
-- Runs of util/log.cpp and of the set-up of ipc/server.cpp.
use loginext.Env.{Env, digits}
use loginext.Ipc.Server.Lifetime.{
  IsPath, no_sockets, after_calls, after_effects, open_if, init_server-opened,
}
use loginext.Ipc.Server.Setup.{Answers, init_server, resolve_socket_path, compose_tmp}
use loginext.Ipc.Server.Shutdown.{open_sockets, shutdown_server-open}
use loginext.Ipc.Server.{IpcServer, fresh, shutdown_server, free_slot}
use loginext.Util.Log as Log
use loginext.Util.Log.File as File
use loginext.Util.Log.File.{log_shutdown-after, file_of, is_empty}
use loginext.Util.Log.Lines.{log_msg_v_whole}
use loginext.Util.Log.{
  LogState, log_init, log_shutdown, log_msg_v, whole_line, write_if, to_file, to_stderr, stderr_fd,
  default_config, resolve_state_dir, ensure_dir, parents, mkdir,
}
use loginext.Prelude.{
  after, ◌≡◌, refl, true, false, not, none, some, pos, is_negative, [], ◌∷◌, ◌++◌, take, Bytes,
  codes, arith,
}

abbrev env : Env
env = record {
  xdg_runtime_dir = none;
  xdg_config_home = none;
  xdg_state_home = none;
  home = some (codes "/home/u");
  sudo_uid = none;
  sudo_gid = none;
  display = none;
  hyprland = none;
  uid = 1000;
  home_of = λ n. none;
}

-- The socket cannot be listened on.
abbrev deaf : Answers
deaf = record { created = pos 4; bound = true; listening = false }

init_server-opened_example :
    let (s, ok, cs) = init_server env deaf fresh in
    (is_negative s.listen_fd ≡ not ok)
    × (ok ≡ true → IsPath s.sock_path)
    × (after_calls cs no_sockets ≡ open_if ok s)
init_server-opened_example = init_server-opened env deaf fresh refl

tmp_path : (resolve_socket_path env []).1 ≡ codes "/tmp/loginext-1000/loginext.sock"
unfolding resolve_socket_path compose_tmp digits
tmp_path = refl

abbrev serving : IpcServer
serving = record {
  listen_fd = pos 4;
  sock_path = codes "/tmp/loginext-1000/loginext.sock";
  clients =
      record { fd = pos 8; recv = codes "{" }
      ∷ free_slot
      ∷ record { fd = pos 9; recv = [] }
      ∷ free_slot
      ∷ [];
}

shutdown_server-open_example :
    let (s, es) = shutdown_server serving in
    (after_effects es (open_sockets serving) ≡ no_sockets) × (is_negative s.listen_fd ≡ true)
shutdown_server-open_example =
    shutdown_server-open serving b'/' (codes "tmp/loginext-1000/loginext.sock") refl refl

abbrev logging : LogState
logging = record { fd = pos 3; path = codes "/l"; cfg = default_config }

abbrev noon : Bytes
noon = codes "2026-05-25T12:00:00.000"

log_msg_v_whole_example :
    let line = whole_line Log.warn Log.ipc noon (take 1023 (codes "stale socket")) in
    log_msg_v logging Log.warn Log.ipc noon (codes "stale socket")
    ≡ write_if (to_file logging Log.warn) logging.fd line
      ++ write_if (to_stderr logging Log.warn) stderr_fd line
log_msg_v_whole_example =
    log_msg_v_whole logging Log.warn Log.ipc noon (codes "stale socket") (omega arith)

-- The log is too large, and is rotated before it is opened.
abbrev large : Log.Answers
large = record { size = some 3_000_000; renamed = true; opened = pos 3 }

log_shutdown-after_example :
    let (st, ok, rs) = log_init env default_config large Log.fresh in
    let (st', rs') = log_shutdown st noon in
    (after File.apply rs none ≡ some (file_of st))
    × (is_empty st.path ≡ is_negative st.fd)
    × (ok ≡ false → is_negative st.fd ≡ true)
    × (after File.apply (rs ++ rs') none ≡ some none)
    × (is_negative st'.fd ≡ true)
    × (is_empty st'.path ≡ true)
log_shutdown-after_example = log_shutdown-after env default_config large Log.fresh noon refl

parents_made : ensure_dir (codes "/a/b") ≡ mkdir (codes "/a") ∷ mkdir (codes "/a/b") ∷ []
unfolding ensure_dir parents
parents_made = refl
