-- ===== src/Ipc/Server/Setup.antt =====
-- ipc/server.cpp: `init_server` and the path of the socket. What is asked of the system is a list of
-- calls; those that create, bind or listen are listed when they succeed.
use loginext.Env.{Env, nonempty, fits, printed, decimal, sudo_owner}
use loginext.Ipc.Server.{IpcServer, Effect, close, unlink}
use loginext.Prelude.{
  ℕ, Bool, true, false, if◌then◌else◌, none, some, ℤ, negsuc, is_negative, List, [], ◌∷◌, ◌++◌,
  Bytes, codes,
}

abbrev pub sock_path_buf : ℕ
sock_path_buf = 108

pub data Call : Type 0 where
  mkdir : Bytes → Call
  socket : ℤ → Call
  bind : Bytes → Call
  chmod : Bytes → ℕ → Call
  chown : Bytes → ℕ → ℕ → Call
  listen : ℤ → Call
  effect : Effect → Call

-- `try_compose`: whether the path fits, the contents of `out`, and the directory that is made.
unfoldable pub try_compose : Bytes → Bytes → Bool × Bytes × List Call
try_compose root out =
    let dir = root ++ codes "/loginext" in
    let path = dir ++ codes "/loginext.sock" in
    if fits sock_path_buf dir
    then (fits sock_path_buf path, printed sock_path_buf path, mkdir dir ∷ [])
    else (false, out, [])

-- The fallback in /tmp
unfoldable pub compose_tmp : Env → Bytes → Bool × Bytes × List Call
compose_tmp env out =
    let root = codes "/tmp/loginext-" ++ decimal env.uid in
    let path = root ++ codes "/loginext.sock" in
    if fits sock_path_buf root
    then (fits sock_path_buf path, printed sock_path_buf path, mkdir root ∷ [])
    else (false, out, [])

unfoldable pub resolve_socket_path : Env → Bytes → Bool × Bytes × List Call
resolve_socket_path env out = elim (nonempty env.xdg_runtime_dir) [
  | some xdg ↦ try_compose xdg out
  | none ↦ elim (nonempty env.sudo_uid) [
    | some uid ↦
        let root = codes "/run/user/" ++ uid in
        if fits sock_path_buf root then try_compose root out else compose_tmp env out
    | none ↦ compose_tmp env out
  ]
]

-- The answers of the system: `socket`, and whether `bind` and `listen` succeed. The results of the
-- other calls do not change what is done.
pub record Answers : Type 0 where
  pub created : ℤ
  pub bound : Bool
  pub listening : Bool

abbrev pub give_socket : Env → Bytes → List Call
give_socket env path = elim (sudo_owner env) [
  | none ↦ []
  | some (uid, gid) ↦ chown path uid gid ∷ []
]

-- The part behind `bind`
unfoldable pub start_listening : Env → Bool → IpcServer → IpcServer × Bool × List Call
start_listening env ok s =
    let given = chmod s.sock_path 0o600 ∷ give_socket env s.sock_path in
    if ok then (s, true, given ++ listen s.listen_fd ∷ []) else (
      record s { listen_fd = negsuc 0 },
      false,
      given ++ effect (close s.listen_fd) ∷ effect (unlink s.sock_path) ∷ [],
    )

-- The part behind the path
unfoldable pub bind_socket : Env → Answers → IpcServer → IpcServer × Bool × List Call
bind_socket env a s =
    let (s', ok, es) = start_listening env a.listening (record s { listen_fd = a.created }) in
    if is_negative a.created
    then (record s { listen_fd = a.created }, false, [])
    else if a.bound
    then (s', ok, socket a.created ∷ bind s.sock_path ∷ es)
    else (
      record s { listen_fd = negsuc 0 },
      false,
      socket a.created ∷ effect (close a.created) ∷ [],
    )

-- The flag is true for a return code of 0.
unfoldable pub init_server : Env → Answers → IpcServer → IpcServer × Bool × List Call
init_server env a s =
    let (ok, path, made) = resolve_socket_path env s.sock_path in
    let (s', ok', es) = bind_socket env a (record s { sock_path = path }) in
    if ok
    then (s', ok', made ++ effect (unlink path) ∷ es)
    else (record s { sock_path = path }, false, made)
