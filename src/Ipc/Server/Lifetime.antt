-- ===== src/Ipc/Server/Lifetime.antt =====
-- What the control socket of ipc/server.cpp holds, from `init_server` to `shutdown_server`.
use loginext.Env.{Env, nonempty, fits, printed, sudo_owner, decimal}
use loginext.Ipc.Server.Setup.{
  Call, sock_path_buf, mkdir, socket, bind, chmod, chown, listen, effect, try_compose, compose_tmp,
  resolve_socket_path, Answers, give_socket, start_listening, bind_socket, init_server,
}
use loginext.Ipc.Server.{IpcServer, Effect, epoll_add, epoll_del, close, write, unlink}
use loginext.Prelude.{
  ℕ, ◌≡◌, ◌<◌, refl, sym, ap, ◌∙◌, subst, Bool, true, false, not, if◌then◌else◌, Option, none, some,
  ℤ, eqb_ℤ, eqb_ℤ_refl, is_negative, List, [], ◌∷◌, ◌++◌, length, take_all, Bytes, codes, eq_bytes,
  eq_bytes_refl, Bool-cases, inl, inr, arith,
}

-- The sockets that are open, those of them that listen, and the paths of those that are bound.
pub record Sockets : Type 0 where
  pub fds : List ℤ
  pub listening : List ℤ
  pub paths : List Bytes

abbrev pub no_sockets : Sockets
no_sockets = record { fds = []; listening = []; paths = [] }

abbrev pub without_fd : ℤ → List ℤ → List ℤ
without_fd fd [] = []
without_fd fd (x ∷ xs) = if eqb_ℤ fd x then without_fd fd xs else x ∷ without_fd fd xs

abbrev pub without_path : Bytes → List Bytes → List Bytes
without_path p [] = []
without_path p (x ∷ xs) = if eq_bytes p x then without_path p xs else x ∷ without_path p xs

abbrev pub apply_effect : Effect → Sockets → Sockets
apply_effect (epoll_add fd) r = r
apply_effect (epoll_del fd) r = r
apply_effect (close fd) r = record r {
  fds = without_fd fd r.fds;
  listening = without_fd fd r.listening;
}
apply_effect (write fd text) r = r
apply_effect (unlink path) r = record r { paths = without_path path r.paths }

abbrev pub apply_call : Call → Sockets → Sockets
apply_call (mkdir dir) r = r
apply_call (socket fd) r = record r { fds = fd ∷ r.fds }
apply_call (bind path) r = record r { paths = path ∷ r.paths }
apply_call (chmod path mode) r = r
apply_call (chown path uid gid) r = r
apply_call (listen fd) r = record r { listening = fd ∷ r.listening }
apply_call (effect e) r = apply_effect e r

abbrev pub after_calls : List Call → Sockets → Sockets
after_calls [] r = r
after_calls (c ∷ cs) r = after_calls cs (apply_call c r)

abbrev pub after_effects : List Effect → Sockets → Sockets
after_effects [] r = r
after_effects (e ∷ es) r = after_effects es (apply_effect e r)

after_calls-append :
    (xs ys : List Call) (r : Sockets) → after_calls (xs ++ ys) r ≡ after_calls ys (after_calls xs r)
after_calls-append [] ys r = refl
after_calls-append (x ∷ xs) ys r = after_calls-append xs ys (apply_call x r)

-- A path that may be bound: not empty, and short enough for `sun_path` with its NUL.
abbrev pub IsPath : Bytes → Type 0
IsPath p = (0 < length p) × (length p < sock_path_buf)

-- A resolved path is one, and the directories that are made open nothing.
abbrev Resolved : Bool × Bytes × List Call → Type 0
Resolved o = (o.0 ≡ true → IsPath o.1) × ((r : Sockets) → after_calls o.2 r ≡ r)

printed-IsPath :
    (path : Bytes) → fits sock_path_buf path ≡ true → IsPath (printed sock_path_buf path)
printed-IsPath path f =
    let low : 0 < length path = ground arith in
    let high : length path < 108 = ground arith in rw (take_all 107 path (omega arith)) (low, high)

try_compose-Resolved : (root out : Bytes) → Resolved (try_compose root out)
unfolding try_compose
try_compose-Resolved root out = elim (Bool-cases (fits sock_path_buf (root ++ codes "/loginext"))) [
  | inl e ↦ rw e (printed-IsPath (root ++ codes "/loginext" ++ codes "/loginext.sock"), λ r. refl)
  | inr e ↦ rw e (λ n. cc, λ r. refl)
]

compose_tmp-Resolved : (env : Env) (out : Bytes) → Resolved (compose_tmp env out)
unfolding compose_tmp
compose_tmp-Resolved env out =
    let root = codes "/tmp/loginext-" ++ decimal env.uid in
    elim (Bool-cases (fits sock_path_buf root)) [
      | inl e ↦ rw e (printed-IsPath (root ++ codes "/loginext.sock"), λ r. refl)
      | inr e ↦ rw e (λ n. cc, λ r. refl)
    ]

resolve_socket_path-Resolved : (env : Env) (out : Bytes) → Resolved (resolve_socket_path env out)
unfolding resolve_socket_path
resolve_socket_path-Resolved env out = of_xdg (nonempty env.xdg_runtime_dir)
  where
    of_uid :
        (o : Option Bytes)
        → Resolved (elim o as (λ _. Bool × Bytes × List Call) [
          | some uid ↦
              let root = codes "/run/user/" ++ uid in
              if fits sock_path_buf root then try_compose root out else compose_tmp env out
          | none ↦ compose_tmp env out
        ])
    of_uid none = compose_tmp-Resolved env out
    of_uid (some uid) =
        let root = codes "/run/user/" ++ uid in
        elim (Bool-cases (fits sock_path_buf root)) [
          | inl e ↦ rw e (try_compose-Resolved root out)
          | inr e ↦ rw e (compose_tmp-Resolved env out)
        ]

    of_xdg :
        (o : Option Bytes)
        → Resolved (elim o as (λ _. Bool × Bytes × List Call) [
          | some xdg ↦ try_compose xdg out
          | none ↦ elim (nonempty env.sudo_uid) as (λ _. Bool × Bytes × List Call) [
            | some uid ↦
                let root = codes "/run/user/" ++ uid in
                if fits sock_path_buf root then try_compose root out else compose_tmp env out
            | none ↦ compose_tmp env out
          ]
        ])
    of_xdg none = of_uid (nonempty env.sudo_uid)
    of_xdg (some xdg) = try_compose-Resolved xdg out

-- What is open after an attempt: the socket, which listens, and its path if it succeeded, else nothing.
abbrev pub open_if : Bool → IpcServer → Sockets
open_if ok s =
    if ok
    then record { fds = s.listen_fd ∷ []; listening = s.listen_fd ∷ []; paths = s.sock_path ∷ [] }
    else no_sockets

give_socket-after :
    (env : Env) (path : Bytes) (r : Sockets) → after_calls (give_socket env path) r ≡ r
give_socket-after env path r =
    elim (sudo_owner env)
      as (λ (o : Option (ℕ × ℕ)).
        after_calls
          (elim o as (λ _. List Call) [ none ↦ [] | some (uid, gid) ↦ chown path uid gid ∷ [] ]) r
        ≡ r) [ none ↦ refl | some (uid, gid) ↦ refl ]

given-after :
    (env : Env) (path : Bytes) (cs : List Call) (r : Sockets)
    → after_calls (give_socket env path ++ cs) r ≡ after_calls cs r
given-after env path cs r =
    after_calls-append (give_socket env path) cs r
    ∙ ap (after_calls cs) (give_socket-after env path r)

emptied :
    (fd : ℤ) (path : Bytes)
    → apply_effect
        (unlink path)
        (apply_effect (close fd) (record { fds = fd ∷ []; listening = []; paths = path ∷ [] }))
      ≡ no_sockets
emptied fd path = rw (eqb_ℤ_refl fd, eq_bytes_refl path) refl

closed :
    (fd : ℤ)
    → apply_effect (close fd) (record { fds = fd ∷ []; listening = []; paths = [] }) ≡ no_sockets
closed fd = rw (eqb_ℤ_refl fd) refl

-- An attempt keeps the path, has a descriptor exactly if it succeeds, and leaves that much open.
record Attempt (s : IpcServer) (out : IpcServer × Bool × List Call) : Type 0 where
  path : out.0.sock_path ≡ s.sock_path
  clients : out.0.clients ≡ s.clients
  fd : is_negative out.0.listen_fd ≡ not out.1
  opened : after_calls out.2 no_sockets ≡ open_if out.1 out.0

abbrev bound_socket : IpcServer → Sockets
bound_socket s = record { fds = s.listen_fd ∷ []; listening = []; paths = s.sock_path ∷ [] }

start_listening-after :
    (env : Env) (ok : Bool) (s : IpcServer)
    → is_negative s.listen_fd ≡ false
    → let out = start_listening env ok s in
      (after_calls out.2 (bound_socket s) ≡ open_if out.1 out.0)
      × (is_negative out.0.listen_fd ≡ not out.1)
unfolding start_listening
start_listening-after env true s n =
    (given-after env s.sock_path (listen s.listen_fd ∷ []) (bound_socket s), n)
start_listening-after env false s n = (
  given-after env s.sock_path (effect (close s.listen_fd) ∷ effect (unlink s.sock_path) ∷ [])
        (bound_socket s)
      ∙ emptied s.listen_fd s.sock_path,
  refl,
)

start_listening-keeps :
    (env : Env) (ok : Bool) (s : IpcServer)
    → let s' = (start_listening env ok s).0 in
      (s'.sock_path ≡ s.sock_path) × (s'.clients ≡ s.clients)
unfolding start_listening
start_listening-keeps env true s = (refl, refl)
start_listening-keeps env false s = (refl, refl)

bind_socket-Attempt : (env : Env) (a : Answers) (s : IpcServer) → Attempt s (bind_socket env a s)
unfolding bind_socket
bind_socket-Attempt env a s =
    let s' = record s { listen_fd = a.created } in
    let (path, clients) = start_listening-keeps env a.listening s' in
    elim (Bool-cases (is_negative a.created)) [
      | inl n ↦ rw n (record { path = refl; clients = refl; fd = n; opened = refl })
      | inr n ↦ elim (Bool-cases a.bound) [
        | inl b ↦
            let (opened, fd) = start_listening-after env a.listening s' n in
            rw (n, b) (record { path = path; clients = clients; fd = fd; opened = opened })
        | inr b ↦
            rw (n, b) (record { path = refl; clients = refl; fd = refl; opened = closed a.created })
      ]
    ]

-- Whatever the environment and the system answer: a server that had no socket has a listening one
-- exactly if `init_server` succeeds. Then the socket is open, listens, and is bound to a path that is
-- not empty and is below 108 bytes, and nothing else is open, listens or is bound; and after every failure no socket is open and no path is bound.
pub init_server-opened :
    (env : Env) (a : Answers) (s : IpcServer)
    → is_negative s.listen_fd ≡ true
    → let (s', ok, cs) = init_server env a s in
      (is_negative s'.listen_fd ≡ not ok)
      × (ok ≡ true → IsPath s'.sock_path)
      × (after_calls cs no_sockets ≡ open_if ok s')
unfolding init_server
init_server-opened env a s n =
    let (ok, path, made) = resolve_socket_path env s.sock_path in
    let s0 = record s { sock_path = path } in
    let (s', ok', es) = bind_socket env a s0 in
    let at = bind_socket-Attempt env a s0 in
    let (is_path, no_op) = resolve_socket_path-Resolved env s.sock_path in
    elim (Bool-cases ok) [
      | inl e ↦ rw e (
        at.fd,
        λ t. subst IsPath (sym at.path) (is_path e),
        after_calls-append made (effect (unlink path) ∷ es) no_sockets
            ∙ ap (after_calls (effect (unlink path) ∷ es)) (no_op no_sockets)
            ∙ at.opened,
      )
      | inr e ↦ rw e (n, λ t. cc, no_op no_sockets)
    ]
