-- ===== src/Util/Log/File.antt =====
-- The file of the logger, from `log_init` to `log_shutdown`.
use loginext.Env.{Env, fits, sudo_owner}
use loginext.Util.Log.{
  LogState, LogConfig, Request, mkdir, unlink, rename, chown, open_file, close, write, Answers,
  parents, parents_of, ensure_dir, chown_to_invoking_user, rotate_sized, maybe_rotate_log, open_log,
  init_in, log_init, resolve_state_dir, log_shutdown, path_cap, rotate_threshold,
}
use loginext.Prelude.{
  after, after-append, when, ℕ, ◌≡◌, refl, sym, ◌∙◌, Bool, true, false, leb, ltb, ◌==◌,
  if◌then◌else◌, Option, none, some, ℤ, eqb_ℤ, eqb_ℤ_refl, is_negative, List, [], ◌∷◌, ◌++◌, length,
  Bytes, codes, if_keeps, if_cases, Bool-cases, inl, inr,
}

-- The file that is open. A request is refused when it opens a second one, or uses or closes one that is not.
abbrev pub Held : Type 0
Held = Option ℤ

abbrev is_open : Held → ℤ → Bool
is_open none fd = false
is_open (some x) fd = eqb_ℤ x fd

abbrev is_free : Held → Bool
is_free none = true
is_free (some x) = false

abbrev pub apply : Request → Held → Option Held
apply (mkdir path) h = some h
apply (unlink path) h = some h
apply (rename path to) h = some h
apply (chown path uid gid) h = some h
apply (open_file path fd) h = when (is_free h) (some fd)
apply (close fd) h = when (is_open h fd) none
apply (write fd text) h = when (is_open h fd) h

-- Requests that leave the file alone.
abbrev Neutral : List Request → Type 0
Neutral rs = (h : Held) → after apply rs h ≡ some h

Neutral-append : (rs ss : List Request) → Neutral rs → Neutral ss → Neutral (rs ++ ss)
Neutral-append rs ss n m h = after-append apply rs ss h h (n h) ∙ m h

parents-Neutral : (done s : Bytes) → Neutral (parents done s)
unfolding parents
parents-Neutral done [] h = refl
parents-Neutral done (c ∷ s) h =
    if_keeps (λ (rs : List Request). after apply rs h ≡ some h) (c == b'/')
      (parents-Neutral (done ++ c ∷ []) s h) (parents-Neutral (done ++ c ∷ []) s h)

parents_of-Neutral : (path : Bytes) → Neutral (parents_of path)
parents_of-Neutral [] h = refl
parents_of-Neutral (c ∷ s) h = parents-Neutral (c ∷ []) s h

ensure_dir-Neutral : (path : Bytes) → Neutral (ensure_dir path)
unfolding ensure_dir
ensure_dir-Neutral path =
    if_keeps Neutral (leb path_cap (length path)) (λ h. refl)
      (Neutral-append (parents_of path) (mkdir path ∷ []) (parents_of-Neutral path) (λ h. refl))

chown-Neutral : (env : Env) (path : Bytes) → Neutral (chown_to_invoking_user env path)
unfolding chown_to_invoking_user
chown-Neutral env path h = of_owner (sudo_owner env)
  where
    of_owner :
        (o : Option (ℕ × ℕ))
        → after apply
            (elim o as (λ _. List Request) [
              | none ↦ []
              | some (uid, gid) ↦ chown path uid gid ∷ []
            ])
            h
          ≡ some h
    of_owner none = refl
    of_owner (some (uid, gid)) = refl

rotate-Neutral :
    (env : Env) (path : Bytes) (size : Option ℕ) (renamed : Bool)
    → Neutral (rotate_sized env path size renamed)
rotate-Neutral env path none renamed = λ h. refl
rotate-Neutral env path (some size) renamed =
    let rotated = path ++ codes ".1" in
    if_keeps Neutral (ltb size rotate_threshold) (λ h. refl)
      (if_keeps Neutral (fits path_cap rotated)
        (λ h. if_keeps Neutral renamed (chown-Neutral env rotated) (λ h'. refl) h) (λ h. refl))

-- What a state says of the file.
abbrev pub file_of : LogState → Held
file_of st = if is_negative st.fd then none else some st.fd

abbrev pub is_empty : Bytes → Bool
is_empty [] = true
is_empty (c ∷ s) = false

-- After an attempt: the file that the state names is open and no other; there is a path exactly if
-- there is a file, and there is none after a failure.
record Opened (out : LogState × Bool × List Request) : Type 0 where
  open_lem : after apply out.2 none ≡ some (file_of out.0)
  path : is_empty out.0.path ≡ is_negative out.0.fd
  failed : out.1 ≡ false → is_negative out.0.fd ≡ true

open_log-Opened :
    (env : Env) (a : Answers) (st : LogState) (path : Bytes)
    → is_empty path ≡ false
    → Opened (open_log env a st path)
unfolding open_log maybe_rotate_log
open_log-Opened env a st path p =
    let rotated = rotate-Neutral env path a.size a.renamed in
    if_cases Opened (is_negative a.opened)
      {x = (record st { fd = a.opened; path = [] }, false, maybe_rotate_log env path a)}
      {y = (
        record st { fd = a.opened; path = path },
        true,
        maybe_rotate_log env path a ++ open_file path a.opened ∷ chown_to_invoking_user env path,
      )}
      (λ e. record { open_lem = rw e (rotated none); path = sym e; failed = λ f. e })
      (λ e. record {
        open_lem = rw e (
            after-append apply (maybe_rotate_log env path a) _ none none (rotated none)
            ∙ chown-Neutral env path (some a.opened));
        path = p ∙ sym e;
        failed = λ f. cc;
      })

-- An attempt after requests that leave the file alone
after_Neutral :
    (rs : List Request) (out : LogState × Bool × List Request)
    → Neutral rs
    → Opened out
    → Opened (out.0, out.1, rs ++ out.2)
after_Neutral rs out n o = record {
  open_lem = after-append apply rs out.2 none none (n none) ∙ o.open_lem;
  path = o.path;
  failed = o.failed;
}

-- An attempt that opens nothing
unopened :
    (st : LogState) (ok : Bool) (rs : List Request)
    → is_negative st.fd ≡ true
    → Neutral rs
    → Opened (record st { path = [] }, ok, rs)
unopened st ok rs e n = record { open_lem = rw e (n none); path = sym e; failed = λ f. e }

nonempty-append : (a : Bytes) (c : ℕ) (s : Bytes) → is_empty (a ++ c ∷ s) ≡ false
nonempty-append [] c s = refl
nonempty-append (x ∷ a) c s = refl

init_in-Opened :
    (env : Env) (a : Answers) (st : LogState) (dir : Bytes)
    → is_negative st.fd ≡ true
    → Opened (init_in env a st dir)
unfolding init_in
init_in-Opened env a st dir e =
    let path = dir ++ codes "/daemon.log" in
    let made = ensure_dir dir ++ chown_to_invoking_user env dir in
    let n =
      Neutral-append (ensure_dir dir) (chown_to_invoking_user env dir) (ensure_dir-Neutral dir)
        (chown-Neutral env dir) in
    let out = open_log env a st path in
    if_keeps Opened (fits path_cap path) {x = (out.0, out.1, made ++ out.2)}
      {y = (record st { path = [] }, false, made)}
      (after_Neutral made out n
        (open_log-Opened env a st path (nonempty-append dir b'/' (codes "daemon.log"))))
      (unopened st false made e n)

shutdown_closes :
    (st : LogState) (ts : Bytes) → after apply (log_shutdown st ts).1 (file_of st) ≡ some none
unfolding log_shutdown
shutdown_closes st ts = elim (Bool-cases (is_negative st.fd)) [
  | inl n ↦ rw n refl
  | inr n ↦ rw (n, eqb_ℤ_refl st.fd, eqb_ℤ_refl st.fd) refl
]

shutdown_fd : (st : LogState) (ts : Bytes) → is_negative (log_shutdown st ts).0.fd ≡ true
unfolding log_shutdown
shutdown_fd st ts =
    if_cases (λ (out : LogState × List Request). is_negative out.0.fd ≡ true) (is_negative st.fd)
      (λ e. e) (λ e. refl)

shutdown_path : (st : LogState) (ts : Bytes) → is_empty (log_shutdown st ts).0.path ≡ true
unfolding log_shutdown
shutdown_path st ts =
    if_cases (λ (out : LogState × List Request). is_empty out.0.path ≡ true) (is_negative st.fd)
      (λ e. refl) (λ e. refl)

-- Whatever the environment and the system answer: a logger without a file has, after `log_init`, the
-- file that its state names and no other, and a path exactly if it has a file, which it does not
-- after a failure; and after `log_shutdown`, which writes only to the open file, it has neither.
pub log_shutdown-after :
    (env : Env) (cfg : LogConfig) (a : Answers) (st : LogState) (ts : Bytes)
    → is_negative st.fd ≡ true
    → let (st', ok, rs) = log_init env cfg a st in
      let (st'', rs') = log_shutdown st' ts in
      (after apply rs none ≡ some (file_of st'))
      × (is_empty st'.path ≡ is_negative st'.fd)
      × (ok ≡ false → is_negative st'.fd ≡ true)
      × (after apply (rs ++ rs') none ≡ some none)
      × (is_negative st''.fd ≡ true)
      × (is_empty st''.path ≡ true)
unfolding log_init
log_shutdown-after env cfg a st ts e = finish (log_init env cfg a st) opened
  where
    of_dir :
        (o : Option Bytes)
        → Opened (elim o as (λ _. LogState × Bool × List Request) [
          | none ↦ (record st { cfg = cfg; path = [] }, false, [])
          | some dir ↦ init_in env a (record st { cfg = cfg }) dir
        ])
    of_dir none = unopened (record st { cfg = cfg }) false [] e (λ h. refl)
    of_dir (some dir) = init_in-Opened env a (record st { cfg = cfg }) dir e

    opened : Opened (log_init env cfg a st)
    opened =
        if_keeps Opened cfg.file_enabled (of_dir (resolve_state_dir env))
          (unopened (record st { cfg = cfg }) true [] e (λ h. refl))

    finish :
        (out : LogState × Bool × List Request)
        → Opened out
        → let (st'', rs') = log_shutdown out.0 ts in
          (after apply out.2 none ≡ some (file_of out.0))
          × (is_empty out.0.path ≡ is_negative out.0.fd)
          × (out.1 ≡ false → is_negative out.0.fd ≡ true)
          × (after apply (out.2 ++ rs') none ≡ some none)
          × (is_negative st''.fd ≡ true)
          × (is_empty st''.path ≡ true)
    finish out o = (
      o.open_lem,
      o.path,
      o.failed,
      after-append apply out.2 (log_shutdown out.0 ts).1 none (file_of out.0) o.open_lem
          ∙ shutdown_closes out.0 ts,
      shutdown_fd out.0 ts,
      shutdown_path out.0 ts,
    )
