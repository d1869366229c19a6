-- ===== src/Scope/Listener/Kwin/Released.antt =====
-- What the KWin backend holds on the bus and in the file system.
use loginext.Env.{Env}
use loginext.Scope.Listener.Kwin.{
  Request, open_bus, unref_bus, add_slot, unref_slot, request_name, release_name, reconfigure,
  write_file, remove_file, load_script, run_script, BootAnswers, state_dir, script_path,
  plugin_name, run_bootstrap, try_bootstrap, bootstrap, Turn, KwinState, kwin_turns, Answers,
  Status, unavailable, running, ended, start_state, run_bus, claim_name, kwin_dbus_loop,
}
use loginext.Scope.Listener.{Listener}
use loginext.Prelude.{
  after, after-append, when, ℕ, ◌≡◌, refl, ◌∙◌, Bool, true, false, not, ◌&&◌, if◌then◌else◌, Option,
  none, some, is_negative, List, [], ◌∷◌, Bytes, eq_bytes, eq_bytes_refl, Bool-cases, if_keeps, inl,
  inr,
}

-- The bus, the slot and the name on it, and the file of the script.
pub record Held : Type 0 where
  pub bus : Bool
  pub slot : Bool
  pub name : Bool
  pub file : Option Bytes

abbrev pub nothing : Held
nothing = record { bus = false; slot = false; name = false; file = none }

abbrev pub online : Held
online = record { bus = true; slot = true; name = true; file = none }

abbrev holds_file : Option Bytes → Bytes → Bool
holds_file none path = false
holds_file (some p) path = eq_bytes p path

abbrev no_file : Option Bytes → Bool
no_file none = true
no_file (some p) = false

-- A request is refused when it takes what is held, or uses or gives back what is not.
abbrev pub apply : Request → Held → Option Held
apply open_bus h = when (not h.bus) (record h { bus = true })
apply unref_bus h = when (h.bus && not h.slot && not h.name) (record h { bus = false })
apply add_slot h = when (h.bus && not h.slot) (record h { slot = true })
apply unref_slot h = when (h.bus && h.slot) (record h { slot = false })
apply request_name h = when (h.bus && not h.name) (record h { name = true })
apply release_name h = when (h.bus && h.name) (record h { name = false })
apply reconfigure h = when h.bus h
apply (write_file path) h = when (no_file h.file) (record h { file = some path })
apply (remove_file path) h = when (holds_file h.file path) (record h { file = none })
apply (load_script path name) h = when (h.bus && holds_file h.file path) h
apply (run_script id) h = when (h.bus && not (is_negative id)) h

run_bootstrap-after :
    (path name : Bytes) (a : BootAnswers)
    → after apply (run_bootstrap path name a).1 online ≡ some online
unfolding run_bootstrap
run_bootstrap-after path name a = elim (Bool-cases (is_negative a.script_id)) [
  | inl n ↦ rw (n, eq_bytes_refl path, eq_bytes_refl path) refl
  | inr n ↦ rw (n, eq_bytes_refl path, n, eq_bytes_refl path) refl
]

abbrev Keeps : Bool × List Request → Type 0
Keeps out = after apply out.1 online ≡ some online

try_bootstrap-after : (dir : Bytes) (pid : ℕ) (a : BootAnswers) → Keeps (try_bootstrap dir pid a)
try_bootstrap-after [] pid a = refl
try_bootstrap-after (c ∷ dir) pid a =
    if_keeps Keeps a.opened (run_bootstrap-after (script_path (c ∷ dir) pid) (plugin_name pid) a)
      refl

bootstrap-after :
    (env : Env) (pid : ℕ) (a : BootAnswers) → after apply (bootstrap env pid a) online ≡ some online
unfolding bootstrap
bootstrap-after env pid a =
    let (published, es) = try_bootstrap (state_dir env) pid a in
    let e = try_bootstrap-after (state_dir env) pid a in
    elim (Bool-cases published) [
      | inl p ↦ rw p e
      | inr p ↦ rw p (after-append apply es (reconfigure ∷ []) online online e)
    ]

-- What is held for each status.
abbrev pub held : Status → Held
held unavailable = nothing
held running = online
held ended = nothing

-- From some holdings, an outcome leaves what its status holds.
abbrev Leaves : Held → KwinState × Status × List Request → Type 0
Leaves h (st, status, es) = after apply es h ≡ some (held status)

run_bus-Leaves : (l : Listener) (a : Answers) (ts : List Turn) → Leaves online (run_bus l a ts)
unfolding run_bus
run_bus-Leaves l a ts =
    let (st, runs) = kwin_turns (start_state l) a.bind ts in
    if_keeps (Leaves online) a.fd_ok (if_keeps (Leaves online) runs refl refl) refl

abbrev on_bus : Held
on_bus = record nothing { bus = true }

claim_name-Leaves :
    (env : Env) (l : Listener) (a : Answers) (ts : List Turn)
    → Leaves on_bus (claim_name env l a ts)
unfolding claim_name
claim_name-Leaves env l a ts =
    let (st, status, es) = run_bus l a ts in
    if_keeps (Leaves on_bus) a.vtable_ok
      (if_keeps (Leaves on_bus) a.name_ok
        (after-append apply (bootstrap env a.pid a.boot) es online online
            (bootstrap-after env a.pid a.boot)
          ∙ run_bus-Leaves l a ts)
        refl)
      refl

-- Whatever the system answers: the backend never takes what it has, nor uses or gives back what it
-- does not have; while it runs it holds the bus, its slot and its name, and when it failed or ended it holds
-- nothing. The file of the script is always removed again.
pub kwin_dbus_loop-after :
    (env : Env) (l : Listener) (a : Answers) (ts : List Turn)
    → let (st, status, es) = kwin_dbus_loop env l a ts in
      after apply es nothing ≡ some (held status)
unfolding kwin_dbus_loop
kwin_dbus_loop-after env l a ts =
    if_keeps (Leaves nothing) a.open_ok (claim_name-Leaves env l a ts) (made a.bus_made)
  where
    made :
        (b : Bool)
        → Leaves nothing (start_state l, unavailable, if b then open_bus ∷ unref_bus ∷ [] else [])
    made true = refl
    made false = refl
