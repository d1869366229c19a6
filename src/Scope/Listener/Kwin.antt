-- ===== src/Scope/Listener/Kwin.antt =====
-- scope/listener.cpp: the KWin backend, `kwin_on_activated` and `kwin_dbus_loop` with its set-up. What
-- sd-bus, the files and the clock answer is an argument; what is asked of them is a list of requests.
pub mod Activated
pub mod Deadline
pub mod Released
use loginext.Env.{Env, nonempty, fits, printed, decimal}
use loginext.Scope.AppHash.{hash_app}
use loginext.Scope.Listener.{Listener, publish_and_log}
use loginext.Prelude.{
  ℕ, ◌+◌, ◌-◌, ◌/◌, ◌%◌, ◌^◌, Bool, true, false, not, ◌&&◌, ◌||◌, leb, ltb, ◌==◌, if◌then◌else◌,
  Option, none, some, ℤ, is_negative, List, [], ◌∷◌, ◌++◌, Bytes, codes,
}

-- `hash_app` of a key that may be null or empty
abbrev pub rule_hash : Option Bytes → ℕ
rule_hash none = 0
rule_hash (some []) = 0
rule_hash (some (c ∷ s)) = hash_app (c ∷ s)

abbrev pub or_else : Option Bytes → Option Bytes → Option Bytes
or_else none b = b
or_else (some a) b = some a

-- The handler, on a message that is read.
unfoldable pub kwin_on_activated : Listener → Option Bytes → Option Bytes → Listener
kwin_on_activated l resource_class resource_name =
    let rule_key = or_else (nonempty resource_name) resource_class in
    (publish_and_log (record l { kwin_received_any = true }) (rule_hash rule_key)
      (codes "kwin-dbus") resource_name resource_class).0

pub data Request : Type 0 where
  open_bus unref_bus add_slot unref_slot request_name release_name reconfigure : Request
  write_file remove_file : Bytes → Request
  load_script : Bytes → Bytes → Request
  run_script : ℤ → Request

-- What the bootstrap meets: whether the file opens, the id that `loadScript` gives (negative for none),
-- and whether `run` succeeds.
pub record BootAnswers : Type 0 where
  pub opened : Bool
  pub script_id : ℤ
  pub run_ok : Bool

-- `state_dir`; empty if there is none. A text that does not fit is cut.
abbrev pub state_dir : Env → Bytes
state_dir env = elim (nonempty env.xdg_state_home) [
  | some xdg ↦ printed 256 (xdg ++ codes "/loginext")
  | none ↦ elim (nonempty env.home) [
    | some home ↦ printed 256 (home ++ codes "/.local/state/loginext")
    | none ↦ []
  ]
]

abbrev pub script_path : Bytes → ℕ → Bytes
script_path dir pid = printed 320 (dir ++ codes "/kwin-bootstrap-" ++ decimal pid ++ codes ".js")

abbrev pub plugin_name : ℕ → Bytes
plugin_name pid = printed 64 (codes "loginext-bootstrap-" ++ decimal pid)

-- The script that was written, from `loadScript` to `remove`
unfoldable pub run_bootstrap : Bytes → Bytes → BootAnswers → Bool × List Request
run_bootstrap path name a =
    if is_negative a.script_id
    then (false, write_file path ∷ load_script path name ∷ remove_file path ∷ [])
    else (
      a.run_ok,
      write_file path ∷ load_script path name ∷ run_script a.script_id ∷ remove_file path ∷ [],
    )

abbrev pub try_bootstrap : Bytes → ℕ → BootAnswers → Bool × List Request
try_bootstrap [] pid a = (false, [])
try_bootstrap (c ∷ dir) pid a =
    let out = run_bootstrap (script_path (c ∷ dir) pid) (plugin_name pid) a in
    if a.opened then out else (false, [])

unfoldable pub bootstrap : Env → ℕ → BootAnswers → List Request
bootstrap env pid a =
    let (published, es) = try_bootstrap (state_dir env) pid a in
    if published then es else es ++ reconfigure ∷ []

-- A call of `sd_bus_process` that makes progress: on a message to `Activated` that is read, on one that is
-- not, on anything else; or its failure. Behind the last it returns 0.
pub data Processed : Type 0 where
  activated : Option Bytes → Option Bytes → Processed
  unreadable progress broken : Processed

-- EINTR, another error, or a return, with the flag that is loaded if the pipe is readable.
pub data Select : Type 0 where
  eintr failed : Select
  ready : Option Bool → Select

-- A turn of the loop: the flag at its test, the calls of `sd_bus_process`, the flag behind them, whether
-- `sd_bus_get_events` succeeds, the deadline of sd-bus if that call does, the clock in microseconds, and `select`.
pub record Turn : Type 0 where
  pub stop : Bool
  pub processed : List Processed
  pub stop_processed : Bool
  pub events_ok : Bool
  pub bus_deadline : Option ℕ
  pub now : ℕ
  pub select : Select

-- The locals of the loop, with the number of warnings that were logged.
pub record KwinState : Type 0 where
  pub listener : Listener
  pub warned : Bool
  pub warnings : ℕ

-- The inner loop; the flag is true for a failure.
unfoldable pub process : Listener → List Processed → Listener × Bool
process l [] = (l, false)
process l (activated klass name ∷ ps) = process (kwin_on_activated l klass name) ps
process l (unreadable ∷ ps) = process l ps
process l (progress ∷ ps) = process l ps
process l (broken ∷ ps) = (l, true)

abbrev pub warn_after : ℕ
warn_after = 30_000_000

abbrev pub no_deadline : ℕ
no_deadline = 2 ^ 64 - 1

-- `a - b` on `uint64_t`
abbrev pub sub_u64 : ℕ → ℕ → ℕ
sub_u64 a b = (a + 2 ^ 64 - b) % 2 ^ 64

unfoldable pub check_warning : KwinState → ℕ → ℕ → KwinState
check_warning st bind now =
    if st.warned
    then st
    else if st.listener.kwin_received_any
    then record st { warned = true }
    else if leb warn_after (sub_u64 now bind)
    then record st { warned = true; warnings = st.warnings + 1 }
    else st

unfoldable pub deadline : Bool → ℕ → ℕ → ℕ
deadline warned bind bus =
    let ours = (bind + warn_after) % 2 ^ 64 in
    if not warned && (bus == no_deadline || ltb ours bus) then ours else bus

-- `tv`, in seconds and microseconds; none for a wait without end
unfoldable pub select_timeout : Bool → ℕ → ℕ → ℕ → Option (ℕ × ℕ)
select_timeout warned bind now bus =
    let d = deadline warned bind bus in
    let rel = if ltb now d then d - now else 0 in
    if d == no_deadline then none else some (rel / 1_000_000, rel % 1_000_000)

-- Whether `select` returns at once
abbrev pub tvp_zero : Option (ℕ × ℕ) → Bool
tvp_zero none = false
tvp_zero (some (sec, usec)) = sec == 0 && usec == 0

-- A turn: the state, and the timeout if it comes to `select`.
abbrev pub Outcome : Type 0
Outcome = KwinState × Option (Option (ℕ × ℕ)) × Bool

abbrev pub after_select : Select → Bool
after_select eintr = true
after_select failed = false
after_select (ready none) = true
after_select (ready (some stop)) = not stop

-- The last part of a turn, behind the calls on the bus. The flag is true if the loop goes on.
unfoldable pub wait : KwinState → ℕ → Turn → Outcome
wait st bind t = elim t.bus_deadline [
  | none ↦ (st, none, false)
  | some bus ↦
      let st' = check_warning st bind t.now in
      (st', some (select_timeout st'.warned bind t.now bus), after_select t.select)
]

unfoldable pub kwin_turn : KwinState → ℕ → Turn → Outcome
kwin_turn st bind t =
    let (l, fails) = process st.listener t.processed in
    let st' = record st { listener = l } in
    if t.stop
    then (st, none, false)
    else if fails || (t.stop_processed || not t.events_ok)
    then (st', none, false)
    else wait st' bind t

-- The turns, with the flag of whether the loop still runs.
unfoldable pub kwin_turns : KwinState → ℕ → List Turn → KwinState × Bool
kwin_turns st bind [] = (st, true)
kwin_turns st bind (t ∷ ts) =
    let out = kwin_turn st bind t in
    let rest = kwin_turns out.0 bind ts in if out.2 then rest else (out.0, false)

-- The answers to the set-up, with the clock at its end.
pub record Answers : Type 0 where
  pub bus_made : Bool
  pub open_ok : Bool
  pub vtable_ok : Bool
  pub name_ok : Bool
  pub pid : ℕ
  pub boot : BootAnswers
  pub fd_ok : Bool
  pub bind : ℕ

-- How the backend stands: it failed, it still runs, or it ended.
pub data Status : Type 0 where
  unavailable running ended : Status

abbrev pub teardown : List Request
teardown = release_name ∷ unref_slot ∷ unref_bus ∷ []

abbrev pub start_state : Listener → KwinState
start_state l = record { listener = l; warned = false; warnings = 0 }

-- The part behind the bootstrap
unfoldable pub run_bus : Listener → Answers → List Turn → KwinState × Status × List Request
run_bus l a ts =
    let (st, runs) = kwin_turns (start_state l) a.bind ts in
    if a.fd_ok
    then if runs then (st, running, []) else (st, ended, teardown)
    else (start_state l, unavailable, teardown)

-- The part behind `sd_bus_open_user`
unfoldable pub claim_name : Env → Listener → Answers → List Turn → KwinState × Status × List Request
claim_name env l a ts =
    let (st, status, es) = run_bus l a ts in
    if a.vtable_ok
    then if a.name_ok
      then (st, status, add_slot ∷ request_name ∷ bootstrap env a.pid a.boot ++ es)
      else (start_state l, unavailable, add_slot ∷ unref_slot ∷ unref_bus ∷ [])
    else (start_state l, unavailable, unref_bus ∷ [])

unfoldable pub kwin_dbus_loop :
    Env → Listener → Answers → List Turn → KwinState × Status × List Request
kwin_dbus_loop env l a ts =
    let (st, status, es) = claim_name env l a ts in
    if a.open_ok
    then (st, status, open_bus ∷ es)
    else (start_state l, unavailable, if a.bus_made then open_bus ∷ unref_bus ∷ [] else [])
