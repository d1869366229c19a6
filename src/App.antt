-- ===== src/App.antt =====
-- main.cpp: the handlers that the event loop calls, over the state of all the parts. The threads'
-- atomic hash of the focused application is a field that the environment sets.
pub mod Override
pub mod Inv
pub mod Safety
pub mod Socket
pub mod Startup
pub mod Whole
pub mod Loop
use loginext.Config.Loader.{load_settings}
use loginext.Config.Profile.{SensitivityMode, Profile, profile_for}
use loginext.Config.Settings.{Settings}
use loginext.Core.Emitter.{
  InputEvent, ev_syn, ev_key, ev_rel, ev_msc, rel_hwheel, Write, emit_passthrough,
}
use loginext.Core.Pacer.Inv.{is_armed}
use loginext.Core.Pacer.{PacingQueue, enqueue_combo, process_timer, check_damping}
use loginext.Heuristics.Direction.{Direction}
use loginext.Heuristics.Scroll
use loginext.Heuristics.Scroll.{ScrollState, process_hwheel, tick_leak}
use loginext.Ipc.Dispatch.{DispatchCtx, Response, dispatch_with_fd}
use loginext.Ipc.Server.{
  IpcServer, Effect, Accepted, ReadResult, response_buf, on_accept, owns_fd, on_client_readable_fd,
}
use loginext.Presets.{PresetId, resolve}
use loginext.Scope.Rules.{AppRule, RuleTable, lookup, invert_inherit, invert_on}
use loginext.Scope.RulesLoader.{load_rules}
use loginext.Prelude.{
  ℕ, ◌+◌, ◌*◌, Bool, true, false, ◌&&◌, ◌||◌, ◌==◌, if◌then◌else◌, Option, none, some, ℤ, negsuc,
  eqb_ℤ, is_negative, neg, List, [], ◌∷◌, Bytes, codes,
}

-- A line sent to a client of the control socket.
pub record Reply : Type 0 where
  pub fd : ℤ
  pub text : Bytes

-- The part of `AppContext` that the handlers below change. `reload_pending_fd` is the field of
-- `ipc_ctx`, `active_app_hash` and the two texts are those of the listener, and the flags stand for
-- `g_reload` and `g_stop`.
pub record AppContext : Type 0 where
  pub settings : Settings
  pub scroll : ScrollState
  pub pacer : PacingQueue
  pub rules : RuleTable
  pub active_app_hash : ℕ
  pub intro_name : Bytes
  pub intro_source : Bytes
  pub ipc : IpcServer
  pub reload_pending_fd : ℤ
  pub reload_flag : Bool
  pub stop_flag : Bool

-- The `timeval` of an event
pub record TimeVal : Type 0 where
  pub tv_sec : ℕ
  pub tv_usec : ℕ

unfoldable pub timeval_to_ns : TimeVal → ℕ
timeval_to_ns tv = tv.tv_sec * 1_000_000_000 + tv.tv_usec * 1_000

pub record Effective : Type 0 where
  pub preset : PresetId
  pub profile : Profile
  pub invert : Bool

-- The overrides of a rule over the settings.
unfoldable pub with_rule : Settings → Option AppRule → Effective
with_rule s none = record {
  preset = s.active_preset;
  profile = s.profile;
  invert = s.invert_hwheel;
}
with_rule s (some rule) = record {
  preset = rule.preset;
  profile = override rule.mode;
  invert =
      if eqb_ℤ rule.invert invert_inherit then s.invert_hwheel else eqb_ℤ rule.invert invert_on;
}
  where
    override : SensitivityMode → Profile
    override SensitivityMode.inherit = s.profile
    override m = profile_for m

unfoldable pub effective : AppContext → Effective
effective app = with_rule app.settings (lookup app.rules app.active_app_hash)

abbrev pub is_passthrough : PresetId → Bool
is_passthrough PresetId.none = true
is_passthrough _ = false

-- A tick's combination goes to the pacer.
abbrev pub queue_tick : PacingQueue → Effective → ℕ → Profile → Direction → PacingQueue
queue_tick q eff ts p Direction.none = q
queue_tick q eff ts p dir = enqueue_combo q (resolve eff.preset dir) ts p

-- The gesture branch of `on_event`, behind the test for passthrough.
unfoldable pub gesture : AppContext → Effective → ℤ → ℕ → AppContext × List Write
gesture app eff ev_value ts =
    let value = if eff.invert then neg ev_value else ev_value in
    let (scroll, dir) = process_hwheel (tick_leak app.scroll ts eff.profile) value ts eff.profile in
    let p = app.settings.profile in
    let (pacer, writes) = check_damping (queue_tick app.pacer eff ts p dir) ts p in
    (record app { scroll = scroll; pacer = pacer }, writes)

unfoldable pub on_event : AppContext → InputEvent → TimeVal → AppContext × List Write
on_event app ev time =
    let eff = effective app in
    if ev.type == ev_rel && ev.code == rel_hwheel
    then if is_passthrough eff.preset
      then (app, emit_passthrough ev)
      else gesture app eff ev.value (timeval_to_ns time)
    else if ev.type == ev_syn || ev.type == ev_rel || ev.type == ev_key || ev.type == ev_msc
    then (app, emit_passthrough ev)
    else (app, [])

-- The flag is that of `process_timer`; the pacer's profile points into the settings.
unfoldable pub on_timer : AppContext → Bool → AppContext × List Write
on_timer app expired =
    let (pacer, writes) = process_timer app.pacer expired app.settings.profile in
    (record app { pacer = pacer }, writes)

-- `send_reload_ack` of ipc/dispatch.cpp. A failed write is ignored.
unfoldable pub send_reload_ack : AppContext → Bool → AppContext × List Reply
send_reload_ack app success = if is_negative app.reload_pending_fd then (app, []) else (
  record app { reload_pending_fd = negsuc 0 },
  record {
    fd = app.reload_pending_fd;
    text =
        if success
        then codes "{\"ok\":true}\n"
        else codes "{\"ok\":false,\"err\":\"reload_failed\"}\n";
  }
      ∷ [],
)

-- The arguments are the contents of the two files, as for the loaders.
unfoldable pub on_reload : AppContext → Option Bytes → Option Bytes → AppContext × List Reply
on_reload app config rules =
    let (settings, ok) = load_settings config app.settings in
    let (table, _) = load_rules rules app.rules in
    send_reload_ack (record app { settings = settings; rules = table; scroll = Scroll.fresh }) ok

-- What `ipc_ctx` points to.
abbrev pub ipc_ctx : AppContext → DispatchCtx
ipc_ctx app = record {
  settings = app.settings;
  reload_flag = app.reload_flag;
  reload_pending_fd = app.reload_pending_fd;
  scope = some (record {
    active_app_hash = app.active_app_hash;
    intro_name = app.intro_name;
    intro_source = app.intro_source;
  });
  rules = some app.rules;
  stop_flag = app.stop_flag;
}

-- `dispatch_with_fd` as the server calls it, on the three fields that it may change.
unfoldable pub on_line : AppContext → Bytes → ℤ → AppContext × Response
on_line app line client_fd =
    let (dc, r) = dispatch_with_fd line response_buf (ipc_ctx app) client_fd in
    (
      record app {
        reload_flag = dc.reload_flag;
        reload_pending_fd = dc.reload_pending_fd;
        stop_flag = dc.stop_flag;
      },
      r,
    )

-- The arguments after the descriptor are what `accept4` or `read` answer.
unfoldable pub on_io : AppContext → ℤ → List Accepted → ReadResult → AppContext × List Effect
on_io app fd accepted r =
    let (ipc, es) = on_accept app.ipc accepted in
    let (ipc', app', es') = on_client_readable_fd on_line app.ipc app fd r in
    if eqb_ℤ fd app.ipc.listen_fd
    then (record app { ipc = ipc }, es)
    else if owns_fd app.ipc fd
    then (record app' { ipc = ipc' }, es')
    else (app, [])

-- What the event loop delivers, and a change of focus, which the listener's thread publishes.
pub data Event : Type 0 where
  input : InputEvent → TimeVal → Event
  timer : Bool → Event
  reload : Option Bytes → Option Bytes → Event
  focus : ℕ → Bytes → Bytes → Event
  io : ℤ → List Accepted → ReadResult → Event

-- The state after an event, and the writes to the two virtual devices. The loop lowers the reload flag
-- before it calls `on_reload`. The flag of `timer` is whether `read` returns the eight bytes of an
-- expiry, which it cannot do for a timer that is not armed. An expired timer is no longer armed.
unfoldable pub handle : AppContext → Event → AppContext × List Write
handle app (input ev time) = on_event app ev time
handle app (timer true) =
    on_timer (record app { pacer = record app.pacer { timer = none } }) (is_armed app.pacer.timer)
handle app (timer false) = on_timer app false
handle app (reload config rules) =
    ((on_reload (record app { reload_flag = false }) config rules).0, [])
handle app (focus hash name source) =
    (record app { active_app_hash = hash; intro_name = name; intro_source = source }, [])
handle app (io fd accepted r) = ((on_io app fd accepted r).0, [])
