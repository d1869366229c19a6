-- ===== src/Tests/App.antt =====
-- Runs of the handlers of main.cpp.
use loginext.App.Inv.{IsValid, handle-IsValid}
use loginext.App.Socket.{as_effective, effective-resolve_rule, ask, on_reload_replies}
use loginext.Ipc.Dispatch.{introspect, resolve_rule, find_rule}
use loginext.Ipc.Server.{eof}
use loginext.App.Override.{effective-on_reload, mouse_events, is_forwarded, on_event-mouse}
use loginext.App.{
  AppContext, TimeVal, Event, effective, with_rule, on_event, on_reload, handle, input, timer,
  reload, timeval_to_ns, gesture, on_timer,
}
use loginext.Config.Loader.{load_settings}
use loginext.Config.Profile.{SensitivityMode, mode_from_str}
use loginext.Config.Settings.{default_settings, default-IsConsistent}
use loginext.Core.Emitter.{
  InputEvent, Write, Device, ev_rel, rel_hwheel, emit_combo_down, emit_combo_up, press_keys,
  release_keys,
}
use loginext.Core.Pacer
use loginext.Core.Pacer.Inv as PacerInv
use loginext.Core.Pacer.{arm_timer, arm_timer_ns, enqueue_combo, process_timer, check_damping}
use loginext.Heuristics.Scroll
use loginext.Heuristics.Scroll.{
  sign, direction_for, dynamic_threshold, since_last, idle_reset, debounce, confirms, gesture_start,
  decide, settle, process_hwheel, tick_leak, decay,
}
use loginext.Ipc.Server
use loginext.Ipc.Server.Slots
use loginext.Presets.{PresetId, preset_for, resolve, preset_id_from_str}
use loginext.Scope.Rules
use loginext.Scope.Rules.Inv as RulesInv
use loginext.Scope.RulesLoader.Load.{last_rule, rule_lines, file_lines}
use loginext.Scope.RulesLoader.{
  split_lines, read_line, trim, trim_front, trim_back, split_at, split_csv, rule_invert,
}
use loginext.Scope.Rules.{AppRule, insert, insert_from, lookup, lookup_from, clear}
use loginext.Prelude.{
  true, false, ℕ, Bytes, ◌*◌, ◌≤◌, ◌≡◌, refl, if◌then◌else◌, none, some, pos, negsuc, List, [], ◌∷◌,
  ◌++◌, codes, arith,
}

abbrev pub start : AppContext
start = record {
  settings = default_settings;
  scroll = Scroll.fresh;
  pacer = Pacer.fresh;
  rules = Rules.fresh;
  active_app_hash = 0;
  intro_name = [];
  intro_source = [];
  ipc = Server.fresh;
  reload_pending_fd = negsuc 0;
  reload_flag = false;
  stop_flag = false;
}

pub start-IsValid : IsValid start
start-IsValid = record {
  settings = default-IsConsistent;
  pacer = PacerInv.fresh-IsValid;
  rules = RulesInv.fresh-IsValid;
  ipc = Slots.fresh-IsValid;
}

abbrev pub wheel : InputEvent
wheel = record { type = ev_rel; code = rel_hwheel; value = pos 1 }

abbrev pub at_ms : ℕ → TimeVal
at_ms ms = record { tv_sec = 100; tv_usec = ms * 1_000 }

-- A run of the handlers, with all the writes.
run : AppContext → List Event → AppContext × List Write
run app [] = (app, [])
run app (e ∷ es) = let (app', w) = handle app e in let (app'', w') = run app' es in (app'', w ++ w')

-- Two wheel events 20 ms apart, and the two expiries that play the one tick, with a
-- wake-up between them that reads none.
abbrev gesture_events : List Event
gesture_events =
    input wheel (at_ms 0) ∷ input wheel (at_ms 20) ∷ timer true ∷ timer false ∷ timer true ∷ []

-- The default settings invert the wheel, so a positive event is a tick to the left.
gesture_writes :
    (run start gesture_events).1
    ≡ record { device = Device.keyboard; events = press_keys (29 ∷ 42 ∷ 15 ∷ 0 ∷ []) 3 0 }
      ∷ record { device = Device.keyboard; events = release_keys (29 ∷ 42 ∷ 15 ∷ 0 ∷ []) 3 }
      ∷ []
unfolding run handle on_event on_timer effective with_rule gesture timeval_to_ns lookup lookup_from
    sign direction_for dynamic_threshold since_last idle_reset debounce confirms gesture_start
    decide settle process_hwheel tick_leak enqueue_combo process_timer check_damping arm_timer
    arm_timer_ns resolve preset_for emit_combo_down emit_combo_up press_keys release_keys
gesture_writes = refl

handle-IsValid_example :
    IsValid (handle start (reload (some (codes "{\"sensitivity\": \"low\"}")) none)).0
handle-IsValid_example =
    handle-IsValid start (reload (some (codes "{\"sensitivity\": \"low\"}")) none) start-IsValid

abbrev zoom_rule : AppRule
zoom_rule = record {
  app_hash = 77;
  preset = PresetId.zoom;
  mode = SensitivityMode.high;
  invert = pos 0;
}

abbrev in_app : AppContext
in_app = record start { active_app_hash = 77 }

in_app-IsValid : IsValid in_app
in_app-IsValid = record {
  settings = default-IsConsistent;
  pacer = PacerInv.fresh-IsValid;
  rules = RulesInv.fresh-IsValid;
  ipc = Slots.fresh-IsValid;
}

abbrev rules_text : Bytes
rules_text = codes "# apps\ncode=zoom,high,true\ngimp=tab_nav,,false\n"

rules_text_small : rule_lines (file_lines rules_text) ≤ 32
unfolding rule_lines split_lines read_line trim trim_front trim_back split_at split_csv rule_invert
    preset_id_from_str mode_from_str
rules_text_small = omega arith

effective-on_reload_example :
    effective (on_reload start none (some rules_text)).0
    ≡ with_rule (load_settings none default_settings).0 (last_rule (file_lines rules_text) 0)
effective-on_reload_example =
    effective-on_reload start none rules_text start-IsValid rules_text_small

on_event-mouse_example :
    mouse_events (on_event start wheel (at_ms 0)).1
    ≡ (if is_forwarded start wheel then wheel ∷ [] else [])
on_event-mouse_example = on_event-mouse start wheel (at_ms 0)

effective-resolve_rule_example :
    effective in_app
    ≡ as_effective (resolve_rule default_settings (find_rule (some Rules.fresh) 77))
unfolding introspect
effective-resolve_rule_example = effective-resolve_rule in_app default-IsConsistent

-- Two clients ask before the reload runs: the second one gets the reply.
on_reload_replies_example :
    let (app', replies) = on_reload (ask start (pos 8 ∷ pos 9 ∷ [])) none none in
    (replies
      ≡ record { fd = pos 9; text = codes "{\"ok\":false,\"err\":\"reload_failed\"}\n" } ∷ [])
    × ((on_reload app' none none).1 ≡ [])
unfolding load_settings
on_reload_replies_example = on_reload_replies start (pos 8 ∷ []) (pos 9) none none none none refl
