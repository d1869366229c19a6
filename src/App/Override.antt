-- ===== src/App/Override.antt =====
-- Which preset, profile and direction are in force, and where an event goes.
use loginext.App.Inv.{IsValid, settings-IsSane}
use loginext.App.{
  AppContext, TimeVal, Effective, with_rule, effective, gesture, on_event, send_reload_ack,
  on_reload, is_passthrough, timeval_to_ns,
}
use loginext.Config.Loader.{load_settings}
use loginext.Config.Profile.Sane.{IsSane, profile_for-IsSane}
use loginext.Config.Profile.{SensitivityMode}
use loginext.Config.Settings.{Settings, IsConsistent}
use loginext.Core.Emitter.{
  InputEvent, Write, Device, emit_passthrough, emit_combo_up, rel_hwheel, ev_rel, ev_syn, ev_key,
  ev_msc,
}
use loginext.Core.Pacer.{PacingQueue, check_damping}
use loginext.Heuristics.Scroll.Invariant
use loginext.Heuristics.Scroll.Invariant.{process_hwheel-IsValid}
use loginext.Presets.{KeyCombo}
use loginext.Scope.Rules.Map.{is_accepted, insert-Inserts}
use loginext.Scope.Rules.{AppRule, insert, lookup}
use loginext.Scope.RulesLoader.Load.{load_rules-lookup, last_rule, rule_lines, file_lines}
use loginext.Prelude.{
  ℕ, ◌≤◌, ◌≡◌, ◌&&◌, ◌||◌, ◌==◌, refl, ap, ◌∙◌, Bool, true, Bool-cases, inl, inr, Option, none,
  some, ℤ, List, [], ◌∷◌, ◌++◌, Bytes, arith, is_negative, if◌then◌else◌,
}

-- In a valid state, a rule that the table accepts decides for its application and for no other: there
-- its preset holds, its mode unless it inherits, and its invert flag unless it inherits.
pub effective-insert :
    (app : AppContext) (rule : AppRule)
    → IsValid app
    → is_accepted app.rules rule ≡ true
    → effective (record app { rules = (insert app.rules rule).0 }) ≡ (
        if app.active_app_hash == rule.app_hash
        then with_rule app.settings (some rule)
        else effective app)
unfolding effective
effective-insert app rule v ok =
    let ins = insert-Inserts app.rules rule v.rules in
    ap (with_rule app.settings) (ins.reads app.active_app_hash)
    ∙ elim (Bool-cases (app.active_app_hash == rule.app_hash)) [
      | inl e ↦ rw (ok, e)
      | inr e ↦ rw (ok, e)
    ]

send_reload_ack-effective :
    (app : AppContext) (ok : Bool) → effective (send_reload_ack app ok).0 ≡ effective app
unfolding send_reload_ack effective
send_reload_ack-effective app ok = elim (Bool-cases (is_negative app.reload_pending_fd)) [
  | inl e ↦ rw e
  | inr e ↦ rw e
]

-- In a valid state, after a reload of a rules file of at most 32 rules, the focused application gets
-- the overrides of its last line in that file over the settings just loaded, whatever the table held
-- before.
pub effective-on_reload :
    (app : AppContext) (config : Option Bytes) (src : Bytes)
    → IsValid app
    → rule_lines (file_lines src) ≤ 32
    → effective (on_reload app config (some src)).0
      ≡ with_rule
          (load_settings config app.settings).0
          (last_rule (file_lines src) app.active_app_hash)
unfolding on_reload effective
effective-on_reload app config src v le =
    let (reads, _) = load_rules-lookup src app.rules v.rules.width le in
    send_reload_ack-effective _ _
    ∙ ap (with_rule (load_settings config app.settings).0) (reads app.active_app_hash)

-- The events that a handler writes to the virtual mouse.
unfoldable pub mouse_events : List Write → List InputEvent
mouse_events [] = []
mouse_events (w ∷ ws) =
    (elim w.device [ Device.mouse ↦ w.events | Device.keyboard ↦ [] ]) ++ mouse_events ws

-- Whether an event goes on to the mouse: a thumb wheel event only if no preset is in force.
abbrev pub is_forwarded : AppContext → InputEvent → Bool
is_forwarded app ev =
    if ev.type == ev_rel && ev.code == rel_hwheel
    then is_passthrough (effective app).preset
    else ev.type == ev_syn || ev.type == ev_rel || ev.type == ev_key || ev.type == ev_msc

emit_combo_up-mouse : (c : KeyCombo) → mouse_events (emit_combo_up c) ≡ []
unfolding emit_combo_up mouse_events
emit_combo_up-mouse c = ground arith

check_damping-mouse :
    (q : PacingQueue) (ts : ℕ) (p : loginext.Config.Profile.Profile)
    → mouse_events (check_damping q ts p).1 ≡ []
unfolding check_damping mouse_events
check_damping-mouse q ts p = ground (arith, emit_combo_up-mouse q.held_combo)

gesture-mouse :
    (app : AppContext) (eff : Effective) (value : ℤ) (ts : ℕ)
    → mouse_events (gesture app eff value ts).1 ≡ []
unfolding gesture
gesture-mouse app eff value ts = check_damping-mouse _ ts app.settings.profile

emit_passthrough-mouse : (ev : InputEvent) → mouse_events (emit_passthrough ev) ≡ ev ∷ []
unfolding mouse_events emit_passthrough
emit_passthrough-mouse ev = refl

-- Of each input event, the virtual mouse gets the event itself or nothing: a horizontal wheel event
-- exactly if no preset is in force for the focused application, any other exactly if it is a
-- synchronisation, relative, key or miscellaneous event.
pub on_event-mouse :
    (app : AppContext) (ev : InputEvent) (time : TimeVal)
    → mouse_events (on_event app ev time).1 ≡ (if is_forwarded app ev then ev ∷ [] else [])
unfolding on_event mouse_events
on_event-mouse app ev time = elim (Bool-cases (ev.type == ev_rel && ev.code == rel_hwheel)) [
  | inl e ↦ elim (Bool-cases (is_passthrough (effective app).preset)) [
    | inl e' ↦ rw (e, e') (emit_passthrough-mouse ev)
    | inr e' ↦ rw (e, e') (gesture-mouse app (effective app) ev.value (timeval_to_ns time))
  ]
  | inr e ↦
      elim (Bool-cases
        (ev.type == ev_syn || ev.type == ev_rel || ev.type == ev_key || ev.type == ev_msc)) [
          | inl e' ↦ rw (e, e') (emit_passthrough-mouse ev)
          | inr e' ↦ rw (e, e')
        ]
]

with_rule-IsSane :
    (s : Settings) (o : Option AppRule) → IsConsistent s → IsSane (with_rule s o).profile
unfolding with_rule
with_rule-IsSane s none c = settings-IsSane s c
with_rule-IsSane s (some rule) c = by_mode rule.mode
  where
    by_mode : (m : SensitivityMode) → IsSane (with_rule s (some (record rule { mode = m }))).profile
    by_mode SensitivityMode.inherit = settings-IsSane s c
    by_mode SensitivityMode.low = profile_for-IsSane SensitivityMode.low
    by_mode SensitivityMode.medium = profile_for-IsSane SensitivityMode.medium
    by_mode SensitivityMode.high = profile_for-IsSane SensitivityMode.high

-- In a valid state, an input event that is not older than the last wheel event keeps the gesture
-- state valid, with whatever rule is in force: its directions are signs, its reverse counter fits in
-- `int8_t` and none of its times is in the future.
pub on_event_scroll-IsValid :
    (app : AppContext) (ev : InputEvent) (time : TimeVal)
    → IsValid app
    → app.scroll.last_event_ns ≤ timeval_to_ns time
    → Invariant.IsValid app.scroll
    → Invariant.IsValid (on_event app ev time).0.scroll
unfolding on_event gesture
on_event_scroll-IsValid app ev time v le vs =
    elim (Bool-cases (ev.type == ev_rel && ev.code == rel_hwheel)) [
      | inl e ↦ elim (Bool-cases (is_passthrough (effective app).preset)) [
        | inl e' ↦ rw (e, e') vs
        | inr e' ↦ rw (e, e') (moved (effective app) (sane app))
      ]
      | inr e ↦
          elim (Bool-cases
            (ev.type == ev_syn || ev.type == ev_rel || ev.type == ev_key || ev.type == ev_msc)) [
              | inl e' ↦ rw (e, e') vs
              | inr e' ↦ rw (e, e') vs
            ]
    ]
  where
    moved :
        (eff : Effective)
        → IsSane eff.profile
        → Invariant.IsValid (gesture app eff ev.value (timeval_to_ns time)).0.scroll
    moved eff s =
        process_hwheel-IsValid app.scroll _ (timeval_to_ns time) eff.profile s.tolerance_fits le vs

    sane : (a : AppContext) → IsSane (effective app).profile
    sane a =
        unfold effective in
        with_rule-IsSane app.settings (lookup app.rules app.active_app_hash) v.settings
