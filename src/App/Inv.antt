-- ===== src/App/Inv.antt =====
-- What the handlers keep true of the whole state.
use loginext.App.{
  AppContext, TimeVal, Effective, effective, queue_tick, gesture, on_event, on_timer,
  send_reload_ack, on_reload, on_line, on_io, Event, input, timer, reload, focus, io, handle,
  is_passthrough, timeval_to_ns,
}
use loginext.Config.Loader.Keeps.{load_settings-IsConsistent}
use loginext.Config.Profile.Sane.{IsSane, profile_for-IsSane}
use loginext.Config.Profile.{Profile}
use loginext.Config.Settings.{Settings, IsConsistent}
use loginext.Core.Emitter.{InputEvent, rel_hwheel, ev_rel, ev_syn, ev_key, ev_msc}
use loginext.Core.Pacer.Inv as PacerInv
use loginext.Core.Pacer.Inv.{is_armed, enqueue_combo-IsValid, check_damping-IsValid}
use loginext.Core.Pacer.Run.{react, react-IsValid}
use loginext.Core.Pacer.{PacingQueue}
use loginext.Core.Player.{fire, spurious, Stimulus}
use loginext.Heuristics.Direction.{Direction}
use loginext.Presets.{resolve}
use loginext.Scope.Rules.Inv as RulesInv
use loginext.Scope.RulesLoader.Load.{load_rules-IsValid}
use loginext.Ipc.Server.Accept.{on_accept-IsValid}
use loginext.Ipc.Server.Handler.{on_client_readable_fd_keeps}
use loginext.Ipc.Server.Slots
use loginext.Ipc.Server.Slots.{on_client_readable_fd-IsValid}
use loginext.Ipc.Server.{Accepted, ReadResult, owns_fd}
use loginext.Prelude.{
  true, false, ℕ, ◌≡◌, ◌&&◌, ◌||◌, ◌==◌, refl, sym, subst, Bool, Bool-cases, inl, inr, ℤ, eqb_ℤ,
  List, Bytes, is_negative,
}

pub record IsValid (app : AppContext) : Type 0 where
  pub settings : IsConsistent app.settings
  pub pacer : PacerInv.IsValid app.pacer
  pub rules : RulesInv.IsValid app.rules
  pub ipc : Slots.IsValid app.ipc

pub settings-IsSane : (s : Settings) → IsConsistent s → IsSane s.profile
settings-IsSane s c = subst IsSane (sym c.profile_is) (profile_for-IsSane s.mode)

queue_tick-IsValid :
    (q : PacingQueue) (eff : Effective) (ts : ℕ) (p : Profile) (dir : Direction)
    → IsSane p
    → PacerInv.IsValid q
    → PacerInv.IsValid (queue_tick q eff ts p dir)
queue_tick-IsValid q eff ts p Direction.none sane v = v
queue_tick-IsValid q eff ts p Direction.left sane v =
    enqueue_combo-IsValid p sane q (resolve eff.preset Direction.left) ts v
queue_tick-IsValid q eff ts p Direction.right sane v =
    enqueue_combo-IsValid p sane q (resolve eff.preset Direction.right) ts v

gesture-IsValid :
    (app : AppContext) (eff : Effective) (value : ℤ) (ts : ℕ)
    → IsValid app
    → IsValid (gesture app eff value ts).0
unfolding gesture
gesture-IsValid app eff value ts v =
    let sane = settings-IsSane app.settings v.settings in
    record {
      settings = v.settings;
      pacer =
          check_damping-IsValid app.settings.profile sane _ ts
            (queue_tick-IsValid app.pacer eff ts app.settings.profile _ sane v.pacer);
      rules = v.rules;
      ipc = v.ipc;
    }

on_event-IsValid :
    (app : AppContext) (ev : InputEvent) (time : TimeVal)
    → IsValid app
    → IsValid (on_event app ev time).0
unfolding on_event
on_event-IsValid app ev time v = elim (Bool-cases (ev.type == ev_rel && ev.code == rel_hwheel)) [
  | inl e ↦ elim (Bool-cases (is_passthrough (effective app).preset)) [
    | inl e' ↦ rw (e, e') v
    | inr e' ↦ rw (e, e') (gesture-IsValid app (effective app) ev.value (timeval_to_ns time) v)
  ]
  | inr e ↦
      elim (Bool-cases
        (ev.type == ev_syn || ev.type == ev_rel || ev.type == ev_key || ev.type == ev_msc)) [
          | inl e' ↦ rw (e, e') v
          | inr e' ↦ rw (e, e') v
        ]
]

send_reload_ack-IsValid :
    (app : AppContext) (ok : Bool) → IsValid app → IsValid (send_reload_ack app ok).0
unfolding send_reload_ack
send_reload_ack-IsValid app ok v = elim (Bool-cases (is_negative app.reload_pending_fd)) [
  | inl e ↦ rw e v
  | inr e ↦ rw e (record { settings = v.settings; pacer = v.pacer; rules = v.rules; ipc = v.ipc })
]

-- The parts of the state that decide what the wheel does.
pub record SameCore (app app' : AppContext) : Type 0 where
  pub settings : app'.settings ≡ app.settings
  pub scroll : app'.scroll ≡ app.scroll
  pub pacer : app'.pacer ≡ app.pacer
  pub rules : app'.rules ≡ app.rules
  pub focus : app'.active_app_hash ≡ app.active_app_hash

same : (app : AppContext) → SameCore app app
same app = record { settings = refl; scroll = refl; pacer = refl; rules = refl; focus = refl }

on_line-SameCore :
    (app app' : AppContext) (line : Bytes) (fd : ℤ)
    → SameCore app app'
    → SameCore app (on_line app' line fd).0
unfolding on_line
on_line-SameCore app app' line fd c = record {
  settings = c.settings;
  scroll = c.scroll;
  pacer = c.pacer;
  rules = c.rules;
  focus = c.focus;
}

-- No traffic on the control socket, whatever the clients send, changes the settings, the gesture, the
-- pacer, the rules or the focused application.
pub on_io-SameCore :
    (app : AppContext) (fd : ℤ) (accepted : List Accepted) (r : ReadResult)
    → SameCore app (on_io app fd accepted r).0
unfolding on_io
on_io-SameCore app fd accepted r = elim (Bool-cases (eqb_ℤ fd app.ipc.listen_fd)) [
  | inl e ↦
      rw e (record { settings = refl; scroll = refl; pacer = refl; rules = refl; focus = refl })
  | inr e ↦ elim (Bool-cases (owns_fd app.ipc fd)) [
    | inl e' ↦
        let c =
          on_client_readable_fd_keeps on_line (SameCore app)
            (λ app' line fd' c. on_line-SameCore app app' line fd' c) app.ipc app fd r (same app) in
        rw (e, e')
          (record {
            settings = c.settings;
            scroll = c.scroll;
            pacer = c.pacer;
            rules = c.rules;
            focus = c.focus;
          })
    | inr e' ↦ rw (e, e') (same app)
  ]
]

on_io_slots-IsValid :
    (app : AppContext) (fd : ℤ) (accepted : List Accepted) (r : ReadResult)
    → Slots.IsValid app.ipc
    → Slots.IsValid (on_io app fd accepted r).0.ipc
unfolding on_io
on_io_slots-IsValid app fd accepted r v = elim (Bool-cases (eqb_ℤ fd app.ipc.listen_fd)) [
  | inl e ↦ rw e (on_accept-IsValid app.ipc accepted v)
  | inr e ↦ elim (Bool-cases (owns_fd app.ipc fd)) [
    | inl e' ↦ rw (e, e') (on_client_readable_fd-IsValid on_line app.ipc app fd r v)
    | inr e' ↦ rw (e, e') v
  ]
]

timer-IsValid :
    (app : AppContext) (x : Stimulus)
    → IsValid app
    → IsValid (record app { pacer = (react app.settings.profile app.pacer x).0 })
timer-IsValid app x v = record {
  settings = v.settings;
  pacer =
      react-IsValid app.settings.profile (settings-IsSane app.settings v.settings) app.pacer x
        v.pacer;
  rules = v.rules;
  ipc = v.ipc;
}

-- Each event keeps the state valid, whatever a reload reads: the settings are consistent, the
-- pacer's ring is well formed with its timer armed exactly if there is work, the rule table's entries
-- are all found, and each client's buffer holds the start of one line.
pub handle-IsValid : (app : AppContext) (e : Event) → IsValid app → IsValid (handle app e).0
unfolding handle on_timer on_reload react
handle-IsValid app (input ev time) v = on_event-IsValid app ev time v
handle-IsValid app (timer true) v = timer-IsValid app fire v
handle-IsValid app (timer false) v = timer-IsValid app spurious v
handle-IsValid app (reload config rules) v = send_reload_ack-IsValid _ _ (record {
  settings = load_settings-IsConsistent config app.settings v.settings;
  pacer = v.pacer;
  rules = load_rules-IsValid rules app.rules v.rules.width;
  ipc = v.ipc;
})
handle-IsValid app (focus hash name source) v = record {
  settings = v.settings;
  pacer = v.pacer;
  rules = v.rules;
  ipc = v.ipc;
}
handle-IsValid app (io fd accepted r) v =
    let c = on_io-SameCore app fd accepted r in
    record {
      settings = subst IsConsistent (sym c.settings) v.settings;
      pacer = subst PacerInv.IsValid (sym c.pacer) v.pacer;
      rules = subst RulesInv.IsValid (sym c.rules) v.rules;
      ipc = on_io_slots-IsValid app fd accepted r v.ipc;
    }
