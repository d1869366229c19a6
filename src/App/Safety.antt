-- ===== src/App/Safety.antt =====
-- The keyboard over any handler of main.cpp, however its writes land.
use loginext.App.Inv.{IsValid, settings-IsSane, on_io-SameCore}
use loginext.App.{
  AppContext, TimeVal, Effective, effective, queue_tick, gesture, on_event, on_timer,
  send_reload_ack, on_reload, Event, input, timer, reload, focus, io, handle, is_passthrough,
  timeval_to_ns,
}
use loginext.Config.Profile.Sane.{IsSane}
use loginext.Config.Profile.{Profile}
use loginext.Core.Emitter.Keys.{KeyState}
use loginext.Core.Emitter.Lands.{Always, Always-none, passthrough-Always, nil}
use loginext.Core.Emitter.{InputEvent, Write, rel_hwheel, ev_rel, ev_syn, ev_key, ev_msc}
use loginext.Core.Pacer.Inv as PacerInv
use loginext.Core.Pacer.Refine.{view}
use loginext.Core.Pacer.Run.{react, react-IsValid, react_refines}
use loginext.Core.Pacer.{PacingQueue, enqueue_combo, check_damping}
use loginext.Core.Player.{Player, Stimulus, tick, fire, spurious, check, HeldDown, respond-HeldDown}
use loginext.Heuristics.Direction.{Direction}
use loginext.Presets.{KeyCombo, resolve}
use loginext.Prelude.{
  true, ℕ, ◌≡◌, ◌&&◌, ◌||◌, ◌==◌, sym, subst, Bool, false, Bool-cases, inl, inr, Option, none, some,
  ℤ, List, [], ◌∷◌, ◌++◌, is_negative, if◌then◌else◌,
}

-- The combination that the pacer holds down.
abbrev pub held : PacingQueue → Option KeyCombo
held q = if q.release_pending then some q.held_combo else none

react-HeldDown :
    (p : Profile) (q : PacingQueue) (x : Stimulus) (st : KeyState)
    → IsSane p
    → PacerInv.IsValid q
    → HeldDown (held q) st
    → Always (HeldDown (held (react p q x).0)) (react p q x).1 st
react-HeldDown p q x st sane v d =
    subst (λ (o : Player × List Write). Always (HeldDown o.0.held) o.1 st)
      (sym (react_refines p sane q x v)) (respond-HeldDown p (view q) x st d)

module _ (p : Profile) (sane : IsSane p) (ts : ℕ) (st : KeyState) where
  checked-HeldDown :
      (q : PacingQueue)
      → PacerInv.IsValid q
      → HeldDown (held q) st
      → Always (HeldDown (held (check_damping q ts p).0)) (check_damping q ts p).1 st
  unfolding react
  checked-HeldDown q v d = react-HeldDown p q (check ts) st sane v d

  ticked-HeldDown :
      (q : PacingQueue) (c : KeyCombo)
      → PacerInv.IsValid q
      → HeldDown (held q) st
      → let q' = enqueue_combo q c ts p in
        Always (HeldDown (held (check_damping q' ts p).0)) (check_damping q' ts p).1 st
  unfolding react
  ticked-HeldDown q c v d =
      checked-HeldDown (enqueue_combo q c ts p) (react-IsValid p sane q (tick c ts) v)
        (react-HeldDown p q (tick c ts) st sane v d [] nil)

  queued-HeldDown :
      (q : PacingQueue) (eff : Effective) (dir : Direction)
      → PacerInv.IsValid q
      → HeldDown (held q) st
      → let q' = queue_tick q eff ts p dir in
        Always (HeldDown (held (check_damping q' ts p).0)) (check_damping q' ts p).1 st
  queued-HeldDown q eff Direction.none v d = checked-HeldDown q v d
  queued-HeldDown q eff Direction.left v d =
      ticked-HeldDown q (resolve eff.preset Direction.left) v d
  queued-HeldDown q eff Direction.right v d =
      ticked-HeldDown q (resolve eff.preset Direction.right) v d

-- The outcome of a handler, for the keys that were down before: however its writes land.
abbrev Kept : KeyState → AppContext × List Write → Type 0
Kept st out = Always (HeldDown (held out.0.pacer)) out.1 st

gesture-HeldDown :
    (app : AppContext) (eff : Effective) (value : ℤ) (ts : ℕ) (st : KeyState)
    → IsValid app
    → HeldDown (held app.pacer) st
    → Kept st (gesture app eff value ts)
unfolding gesture
gesture-HeldDown app eff value ts st v d =
    queued-HeldDown app.settings.profile (settings-IsSane app.settings v.settings) ts st app.pacer
      eff _ v.pacer d

on_event-HeldDown :
    (app : AppContext) (ev : InputEvent) (time : TimeVal) (st : KeyState)
    → IsValid app
    → HeldDown (held app.pacer) st
    → Kept st (on_event app ev time)
unfolding on_event
on_event-HeldDown app ev time st v d =
    elim (Bool-cases (ev.type == ev_rel && ev.code == rel_hwheel)) [
      | inl e ↦ elim (Bool-cases (is_passthrough (effective app).preset)) [
        | inl e' ↦ rw (e, e') (passthrough-Always (HeldDown (held app.pacer)) ev st d)
        | inr e' ↦
            rw (e, e') (gesture-HeldDown app (effective app) ev.value (timeval_to_ns time) st v d)
      ]
      | inr e ↦
          elim (Bool-cases
            (ev.type == ev_syn || ev.type == ev_rel || ev.type == ev_key || ev.type == ev_msc)) [
              | inl e' ↦ rw (e, e') (passthrough-Always (HeldDown (held app.pacer)) ev st d)
              | inr e' ↦ rw (e, e') (Always-none (HeldDown (held app.pacer)) st d)
            ]
    ]

send_reload_ack-pacer :
    (app : AppContext) (ok : Bool) → (send_reload_ack app ok).0.pacer ≡ app.pacer
unfolding send_reload_ack
send_reload_ack-pacer app ok = elim (Bool-cases (is_negative app.reload_pending_fd)) [
  | inl e ↦ rw e
  | inr e ↦ rw e
]

pub handle-HeldDown :
    (app : AppContext) (e : Event) (st : KeyState)
    → IsValid app
    → HeldDown (held app.pacer) st
    → Kept st (handle app e)
unfolding handle on_timer on_reload react
handle-HeldDown app (input ev time) st v d = on_event-HeldDown app ev time st v d
handle-HeldDown app (timer true) st v d =
    react-HeldDown app.settings.profile app.pacer fire st (settings-IsSane app.settings v.settings)
      v.pacer d
handle-HeldDown app (timer false) st v d =
    react-HeldDown app.settings.profile app.pacer spurious st
      (settings-IsSane app.settings v.settings) v.pacer d
handle-HeldDown app (reload config rules) st v d =
    subst (λ q. Always (HeldDown (held q)) [] st) (sym (send_reload_ack-pacer _ _))
      (Always-none (HeldDown (held app.pacer)) st d)
handle-HeldDown app (focus hash name source) st v d = Always-none (HeldDown (held app.pacer)) st d
handle-HeldDown app (io fd accepted r) st v d =
    subst (λ q. Always (HeldDown (held q)) [] st) (sym (on_io-SameCore app fd accepted r).pacer)
      (Always-none (HeldDown (held app.pacer)) st d)

unfoldable pub run : AppContext → List Event → AppContext × List Write
run app [] = (app, [])
run app (e ∷ es) = let (app', w) = handle app e in let (app'', w') = run app' es in (app'', w ++ w')
