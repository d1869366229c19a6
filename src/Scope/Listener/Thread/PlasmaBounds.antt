-- ===== src/Scope/Listener/Thread/PlasmaBounds.antt =====
-- The Plasma backend keeps the bounds of the published focus.
use loginext.Scope.AppHash.{hash_app_lem}
use loginext.Scope.Listener.Plasma as Plasma
use loginext.Scope.Listener.Plasma.{
  PlasmaState, PlasmaSlot, app_id_hash, publish_slot, slot_at, with_slot, plw_app_id_changed,
  plw_state_changed, plw_unmapped, plw_register_window, register_at, alloc_from, on_plasma_event,
  on_plasma_events, PlasmaEvent, plasma_turn, plasma_turns, dispatched, after_select,
  registry_global, registry_globals, run_plasma, finish, kde_wayland_loop, text_or_empty,
  app_id_max, init, window, app_id_changed, state_changed, unmapped, ignored,
}
use loginext.Scope.Listener.Thread.Bounds.{InBounds, publish_and_log-InBounds}
use loginext.Scope.Listener.{Listener}
use loginext.Prelude.{
  ℕ, ◌^◌, ◌<◌, Bool, true, false, ◌&&◌, ◌||◌, not, Option, none, some, List, [], ◌∷◌, take, Bytes,
  codes, eq_bytes, if_keeps, arith,
}

abbrev PlasmaIn : PlasmaState → Type 0
PlasmaIn st = InBounds st.listener

app_id_hash-lt : (s : Bytes) → app_id_hash s < 2 ^ 32
app_id_hash-lt [] = omega arith
app_id_hash-lt (c ∷ s) = (hash_app_lem (c ∷ s)).2

publish_slot-PlasmaIn : (st : PlasmaState) (s : PlasmaSlot) → PlasmaIn (publish_slot st s)
publish_slot-PlasmaIn st s =
    publish_and_log-InBounds st.listener _ _ (some s.app_id) (some s.app_id)
      (app_id_hash-lt s.app_id)

register_at-PlasmaIn :
    (st : PlasmaState) (win : ℕ) (o : Option ℕ) → PlasmaIn st → PlasmaIn (register_at st win o).0
register_at-PlasmaIn st win none v = v
register_at-PlasmaIn st win (some i) v = v

event-PlasmaIn :
    (st : PlasmaState) (e : PlasmaEvent) → PlasmaIn st → PlasmaIn (on_plasma_event st e).0
unfolding on_plasma_event plw_register_window plw_app_id_changed plw_state_changed plw_unmapped
event-PlasmaIn st (window none) v = v
event-PlasmaIn st (window (some win)) v = register_at-PlasmaIn st win (alloc_from st.slots 0) v
event-PlasmaIn st (app_id_changed i app_id) v =
    let s = record (slot_at st i) { app_id = take app_id_max (text_or_empty app_id) } in
    if_keeps PlasmaIn s.active (publish_slot-PlasmaIn (with_slot st i s) s) v
event-PlasmaIn st (state_changed i now) v =
    let s = record (slot_at st i) { active = now } in
    if_keeps PlasmaIn ((now && (slot_at st i).active) || (not now && not (slot_at st i).active)) v
      (if_keeps PlasmaIn now (publish_slot-PlasmaIn (with_slot st i s) s) v)
event-PlasmaIn st (unmapped i win) v = v
event-PlasmaIn st ignored v = v

events-PlasmaIn :
    (st : PlasmaState) (es : List PlasmaEvent) → PlasmaIn st → PlasmaIn (on_plasma_events st es).0
unfolding on_plasma_events
events-PlasmaIn st [] v = v
events-PlasmaIn st (e ∷ es) v = events-PlasmaIn (on_plasma_event st e).0 es (event-PlasmaIn st e v)

after_select-PlasmaIn :
    (st : PlasmaState) (x : Plasma.Select) (es : List PlasmaEvent)
    → PlasmaIn st
    → PlasmaIn (after_select st x es).0
after_select-PlasmaIn st Plasma.eintr es v = v
after_select-PlasmaIn st Plasma.failed es v = v
after_select-PlasmaIn st (Plasma.ready (some false) wake) es v = v
after_select-PlasmaIn st (Plasma.ready (some true) none) es v = events-PlasmaIn st es v
after_select-PlasmaIn st (Plasma.ready (some true) (some false)) es v = events-PlasmaIn st es v
after_select-PlasmaIn st (Plasma.ready (some true) (some true)) es v = v
after_select-PlasmaIn st (Plasma.ready none none) es v = events-PlasmaIn st es v
after_select-PlasmaIn st (Plasma.ready none (some false)) es v = events-PlasmaIn st es v
after_select-PlasmaIn st (Plasma.ready none (some true)) es v = v

abbrev OutIn : Plasma.Outcome → Type 0
OutIn out = PlasmaIn out.0

plasma_turn-OutIn : (st : PlasmaState) (t : Plasma.Turn) → PlasmaIn st → OutIn (plasma_turn st t)
unfolding plasma_turn
plasma_turn-OutIn st t v =
    let v' = events-PlasmaIn st t.pending v in
    if_keeps OutIn t.stop v (
      if_keeps OutIn t.flush_ok
        (after_select-PlasmaIn (on_plasma_events st t.pending).0 t.select t.events v') v')

next_turn-OutIn :
    (loop : PlasmaState → Plasma.Outcome) (out : Plasma.Outcome)
    → ((st : PlasmaState) → PlasmaIn st → OutIn (loop st))
    → OutIn out
    → OutIn (Plasma.next_turn loop out)
next_turn-OutIn loop (st, ws, rs, false) h v = v
next_turn-OutIn loop (st, ws, rs, true) h v = h st v

plasma_turns-OutIn :
    (st : PlasmaState) (ts : List Plasma.Turn) → PlasmaIn st → OutIn (plasma_turns st ts)
unfolding plasma_turns
plasma_turns-OutIn st [] v = v
plasma_turns-OutIn st (t ∷ ts) v =
    next_turn-OutIn (λ st'. plasma_turns st' ts) (plasma_turn st t)
      (λ st' v'. plasma_turns-OutIn st' ts v') (plasma_turn-OutIn st t v)

finish-PlasmaIn : (out : Plasma.Outcome) → OutIn out → PlasmaIn (finish out).0
finish-PlasmaIn (st, ws, rs, true) v = v
finish-PlasmaIn (st, ws, rs, false) v = v

globals-PlasmaIn :
    (st : PlasmaState) (names : List Bytes) → PlasmaIn st → PlasmaIn (registry_globals st names).0
unfolding registry_globals registry_global
globals-PlasmaIn st [] v = v
globals-PlasmaIn st (name ∷ names) v = globals-PlasmaIn (registry_global st name).0 names (
    if_keeps (λ (out : PlasmaState × Bool). PlasmaIn out.0)
      (eq_bytes name (codes "org_kde_plasma_window_management") && not st.wm)
      {x = (record st { wm = true }, true)} {y = (st, false)} v v)

abbrev EndIn : Plasma.Backend → Type 0
EndIn out = PlasmaIn out.0

pub kde_wayland_loop-InBounds :
    (l : Listener) (a : Plasma.Answers) (ts : List Plasma.Turn)
    → InBounds l
    → InBounds (kde_wayland_loop l a ts).0.listener
unfolding kde_wayland_loop run_plasma
kde_wayland_loop-InBounds l a ts v =
    let (st, bound) = registry_globals (init l) a.interfaces in
    let g = globals-PlasmaIn (init l) a.interfaces v in
    let st' = (on_plasma_events st a.windows).0 in
    let w = plasma_turns-OutIn st' ts (events-PlasmaIn st a.windows g) in
    if_keeps EndIn a.connected (if_keeps EndIn st.wm (finish-PlasmaIn (plasma_turns st' ts) w) g) v
