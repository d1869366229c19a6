-- ===== src/Scope/Listener/Thread/Backends.antt =====
-- The KWin and X11 backends keep the bounds of the published focus.
use loginext.Env.{Env, nonempty}
use loginext.Scope.AppHash.{hash_app_lem}
use loginext.Scope.Listener.Kwin as Kwin
use loginext.Scope.Listener.Kwin.{
  rule_hash, or_else, kwin_on_activated, process, check_warning, wait, kwin_turn, kwin_turns,
  run_bus, claim_name, kwin_dbus_loop, start_state, KwinState, Status, activated, unreadable,
  progress, broken,
}
use loginext.Scope.Listener.Thread.Bounds.{InBounds, publish_and_log-InBounds}
use loginext.Scope.Listener.X11 as X11
use loginext.Scope.Listener.X11.{
  x11_publish_active, publish_class, publish_window, refreshes, poll, selected, x11_turn, x11_turns,
  watch, x11_loop,
}
use loginext.Scope.Listener.{Listener}
use loginext.Prelude.{
  ℕ, zero, suc, ◌^◌, ◌<◌, Bool, true, false, ◌||◌, not, leb, Option, none, some, List, [], ◌∷◌,
  Bytes, if_keeps, arith,
}

rule_hash-lt : (k : Option Bytes) → rule_hash k < 2 ^ 32
rule_hash-lt none = omega arith
rule_hash-lt (some []) = omega arith
rule_hash-lt (some (c ∷ s)) = (hash_app_lem (c ∷ s)).2

process-InBounds :
    (l : Listener) (ps : List Kwin.Processed) → InBounds l → InBounds (process l ps).0
unfolding process kwin_on_activated
process-InBounds l [] v = v
process-InBounds l (activated k n ∷ ps) v = process-InBounds (kwin_on_activated l k n) ps (
    publish_and_log-InBounds (record l { kwin_received_any = true }) _ _ n k
      (rule_hash-lt (or_else (nonempty n) k)))
process-InBounds l (unreadable ∷ ps) v = process-InBounds l ps v
process-InBounds l (progress ∷ ps) v = process-InBounds l ps v
process-InBounds l (broken ∷ ps) v = v

abbrev KwinIn : KwinState → Type 0
KwinIn st = InBounds st.listener

check_warning-KwinIn :
    (st : KwinState) (bind now : ℕ) → KwinIn st → KwinIn (check_warning st bind now)
unfolding check_warning
check_warning-KwinIn st bind now v = if_keeps KwinIn st.warned v (
    if_keeps KwinIn st.listener.kwin_received_any v
      (if_keeps KwinIn (leb Kwin.warn_after (Kwin.sub_u64 now bind)) v v))

wait-KwinIn : (st : KwinState) (bind : ℕ) (t : Kwin.Turn) → KwinIn st → KwinIn (wait st bind t).0
unfolding wait
wait-KwinIn st bind t v =
    elim t.bus_deadline
      as (λ (d : Option ℕ). KwinIn (wait st bind (record t { bus_deadline = d })).0) [
        | none ↦ v
        | some bus ↦ check_warning-KwinIn st bind t.now v
      ]

kwin_turn-KwinIn :
    (st : KwinState) (bind : ℕ) (t : Kwin.Turn) → KwinIn st → KwinIn (kwin_turn st bind t).0
unfolding kwin_turn
kwin_turn-KwinIn st bind t v =
    let (l, fails) = process st.listener t.processed in
    let v' = process-InBounds st.listener t.processed v in
    if_keeps (λ (out : Kwin.Outcome). KwinIn out.0) t.stop v
      (if_keeps (λ (out : Kwin.Outcome). KwinIn out.0)
        (fails || (t.stop_processed || not t.events_ok)) v'
        (wait-KwinIn (record st { listener = l }) bind t v'))

kwin_turns-KwinIn :
    (st : KwinState) (bind : ℕ) (ts : List Kwin.Turn) → KwinIn st → KwinIn (kwin_turns st bind ts).0
unfolding kwin_turns
kwin_turns-KwinIn st bind [] v = v
kwin_turns-KwinIn st bind (t ∷ ts) v =
    let v' = kwin_turn-KwinIn st bind t v in
    if_keeps (λ (out : KwinState × Bool). KwinIn out.0) (kwin_turn st bind t).2
      (kwin_turns-KwinIn (kwin_turn st bind t).0 bind ts v') v'

abbrev KwinOut : KwinState × Status × List Kwin.Request → Type 0
KwinOut out = KwinIn out.0

pub kwin_dbus_loop-InBounds :
    (env : Env) (l : Listener) (a : Kwin.Answers) (ts : List Kwin.Turn)
    → InBounds l
    → InBounds (kwin_dbus_loop env l a ts).0.listener
unfolding kwin_dbus_loop claim_name run_bus
kwin_dbus_loop-InBounds env l a ts v =
    let v' = kwin_turns-KwinIn (start_state l) a.bind ts v in
    if_keeps KwinOut a.open_ok
      (if_keeps KwinOut a.vtable_ok
        (if_keeps KwinOut a.name_ok
          (if_keeps KwinOut a.fd_ok
            (if_keeps KwinOut (kwin_turns (start_state l) a.bind ts).1 v' v') v)
          v)
        v)
      v

reply-InBounds : (l : Listener) (r : X11.Reply) → InBounds l → InBounds (x11_publish_active l r)
unfolding x11_publish_active
reply-InBounds l r v = of_window r.active r.wm_class
  where
    of_class : (cls : Option (Option Bytes × Option Bytes)) → InBounds (publish_class l cls)
    of_class none = publish_and_log-InBounds l 0 _ none none (omega arith)
    of_class (some (i, k)) =
        publish_and_log-InBounds l _ _ i k (rule_hash-lt (or_else (nonempty i) k))

    of_window :
        (w : Option ℕ) (cls : Option (Option Bytes × Option Bytes))
        → InBounds (publish_window l w cls)
    of_window none cls = v
    of_window (some zero) cls = publish_and_log-InBounds l 0 _ none none (omega arith)
    of_window (some (suc w)) cls = of_class cls

x11_turn-InBounds : (l : Listener) (t : X11.Turn) → InBounds l → InBounds (x11_turn l t).0
unfolding x11_turn
x11_turn-InBounds l t v =
    if_keeps (λ (out : X11.Outcome). InBounds out.0) t.stop v
      (if_keeps (λ (out : X11.Outcome). InBounds out.0) (refreshes t.queued)
        (reply-InBounds l t.reply v) (of_select t.select))
  where
    polled : InBounds (poll l t).0
    polled = if_keeps InBounds (refreshes t.polled) (reply-InBounds l t.reply v) v

    of_select : (x : X11.Select) → InBounds (selected l t x).0
    of_select X11.eintr = v
    of_select X11.failed = v
    of_select (X11.ready none) = polled
    of_select (X11.ready (some false)) = polled
    of_select (X11.ready (some true)) = v

x11_next-InBounds :
    (loop : Listener → X11.Outcome) (out : X11.Outcome)
    → ((l : Listener) → InBounds l → InBounds (loop l).0)
    → InBounds out.0
    → InBounds (X11.next_turn loop out).0
x11_next-InBounds loop (l, false) h v = v
x11_next-InBounds loop (l, true) h v = h l v

x11_turns-InBounds : (l : Listener) (ts : List X11.Turn) → InBounds l → InBounds (x11_turns l ts).0
unfolding x11_turns
x11_turns-InBounds l [] v = v
x11_turns-InBounds l (t ∷ ts) v =
    x11_next-InBounds (λ l'. x11_turns l' ts) (x11_turn l t) (λ l' v'. x11_turns-InBounds l' ts v')
      (x11_turn-InBounds l t v)

pub x11_loop-InBounds :
    (l : Listener) (d : Bytes) (a : X11.Answers) (ts : List X11.Turn)
    → InBounds l
    → InBounds (x11_loop l d a ts).0
unfolding x11_loop watch
x11_loop-InBounds l d a ts v =
    let v' = x11_turns-InBounds (x11_publish_active l a.first) ts (reply-InBounds l a.first v) in
    if_keeps (λ (out : Listener × Bool × List X11.Request). InBounds out.0) a.connection
      (if_keeps (λ (out : Listener × Bool × List X11.Request). InBounds out.0) a.works
        (if_keeps (λ (out : Listener × Bool × List X11.Request). InBounds out.0) a.atom_ok v' v) v)
      v
