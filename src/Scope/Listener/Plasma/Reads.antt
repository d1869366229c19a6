-- ===== src/Scope/Listener/Plasma/Reads.antt =====
-- What the Plasma backend holds of libwayland.
use loginext.Scope.Listener.Kwin.{Status, unavailable, running, ended}
use loginext.Scope.Listener.Plasma.{
  PlasmaState, init, registry_global, registry_globals, bind_request, Request, connect, disconnect,
  get_registry, destroy_registry, bind_wm, destroy_wm, prepare_read, cancel_read, read_events,
  Select, Turn, Outcome, after_select, plasma_turn, next_turn, plasma_turns, Answers, Backend,
  finish, run_plasma, kde_wayland_loop, eintr, failed, ready, on_plasma_events, PlasmaEvent,
}
use loginext.Scope.Listener.{Listener}
use loginext.Prelude.{
  after, after-append, when, ℕ, ◌≡◌, refl, ◌∙◌, Bool, true, false, not, ◌&&◌, if◌then◌else◌, Option,
  none, some, List, [], ◌∷◌, ◌++◌, Bytes, codes, eq_bytes, if_cases, if_keeps, arith,
}

-- The display, the registry, the management object, and whether a read is prepared.
pub record Held : Type 0 where
  pub display : Bool
  pub registry : Bool
  pub wm : Bool
  pub prepared : Bool

abbrev pub nothing : Held
nothing = record { display = false; registry = false; wm = false; prepared = false }

abbrev pub online : Held
online = record { display = true; registry = true; wm = true; prepared = false }

-- A request is refused when it takes what is held, or uses or gives back what is not.
abbrev pub apply : Request → Held → Option Held
apply connect h = when (not h.display) (record h { display = true })
apply disconnect h = when (h.display && not h.prepared) (record h { display = false })
apply get_registry h = when (h.display && not h.registry) (record h { registry = true })
apply destroy_registry h = when (h.display && h.registry) (record h { registry = false })
apply bind_wm h = when (h.registry && not h.wm) (record h { wm = true })
apply destroy_wm h = when (h.display && h.wm) (record h { wm = false })
apply prepare_read h = when (h.display && not h.prepared) (record h { prepared = true })
apply cancel_read h = when (h.display && h.prepared) (record h { prepared = false })
apply read_events h = when (h.display && h.prepared) (record h { prepared = false })

-- From some holdings, an outcome leaves what it says.
abbrev Turned : Outcome → Type 0
Turned out = after apply out.2 online ≡ some online

after_select-Turned :
    (st : PlasmaState) (x : Select) (es : List PlasmaEvent) (ws : List ℕ)
    → let out = after_select st x es in Turned (out.0, ws, prepare_read ∷ out.2, out.3)
after_select-Turned st eintr es ws = refl
after_select-Turned st failed es ws = refl
after_select-Turned st (ready none wake) es ws = refl
after_select-Turned st (ready (some true) wake) es ws = refl
after_select-Turned st (ready (some false) wake) es ws = refl

plasma_turn-Turned : (st : PlasmaState) (t : Turn) → Turned (plasma_turn st t)
unfolding plasma_turn
plasma_turn-Turned st t =
    let (st', ws) = on_plasma_events st t.pending in
    if_keeps Turned t.stop refl (
      if_keeps Turned t.flush_ok
        (after_select-Turned st' t.select t.events (ws ++ (after_select st' t.select t.events).1))
        refl)

next_turn-Turned :
    (loop : PlasmaState → Outcome) (out : Outcome)
    → ((st : PlasmaState) → Turned (loop st))
    → Turned out
    → Turned (next_turn loop out)
next_turn-Turned loop (st, ws, rs, false) h e = e
next_turn-Turned loop (st, ws, rs, true) h e =
    after-append apply rs (loop st).2 online online e ∙ h st

plasma_turns-Turned : (st : PlasmaState) (ts : List Turn) → Turned (plasma_turns st ts)
unfolding plasma_turns
plasma_turns-Turned st [] = refl
plasma_turns-Turned st (t ∷ ts) =
    next_turn-Turned (λ st'. plasma_turns st' ts) (plasma_turn st t)
      (λ st'. plasma_turns-Turned st' ts) (plasma_turn-Turned st t)

-- What is held for each status, where a compositor without the protocol leaves the registry.
abbrev pub held : Bool → Status → Held
held connected unavailable = record nothing { registry = connected }
held connected running = online
held connected ended = nothing

abbrev Ends : Held → Backend → Type 0
Ends h (st, ws, rs, status) = after apply rs h ≡ some (held true status)

finish-Ends : (out : Outcome) → Turned out → Ends online (finish out)
finish-Ends (st, ws, rs, true) e = e
finish-Ends (st, ws, rs, false) e =
    after-append apply rs (destroy_wm ∷ destroy_registry ∷ disconnect ∷ []) online online e

-- The display and its registry, with the management object or not.
abbrev listed : Bool → Held
listed wm = record online { wm = wm }

run_plasma-Ends :
    (st : PlasmaState) (windows : List PlasmaEvent) (ts : List Turn)
    → Ends (listed st.wm) (run_plasma st windows ts)
unfolding run_plasma
run_plasma-Ends st windows ts = of_wm st.wm
  where
    of_wm :
        (b : Bool)
        → Ends (listed b) (
            let (st', ws) = on_plasma_events st windows in
            let (st'', ws', rs, status) = finish (plasma_turns st' ts) in
            if b then (st'', ws ++ ws', rs, status) else (st, [], disconnect ∷ [], unavailable))
    of_wm true =
        finish-Ends (plasma_turns (on_plasma_events st windows).0 ts)
          (plasma_turns-Turned (on_plasma_events st windows).0 ts)
    of_wm false = refl

-- A global binds the object only if it is not bound.
registry_global-after :
    (st : PlasmaState) (name : Bytes)
    → let (st', bound) = registry_global st name in
      after apply (bind_request bound) (listed st.wm) ≡ some (listed st'.wm)
unfolding registry_global
registry_global-after st name =
    if_cases
      (λ (out : PlasmaState × Bool).
        after apply (bind_request out.1) (listed st.wm) ≡ some (listed out.0.wm))
      (eq_bytes name (codes "org_kde_plasma_window_management") && not st.wm)
      {x = (record st { wm = true }, true)} {y = (st, false)} (λ e. unbound st.wm (ground arith))
      (λ e. refl)
  where
    unbound : (b : Bool) → b ≡ false → after apply (bind_wm ∷ []) (listed b) ≡ some online
    unbound b e = rw e refl

registry_globals-after :
    (st : PlasmaState) (names : List Bytes)
    → let (st', rs) = registry_globals st names in
      after apply rs (listed st.wm) ≡ some (listed st'.wm)
unfolding registry_globals
registry_globals-after st [] = refl
registry_globals-after st (name ∷ names) =
    let (st', bound) = registry_global st name in
    after-append apply (bind_request bound) (registry_globals st' names).1 (listed st.wm)
      (listed st'.wm) (registry_global-after st name)
    ∙ registry_globals-after st' names

-- Whatever the compositor announces and sends and libwayland answers: the backend never takes what it
-- has, nor uses or gives back what it does not have, and every prepared read is read or cancelled
-- once. While it runs it holds the display, the registry and the management object; when its loop
-- has ended it holds nothing; and when the compositor does not have the protocol, the display
-- is closed but the registry object is not destroyed.
pub kde_wayland_loop-after :
    (l : Listener) (a : Answers) (ts : List Turn)
    → let (st, ws, rs, status) = kde_wayland_loop l a ts in
      after apply rs nothing ≡ some (held a.connected status)
unfolding kde_wayland_loop
kde_wayland_loop-after l a ts =
    let (st, bound) = registry_globals (init l) a.interfaces in
    let (st', ws, rs, status) = run_plasma st a.windows ts in
    of_connected a.connected (
      after-append apply bound rs (listed false) (listed st.wm)
        (registry_globals-after (init l) a.interfaces)
      ∙ run_plasma-Ends st a.windows ts)
  where
    of_connected :
        (b : Bool)
        → (let (st, bound) = registry_globals (init l) a.interfaces in
            let (st', ws, rs, status) = run_plasma st a.windows ts in
            after apply (bound ++ rs) (listed false) ≡ some (held true status))
        → (let (st, bound) = registry_globals (init l) a.interfaces in
            let (st', ws, rs, status) = run_plasma st a.windows ts in
            let out : Backend =
              if b
              then (st', ws, connect ∷ get_registry ∷ bound ++ rs, status)
              else (init l, [], [], unavailable) in
            after apply out.2 nothing ≡ some (held b out.3))
    of_connected true e = e
    of_connected false e = refl
