-- ===== src/Scope/Listener/Plasma.antt =====
-- scope/listener.cpp: the Plasma backend, the events of the window management protocol and
-- `kde_wayland_loop`. A window is the identity of its object; what the compositor sends and what libwayland
-- answers is an argument.
pub mod Windows
pub mod Active
pub mod Reads
use loginext.Scope.AppHash.{hash_app}
use loginext.Scope.Listener.Hyprland.{until_nul}
use loginext.Scope.Listener.Kwin.{Status, unavailable, running, ended}
use loginext.Scope.Listener.{Listener, publish_and_log}
use loginext.Prelude.{
  ℕ, ◌+◌, Bool, true, false, not, ◌&&◌, ◌||◌, if◌then◌else◌, Option, none, some, List, [], ◌∷◌,
  ◌++◌, get_or, set, replicate, take, Bytes, codes, eq_bytes,
}

abbrev pub plasma_max_windows : ℕ
plasma_max_windows = 64

-- `sizeof(app_id)` less one
abbrev pub app_id_max : ℕ
app_id_max = 127

pub record PlasmaSlot : Type 0 where
  pub owned : Bool
  pub window : Option ℕ
  pub in_use : Bool
  pub active : Bool
  pub app_id : Bytes

-- `PlasmaSlot{}`
abbrev pub blank : PlasmaSlot
blank = record { owned = false; window = none; in_use = false; active = false; app_id = [] }

-- The slots, whether the management object is bound, and the listener.
pub record PlasmaState : Type 0 where
  pub listener : Listener
  pub slots : List PlasmaSlot
  pub wm : Bool

abbrev pub init : Listener → PlasmaState
init l = record { listener = l; slots = replicate plasma_max_windows blank; wm = false }

abbrev pub slot_at : PlasmaState → ℕ → PlasmaSlot
slot_at st i = get_or st.slots i blank

abbrev pub with_slot : PlasmaState → ℕ → PlasmaSlot → PlasmaState
with_slot st i s = record st { slots = set st.slots i s }

abbrev pub app_id_hash : Bytes → ℕ
app_id_hash [] = 0
app_id_hash (c ∷ s) = hash_app (c ∷ s)

abbrev pub publish_slot : PlasmaState → PlasmaSlot → PlasmaState
publish_slot st s = record st {
  listener =
      (publish_and_log st.listener (app_id_hash s.app_id) (codes "kde-wayland") (some s.app_id)
        (some s.app_id)).0;
}

-- `app_id`, or the empty text for a null pointer.
abbrev pub text_or_empty : Option Bytes → Bytes
text_or_empty none = []
text_or_empty (some s) = until_nul s

unfoldable pub plw_app_id_changed : PlasmaState → ℕ → Option Bytes → PlasmaState
plw_app_id_changed st i app_id =
    let s = record (slot_at st i) { app_id = take app_id_max (text_or_empty app_id) } in
    if s.active then publish_slot (with_slot st i s) s else with_slot st i s

-- The flag is whether the bit of the active state is set.
unfoldable pub plw_state_changed : PlasmaState → ℕ → Bool → PlasmaState
plw_state_changed st i now_active =
    let s = record (slot_at st i) { active = now_active } in
    if (now_active && (slot_at st i).active) || (not now_active && not (slot_at st i).active)
    then st
    else if now_active
    then publish_slot (with_slot st i s) s
    else with_slot st i s

-- The second component is the windows that are destroyed.
unfoldable pub plw_unmapped : PlasmaState → ℕ → ℕ → PlasmaState × List ℕ
plw_unmapped st i win = (with_slot st i blank, win ∷ [])

-- The loop of `plasma_alloc_slot`, with `i`
unfoldable pub alloc_from : List PlasmaSlot → ℕ → Option ℕ
alloc_from [] i = none
alloc_from (s ∷ ss) i = let rest = alloc_from ss (i + 1) in if s.in_use then rest else some i

abbrev pub register_at : PlasmaState → ℕ → Option ℕ → PlasmaState × List ℕ
register_at st win none = (st, win ∷ [])
register_at st win (some i) =
    (with_slot st i (record blank { owned = true; in_use = true; window = some win }), [])

unfoldable pub plw_register_window : PlasmaState → Option ℕ → PlasmaState × List ℕ
plw_register_window st none = (st, [])
plw_register_window st (some win) = register_at st win (alloc_from st.slots 0)

-- `registry_global`: the management interface is bound once.
unfoldable pub registry_global : PlasmaState → Bytes → PlasmaState × Bool
registry_global st interface =
    if eq_bytes interface (codes "org_kde_plasma_window_management") && not st.wm
    then (record st { wm = true }, true)
    else (st, false)

-- What the compositor sends of the windows: `get_window` gives an object or none.
pub data PlasmaEvent : Type 0 where
  window : Option ℕ → PlasmaEvent
  app_id_changed : ℕ → Option Bytes → PlasmaEvent
  state_changed : ℕ → Bool → PlasmaEvent
  unmapped : ℕ → ℕ → PlasmaEvent
  ignored : PlasmaEvent

unfoldable pub on_plasma_event : PlasmaState → PlasmaEvent → PlasmaState × List ℕ
on_plasma_event st (window win) = plw_register_window st win
on_plasma_event st (app_id_changed i app_id) = (plw_app_id_changed st i app_id, [])
on_plasma_event st (state_changed i now_active) = (plw_state_changed st i now_active, [])
on_plasma_event st (unmapped i win) = plw_unmapped st i win
on_plasma_event st ignored = (st, [])

unfoldable pub on_plasma_events : PlasmaState → List PlasmaEvent → PlasmaState × List ℕ
on_plasma_events st [] = (st, [])
on_plasma_events st (e ∷ es) =
    let (st', ws) = on_plasma_event st e in
    let (st'', ws') = on_plasma_events st' es in (st'', ws ++ ws')

-- The loop over the slots at the end: the windows that are destroyed.
abbrev pub window_of : PlasmaSlot → List ℕ
window_of s = if s.in_use then (elim s.window [ none ↦ [] | some win ↦ win ∷ [] ]) else []

unfoldable pub destroy_windows : List PlasmaSlot → List ℕ
destroy_windows [] = []
destroy_windows (s ∷ ss) = window_of s ++ destroy_windows ss

pub data Request : Type 0 where
  connect disconnect get_registry destroy_registry bind_wm destroy_wm : Request
  prepare_read cancel_read read_events : Request

-- What `select` gives: EINTR, another error, or whether the display is readable, and then whether
-- `read_events` succeeds, and the flag that is loaded if the pipe is.
pub data Select : Type 0 where
  eintr failed : Select
  ready : Option Bool → Option Bool → Select

-- A turn: the flag at the test, the events dispatched until `prepare_read` succeeds, whether `flush`
-- succeeds, `select`, and the events that are dispatched behind it.
pub record Turn : Type 0 where
  pub stop : Bool
  pub pending : List PlasmaEvent
  pub flush_ok : Bool
  pub select : Select
  pub events : List PlasmaEvent

-- The state, the windows destroyed, the requests, and whether the loop goes on.
abbrev pub Outcome : Type 0
Outcome = PlasmaState × List ℕ × List Request × Bool

-- The part behind the pipe.
abbrev pub dispatched : PlasmaState → Option Bool → List PlasmaEvent → PlasmaState × List ℕ × Bool
dispatched st (some true) es = (st, [], false)
dispatched st (some false) es = let (st', ws) = on_plasma_events st es in (st', ws, true)
dispatched st none es = let (st', ws) = on_plasma_events st es in (st', ws, true)

abbrev pub after_select : PlasmaState → Select → List PlasmaEvent → Outcome
after_select st eintr es = (st, [], cancel_read ∷ [], true)
after_select st failed es = (st, [], cancel_read ∷ [], false)
after_select st (ready (some false) wake) es = (st, [], read_events ∷ [], false)
after_select st (ready (some true) wake) es =
    let (st', ws, more) = dispatched st wake es in (st', ws, read_events ∷ [], more)
after_select st (ready none wake) es =
    let (st', ws, more) = dispatched st wake es in (st', ws, cancel_read ∷ [], more)

unfoldable pub plasma_turn : PlasmaState → Turn → Outcome
plasma_turn st t =
    let (st', ws) = on_plasma_events st t.pending in
    let (st'', ws', rs, more) = after_select st' t.select t.events in
    if t.stop
    then (st, [], [], false)
    else if t.flush_ok
    then (st'', ws ++ ws', prepare_read ∷ rs, more)
    else (st', ws, prepare_read ∷ cancel_read ∷ [], false)

abbrev pub next_turn : (PlasmaState → Outcome) → Outcome → Outcome
next_turn loop (st, ws, rs, false) = (st, ws, rs, false)
next_turn loop (st, ws, rs, true) =
    let (st', ws', rs', more) = loop st in (st', ws ++ ws', rs ++ rs', more)

-- The flag is whether the loop still runs.
unfoldable pub plasma_turns : PlasmaState → List Turn → Outcome
plasma_turns st [] = (st, [], [], true)
plasma_turns st (t ∷ ts) = next_turn (λ st'. plasma_turns st' ts) (plasma_turn st t)

abbrev pub bind_request : Bool → List Request
bind_request true = bind_wm ∷ []
bind_request false = []

-- The globals that the first round trip announces
unfoldable pub registry_globals : PlasmaState → List Bytes → PlasmaState × List Request
registry_globals st [] = (st, [])
registry_globals st (name ∷ names) =
    let (st', bound) = registry_global st name in
    let (st'', rs) = registry_globals st' names in (st'', bind_request bound ++ rs)

-- Whether the display connects, what the first round trip announces, and what the second sends.
pub record Answers : Type 0 where
  pub connected : Bool
  pub interfaces : List Bytes
  pub windows : List PlasmaEvent

abbrev pub Backend : Type 0
Backend = PlasmaState × List ℕ × List Request × Status

-- The end of the loop: what is destroyed, if it does not run any more.
abbrev pub finish : Outcome → Backend
finish (st, ws, rs, true) = (st, ws, rs, running)
finish (st, ws, rs, false) = (
  st,
  ws ++ destroy_windows st.slots,
  rs ++ destroy_wm ∷ destroy_registry ∷ disconnect ∷ [],
  ended,
)

-- The part behind the first round trip
unfoldable pub run_plasma : PlasmaState → List PlasmaEvent → List Turn → Backend
run_plasma st windows ts =
    let (st', ws) = on_plasma_events st windows in
    let (st'', ws', rs, status) = finish (plasma_turns st' ts) in
    if st.wm then (st'', ws ++ ws', rs, status) else (st, [], disconnect ∷ [], unavailable)

unfoldable pub kde_wayland_loop : Listener → Answers → List Turn → Backend
kde_wayland_loop l a ts =
    let (st, bound) = registry_globals (init l) a.interfaces in
    let (st', ws, rs, status) = run_plasma st a.windows ts in
    if a.connected
    then (st', ws, connect ∷ get_registry ∷ bound ++ rs, status)
    else (init l, [], [], unavailable)
