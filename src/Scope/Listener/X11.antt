-- ===== src/Scope/Listener/X11.antt =====
-- scope/listener.cpp: the X11 backend, `x11_publish_active` and `x11_loop`. What the X server answers is an
-- argument.
pub mod Active
use loginext.Env.{nonempty}
use loginext.Scope.AppHash.{hash_app}
use loginext.Scope.Listener.Kwin.{or_else, rule_hash}
use loginext.Scope.Listener.{Listener, publish_and_log}
use loginext.Prelude.{
  ℕ, zero, suc, Bool, true, false, ◌||◌, if◌then◌else◌, Option, none, some, List, [], ◌∷◌, Bytes,
  codes,
}

-- The reply for the active window (none for an error or no reply, 0 for no window), and the instance and
-- the class of that window, if it has them.
pub record Reply : Type 0 where
  pub active : Option ℕ
  pub wm_class : Option (Option Bytes × Option Bytes)

abbrev pub publish_class : Listener → Option (Option Bytes × Option Bytes) → Listener
publish_class l none = (publish_and_log l 0 (codes "x11:no_wm_class") none none).0
publish_class l (some (instance_name, class_name)) =
    (publish_and_log l (rule_hash (or_else (nonempty instance_name) class_name)) (codes "x11")
      instance_name class_name).0

abbrev pub publish_window : Listener → Option ℕ → Option (Option Bytes × Option Bytes) → Listener
publish_window l none cls = l
publish_window l (some zero) cls = (publish_and_log l 0 (codes "x11:no_active") none none).0
publish_window l (some (suc w)) cls = publish_class l cls

unfoldable pub x11_publish_active : Listener → Reply → Listener
x11_publish_active l r = publish_window l r.active r.wm_class

-- Whether an event is a change of the property on the root window, for a list of events.
abbrev pub refreshes : List Bool → Bool
refreshes [] = false
refreshes (e ∷ es) = e || refreshes es

-- EINTR, another error, or a return, with the flag that is loaded if the pipe is readable.
pub data Select : Type 0 where
  eintr failed : Select
  ready : Option Bool → Select

-- A turn: the flag at the test, the events in the queue, the reply to the refresh, `select`, the events
-- that are polled behind it, and whether the connection has an error.
pub record Turn : Type 0 where
  pub stop : Bool
  pub queued : List Bool
  pub reply : Reply
  pub select : Select
  pub polled : List Bool
  pub has_error : Bool

-- The listener, and whether the loop goes on.
abbrev pub Outcome : Type 0
Outcome = Listener × Bool

abbrev pub poll : Listener → Turn → Outcome
poll l t = (
  if refreshes t.polled then x11_publish_active l t.reply else l,
  if t.has_error then false else true,
)

abbrev pub selected : Listener → Turn → Select → Outcome
selected l t eintr = (l, true)
selected l t failed = (l, false)
selected l t (ready none) = poll l t
selected l t (ready (some false)) = poll l t
selected l t (ready (some true)) = (l, false)

unfoldable pub x11_turn : Listener → Turn → Outcome
x11_turn l t =
    if t.stop
    then (l, false)
    else if refreshes t.queued
    then (x11_publish_active l t.reply, true)
    else selected l t t.select

abbrev pub next_turn : (Listener → Outcome) → Outcome → Outcome
next_turn loop (l, false) = (l, false)
next_turn loop (l, true) = loop l

unfoldable pub x11_turns : Listener → List Turn → Outcome
x11_turns l [] = (l, true)
x11_turns l (t ∷ ts) = next_turn (λ l'. x11_turns l' ts) (x11_turn l t)

-- Whether `xcb_connect` gives a connection, whether it works, whether the atom is there, and the reply
-- to the first request.
pub record Answers : Type 0 where
  pub connection : Bool
  pub works : Bool
  pub atom_ok : Bool
  pub first : Reply

pub data Request : Type 0 where
  connect : Bytes → Request
  disconnect : Request

-- The part behind the connection; the flag is whether the loop still runs.
unfoldable pub watch : Listener → Bytes → Answers → List Turn → Listener × Bool × List Request
watch l display a ts =
    let (l', runs) = x11_turns (x11_publish_active l a.first) ts in
    if a.atom_ok
    then (l', runs, if runs then connect display ∷ [] else connect display ∷ disconnect ∷ [])
    else (l, false, connect display ∷ disconnect ∷ [])

unfoldable pub x11_loop : Listener → Bytes → Answers → List Turn → Listener × Bool × List Request
x11_loop l display a ts =
    let refused : List Request = if a.connection then connect display ∷ disconnect ∷ [] else [] in
    let watched = watch l display a ts in
    if a.connection then if a.works then watched else (l, false, refused) else (l, false, refused)
