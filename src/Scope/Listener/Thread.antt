-- ===== src/Scope/Listener/Thread.antt =====
-- scope/listener.cpp: the probes and `thread_main`, which tries the backends in their order. The answers
-- that each attempt meets are an argument.
pub mod Display
pub mod Stops
pub mod Bounds
pub mod Backends
pub mod PlasmaBounds
pub mod Whole
use loginext.Env.{Env, nonempty, fits, decimal}
use loginext.Scope.Listener.Hyprland as Hyprland
use loginext.Scope.Listener.Kwin as Kwin
use loginext.Scope.Listener.Kwin.{Status, unavailable, running, ended}
use loginext.Scope.Listener.Plasma as Plasma
use loginext.Scope.Listener.X11 as X11
use loginext.Scope.Listener.{Listener}
use loginext.Prelude.{
  ℕ, zero, suc, ◌+◌, Bool, true, false, not, ◌&&◌, ◌||◌, if◌then◌else◌, Option, none, some, ℤ,
  is_negative, List, [], ◌∷◌, ◌++◌, take, Bytes, codes,
}

-- Whether the bus opens, whether the call gives a reply, and what it says.
unfoldable pub probe_kwin_on_bus : Bool → Bool → Bool → Bool
probe_kwin_on_bus opened replied has = opened && (replied && has)

-- The loop over `wayland-0` to `wayland-3`, with those left and `n`. `is_socket` is what `stat` says.
unfoldable pub probe_sockets : (Bytes → Bool) → Bytes → ℕ → ℕ → Bool
probe_sockets is_socket runtime zero n = false
probe_sockets is_socket runtime (suc left) n =
    let path = runtime ++ codes "/wayland-" ++ decimal n in
    let rest = probe_sockets is_socket runtime left (n + 1) in
    if fits 256 path then if is_socket path then true else rest else rest

unfoldable pub probe_wayland_socket : Env → (Bytes → Bool) → Bool
probe_wayland_socket env is_socket = elim (nonempty env.xdg_runtime_dir) [
  | none ↦ false
  | some runtime ↦ probe_sockets is_socket runtime 4 0
]

abbrev pub candidates : Option Bytes → List Bytes
candidates none = codes ":0" ∷ codes ":1" ∷ []
candidates (some env) = env ∷ codes ":0" ∷ codes ":1" ∷ []

-- `sizeof(chosen)` less one
abbrev pub chosen_max : ℕ
chosen_max = 7

-- The loop over the candidates; `works` is whether `xcb_connect` gives a connection without error.
unfoldable pub probe_displays : (Bytes → Bool) → List Bytes → Option Bytes
probe_displays works [] = none
probe_displays works (d ∷ ds) =
    let rest = probe_displays works ds in if works d then some (take chosen_max d) else rest

unfoldable pub probe_x11_display : Env → (Bytes → Bool) → Option Bytes
probe_x11_display env works = probe_displays works (candidates (nonempty env.display))

-- What an attempt meets: the flag at its start, what `socket` and `connect` give for Hyprland, the
-- answers to the probes and to the backends, and after the sleep the flag, if the pipe is readable.
pub record Attempt : Type 0 where
  pub stop : Bool
  pub hypr_fd : ℤ
  pub hypr_ok : Bool
  pub hypr_turns : List Hyprland.Turn
  pub bus_opened : Bool
  pub bus_replied : Bool
  pub has_kwin : Bool
  pub kwin : Kwin.Answers
  pub kwin_turns : List Kwin.Turn
  pub is_socket : Bytes → Bool
  pub plasma : Plasma.Answers
  pub plasma_turns : List Plasma.Turn
  pub works : Bytes → Bool
  pub x11 : X11.Answers
  pub x11_turns : List X11.Turn
  pub woken : Option Bool

pub data Backend : Type 0 where
  hyprland kwin_dbus kde_wayland x11 : Backend

-- How an attempt ends: the thread returns before or after its probes since it is to stop, a backend has
-- run or runs, or the next attempt is due.
pub data Tried : Type 0 where
  stopped : Listener → Tried
  ran : Backend → Listener → Tried
  retry : Listener → Tried

abbrev pub slept : Listener → Option Bool → Tried
slept l (some true) = stopped l
slept l (some false) = retry l
slept l none = retry l

abbrev pub try_x11 : Env → Attempt → Listener → Tried
try_x11 env a l = elim (probe_x11_display env a.works) [
  | none ↦ slept l a.woken
  | some display ↦ ran x11 (X11.x11_loop l display a.x11 a.x11_turns).0
]

abbrev pub after_plasma : Env → Attempt → Plasma.Backend → Tried
after_plasma env a (st, ws, rs, unavailable) = try_x11 env a st.listener
after_plasma env a (st, ws, rs, running) = ran kde_wayland st.listener
after_plasma env a (st, ws, rs, ended) = ran kde_wayland st.listener

unfoldable pub try_wayland : Env → Attempt → Listener → Tried
try_wayland env a l =
    if probe_wayland_socket env a.is_socket
    then after_plasma env a (Plasma.kde_wayland_loop l a.plasma a.plasma_turns)
    else try_x11 env a l

abbrev pub after_kwin : Env → Attempt → Kwin.KwinState × Status × List Kwin.Request → Tried
after_kwin env a (st, unavailable, rs) = try_wayland env a st.listener
after_kwin env a (st, running, rs) = ran kwin_dbus st.listener
after_kwin env a (st, ended, rs) = ran kwin_dbus st.listener

unfoldable pub try_kwin : Env → Attempt → Listener → Tried
try_kwin env a l =
    if probe_kwin_on_bus a.bus_opened a.bus_replied a.has_kwin
    then after_kwin env a (Kwin.kwin_dbus_loop env l a.kwin a.kwin_turns)
    else try_wayland env a l

unfoldable pub try_hyprland : Env → Attempt → Listener → Tried
try_hyprland env a l = elim (nonempty env.hyprland) [
  | none ↦ try_kwin env a l
  | some his ↦
      if is_negative (Hyprland.hypr_connect his a.hypr_fd a.hypr_ok).0
      then try_kwin env a l
      else ran hyprland (Hyprland.hypr_loop l [] a.hypr_turns).0
]

unfoldable pub attempt : Env → Attempt → Listener → Tried
attempt env a l = if a.stop then stopped l else try_hyprland env a l

-- What `read` on the pipe gives: a byte, EINTR, or another error.
pub data IdleRead : Type 0 where
  byte eintr failed : IdleRead

-- The loop at the end, over the flag and what `read` gives; true while the thread is in it.
unfoldable pub idle : List (Bool × IdleRead) → Bool
idle [] = true
idle ((true, r) ∷ rs) = false
idle ((false, byte) ∷ rs) = idle rs
idle ((false, eintr) ∷ rs) = idle rs
idle ((false, failed) ∷ rs) = false

-- Where the thread is: it polls, it idles after the last attempt or has left that loop, it returned
-- since it was to stop, or a backend runs or ran.
pub data Place : Type 0 where
  polling returned : Place
  idling : Bool → Place
  in_backend : Backend → Place

abbrev pub probe_max_attempts : ℕ
probe_max_attempts = 30

abbrev pub next_attempt : (Listener → Listener × Place) → Tried → Listener × Place
next_attempt rest (stopped l) = (l, returned)
next_attempt rest (ran b l) = (l, in_backend b)
next_attempt rest (retry l) = rest l

-- The loop of attempts, with those left
unfoldable pub attempts :
    Env → ℕ → List Attempt → List (Bool × IdleRead) → Listener → Listener × Place
attempts env zero tries idles l = (l, idling (idle idles))
attempts env (suc left) [] idles l = (l, polling)
attempts env (suc left) (a ∷ tries) idles l =
    next_attempt (λ l'. attempts env left tries idles l') (attempt env a l)

unfoldable pub thread_main :
    Env → List Attempt → List (Bool × IdleRead) → Listener → Listener × Place
thread_main env tries idles l = attempts env probe_max_attempts tries idles l
