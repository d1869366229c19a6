-- ===== src/Scope/Listener/Thread/Whole.antt =====
-- The bounds of the published focus over the whole of `thread_main`.
use loginext.Env.{Env, nonempty}
use loginext.Scope.Listener.Hyprland as Hyprland
use loginext.Scope.Listener.Kwin as Kwin
use loginext.Scope.Listener.Kwin.{Status, unavailable, running, ended}
use loginext.Scope.Listener.Plasma as Plasma
use loginext.Scope.Listener.Thread.Backends.{kwin_dbus_loop-InBounds, x11_loop-InBounds}
use loginext.Scope.Listener.Thread.Bounds.{InBounds, hypr_loop-InBounds}
use loginext.Scope.Listener.Thread.PlasmaBounds.{kde_wayland_loop-InBounds}
use loginext.Scope.Listener.Thread.{
  Attempt, Tried, stopped, ran, retry, slept, try_x11, after_plasma, try_wayland, after_kwin,
  try_kwin, try_hyprland, attempt, IdleRead, Place, next_attempt, attempts, thread_main,
  probe_x11_display, probe_kwin_on_bus, probe_wayland_socket, hyprland, x11,
}
use loginext.Scope.Listener.X11 as X11
use loginext.Scope.Listener.{Listener}
use loginext.Prelude.{
  ℕ, zero, suc, Bool, true, false, if◌then◌else◌, Option, none, some, is_negative, List, [], ◌∷◌,
  Bytes, if_keeps,
}

abbrev TriedIn : Tried → Type 0
TriedIn (stopped l) = InBounds l
TriedIn (ran b l) = InBounds l
TriedIn (retry l) = InBounds l

module _ (env : Env) (a : Attempt) where
  slept-TriedIn : (l : Listener) (o : Option Bool) → InBounds l → TriedIn (slept l o)
  slept-TriedIn l none v = v
  slept-TriedIn l (some true) v = v
  slept-TriedIn l (some false) v = v

  try_x11-TriedIn : (l : Listener) → InBounds l → TriedIn (try_x11 env a l)
  try_x11-TriedIn l v = of_display (probe_x11_display env a.works)
    where
      of_display :
          (o : Option Bytes)
          → TriedIn (elim o as (λ _. Tried) [
            | none ↦ slept l a.woken
            | some display ↦ ran x11 (X11.x11_loop l display a.x11 a.x11_turns).0
          ])
      of_display none = slept-TriedIn l a.woken v
      of_display (some d) = x11_loop-InBounds l d a.x11 a.x11_turns v

  after_plasma-TriedIn :
      (out : Plasma.Backend) → InBounds out.0.listener → TriedIn (after_plasma env a out)
  after_plasma-TriedIn (st, ws, rs, unavailable) v = try_x11-TriedIn st.listener v
  after_plasma-TriedIn (st, ws, rs, running) v = v
  after_plasma-TriedIn (st, ws, rs, ended) v = v

  try_wayland-TriedIn : (l : Listener) → InBounds l → TriedIn (try_wayland env a l)
  unfolding try_wayland
  try_wayland-TriedIn l v =
      if_keeps TriedIn (probe_wayland_socket env a.is_socket)
        (after_plasma-TriedIn (Plasma.kde_wayland_loop l a.plasma a.plasma_turns)
          (kde_wayland_loop-InBounds l a.plasma a.plasma_turns v))
        (try_x11-TriedIn l v)

  after_kwin-TriedIn :
      (out : Kwin.KwinState × Status × List Kwin.Request)
      → InBounds out.0.listener
      → TriedIn (after_kwin env a out)
  after_kwin-TriedIn (st, unavailable, rs) v = try_wayland-TriedIn st.listener v
  after_kwin-TriedIn (st, running, rs) v = v
  after_kwin-TriedIn (st, ended, rs) v = v

  try_kwin-TriedIn : (l : Listener) → InBounds l → TriedIn (try_kwin env a l)
  unfolding try_kwin
  try_kwin-TriedIn l v =
      if_keeps TriedIn (probe_kwin_on_bus a.bus_opened a.bus_replied a.has_kwin)
        (after_kwin-TriedIn (Kwin.kwin_dbus_loop env l a.kwin a.kwin_turns)
          (kwin_dbus_loop-InBounds env l a.kwin a.kwin_turns v))
        (try_wayland-TriedIn l v)

  attempt-TriedIn : (l : Listener) → InBounds l → TriedIn (attempt env a l)
  unfolding attempt try_hyprland
  attempt-TriedIn l v = if_keeps TriedIn a.stop v (of_hyprland (nonempty env.hyprland))
    where
      of_hyprland :
          (o : Option Bytes)
          → TriedIn (elim o as (λ _. Tried) [
            | none ↦ try_kwin env a l
            | some his ↦
                if is_negative (Hyprland.hypr_connect his a.hypr_fd a.hypr_ok).0
                then try_kwin env a l
                else ran hyprland (Hyprland.hypr_loop l [] a.hypr_turns).0
          ])
      of_hyprland none = try_kwin-TriedIn l v
      of_hyprland (some his) =
          if_keeps TriedIn (is_negative (Hyprland.hypr_connect his a.hypr_fd a.hypr_ok).0)
            (try_kwin-TriedIn l v) (hypr_loop-InBounds l [] a.hypr_turns v)

next_attempt-InBounds :
    (rest : Listener → Listener × Place) (t : Tried)
    → ((l : Listener) → InBounds l → InBounds (rest l).0)
    → TriedIn t
    → InBounds (next_attempt rest t).0
next_attempt-InBounds rest (stopped l) h v = v
next_attempt-InBounds rest (ran b l) h v = v
next_attempt-InBounds rest (retry l) h v = h l v

attempts-InBounds :
    (env : Env) (left : ℕ) (tries : List Attempt) (idles : List (Bool × IdleRead)) (l : Listener)
    → InBounds l
    → InBounds (attempts env left tries idles l).0
unfolding attempts
attempts-InBounds env zero tries idles l v = v
attempts-InBounds env (suc left) [] idles l v = v
attempts-InBounds env (suc left) (a ∷ tries) idles l v =
    next_attempt-InBounds (λ l'. attempts env left tries idles l') (attempt env a l)
      (λ l' v'. attempts-InBounds env left tries idles l' v') (attempt-TriedIn env a l v)

-- Whichever backends the thread runs and whatever the compositors send: the published hash is a number
-- of 32 bits, and the published name and source have at most 127 and 15 bytes.
pub thread_main-InBounds :
    (env : Env) (tries : List Attempt) (idles : List (Bool × IdleRead)) (l : Listener)
    → InBounds l
    → InBounds (thread_main env tries idles l).0
unfolding thread_main
thread_main-InBounds env tries idles l v = attempts-InBounds env 30 tries idles l v
