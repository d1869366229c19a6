-- ===== src/Tests/Listener.antt =====
-- Runs of scope/listener.cpp.
use loginext.Scope.AppHash.{hash_app, hash_from, mix, to_lower}
use loginext.Scope.Listener.Hyprland.Buffer.{hypr_read_split}
use loginext.Scope.Listener.Hyprland.Lines.{on_line-Publishes}
use loginext.Scope.Listener.Hyprland.{tag, on_line, drain_lines, hypr_read}
use loginext.Scope.Listener.Kwin as Kwin
use loginext.Scope.Listener.Kwin.Deadline.{select_timeout_zero}
use loginext.Scope.Listener.Kwin.Released as Released
use loginext.Scope.Listener.Kwin.Released.{kwin_dbus_loop-after}
use loginext.Scope.Listener.Kwin.{
  start_state, check_warning, select_timeout, tvp_zero, kwin_dbus_loop, activated, deadline,
  KwinState,
}
use loginext.Scope.Listener.Plasma.Windows.{count, all_created, AreSent, on_plasma_events_balanced}
use loginext.Scope.Listener.Plasma.{
  PlasmaEvent, init, window, app_id_changed, state_changed, unmapped, on_plasma_events,
  on_plasma_event, plw_register_window, alloc_from, plw_app_id_changed, plw_state_changed,
  destroy_windows,
}
use loginext.Scope.Listener.Published.{Publishes}
use loginext.Scope.Listener.Thread.Bounds.{InBounds}
use loginext.Scope.Listener.Thread.Display.{IsAnswer, probe_x11_display-IsAnswer}
use loginext.Scope.Listener.Thread.Whole.{thread_main-InBounds}
use loginext.Scope.Listener.Thread.{
  Attempt, thread_main, probe_x11_display, probe_displays, candidates,
}
use loginext.Scope.Listener.X11 as X11
use loginext.Scope.Listener.X11.Active.{Follows, focus_of, x11_publish_active-Follows}
use loginext.Scope.Listener.X11.{x11_publish_active}
use loginext.Scope.Listener.{fresh, publish_and_log}
use loginext.Env.{Env, nonempty}
use loginext.Prelude.{
  after, ◌≤◌, ◌≡◌, refl, true, false, none, some, pos, negsuc, List, [], ◌∷◌, ◌++◌, replicate,
  codes, eq_bytes, arith,
}

on_line-Publishes_example :
    Publishes
      (codes "hyprland")
      (codes "firefox")
      (on_line fresh (tag ++ (codes "firefox" ++ b',' ∷ codes "A page")))
on_line-Publishes_example = on_line-Publishes fresh (codes "firefox") (codes "A page") refl

hypr_read_split_example :
    (let (l, buf) = hypr_read fresh (codes "active") (codes "window>>kitty,sh\nwork") in
      hypr_read l buf (codes "space>>2\n"))
    ≡ hypr_read fresh (codes "active") (codes "window>>kitty,sh\nwork" ++ codes "space>>2\n")
hypr_read_split_example =
    hypr_read_split fresh (codes "active") (codes "window>>kitty,sh\nwork") (codes "space>>2\n")
      (omega arith)

-- The end of a line that did not fit is read as a line of its own.
tail_published :
    let (l, buf) = hypr_read fresh [] (replicate 1024 b'x') in
    (hypr_read l buf (codes "activewindow>>evil,\n")).0.intro_name ≡ codes "evil"
unfolding hypr_read drain_lines on_line publish_and_log hash_app hash_from mix to_lower
tail_published = refl

-- One second after the bind, at a deadline of sd-bus that is now.
at_once :
    tvp_zero (
      select_timeout
        (check_warning (start_state fresh) 4_000_000 5_000_000).warned
        4_000_000
        5_000_000
        5_000_000)
    ≡ true
unfolding select_timeout check_warning deadline
at_once = refl

select_timeout_zero_example : 5_000_000 ≤ 5_000_000
select_timeout_zero_example =
    select_timeout_zero (start_state fresh) 4_000_000 5_000_000 5_000_000 (omega arith)
      (omega arith) at_once

abbrev env : Env
env = record {
  xdg_runtime_dir = some (codes "/run/user/1000");
  xdg_config_home = none;
  xdg_state_home = some (codes "/home/u/.state");
  home = some (codes "/home/u");
  sudo_uid = none;
  sudo_gid = none;
  display = some (codes ":0");
  hyprland = none;
  uid = 1000;
  home_of = λ n. none;
}

-- The script runs; then one call comes, and the thread is to stop.
abbrev kwin : Kwin.Answers
kwin = record {
  bus_made = true;
  open_ok = true;
  vtable_ok = true;
  name_ok = true;
  pid = 42;
  boot = record { opened = true; script_id = pos 3; run_ok = true };
  fd_ok = true;
  bind = 1_000;
}

abbrev kwin_turn : Kwin.Turn
kwin_turn = record {
  stop = false;
  processed = activated (some (codes "firefox")) (some (codes "navigator")) ∷ [];
  stop_processed = false;
  events_ok = true;
  bus_deadline = some 2_000;
  now = 1_500;
  select = Kwin.ready (some true);
}

kwin_dbus_loop-after_example :
    let (st, status, es) = kwin_dbus_loop env fresh kwin (kwin_turn ∷ []) in
    after Released.apply es Released.nothing ≡ some (Released.held status)
kwin_dbus_loop-after_example = kwin_dbus_loop-after env fresh kwin (kwin_turn ∷ [])

-- Two windows, of which the first gets its id, becomes active and is closed.
abbrev windows : List PlasmaEvent
windows =
    window (some 11)
    ∷ window (some 12)
    ∷ app_id_changed 0 (some (codes "kate"))
    ∷ state_changed 0 true
    ∷ unmapped 0 11
    ∷ []

windows-AreSent : AreSent (init fresh) windows
unfolding on_plasma_event plw_register_window alloc_from plw_app_id_changed plw_state_changed
windows-AreSent = (tt, (tt, (tt, (tt, (refl, tt)))))

on_plasma_events_balanced_example :
    let (st, gone) = on_plasma_events (init fresh) windows in
    count 12 (gone ++ destroy_windows st.slots)
    ≡ count 12 (all_created windows ++ destroy_windows (init fresh).slots)
on_plasma_events_balanced_example =
    on_plasma_events_balanced 12 (init fresh) windows windows-AreSent

abbrev reply : X11.Reply
reply = record { active = some 77; wm_class = some (some [], some (codes "XTerm")) }

x11_publish_active-Follows_example :
    Follows fresh (focus_of reply.active reply.wm_class) (x11_publish_active fresh reply)
x11_publish_active-Follows_example = x11_publish_active-Follows fresh reply

probe_x11_display-IsAnswer_example :
    IsAnswer
      (eq_bytes (codes ":0"))
      (candidates (nonempty env.display))
      (probe_x11_display env (eq_bytes (codes ":0")))
probe_x11_display-IsAnswer_example =
    probe_x11_display-IsAnswer env (eq_bytes (codes ":0")) (omega arith)

-- A display with a longer name works, and another text is returned.
long_display_cut :
    probe_x11_display
      (record env { display = some (codes "host:10.0") })
      (eq_bytes (codes "host:10.0"))
    ≡ some (codes "host:10")
unfolding probe_x11_display probe_displays
long_display_cut = refl

-- KWin answers, and the thread is in its backend.
abbrev try : Attempt
try = record {
  stop = false;
  hypr_fd = negsuc 0;
  hypr_ok = false;
  hypr_turns = [];
  bus_opened = true;
  bus_replied = true;
  has_kwin = true;
  kwin = kwin;
  kwin_turns = kwin_turn ∷ [];
  is_socket = λ s. false;
  plasma = record { connected = false; interfaces = []; windows = [] };
  plasma_turns = [];
  works = λ s. false;
  x11 = record { connection = false; works = false; atom_ok = false; first = reply };
  x11_turns = [];
  woken = none;
}

fresh-InBounds : InBounds fresh
fresh-InBounds = record { hash = omega arith; name = omega arith; source = omega arith }

thread_main-InBounds_example : InBounds (thread_main env (try ∷ []) [] fresh).0
thread_main-InBounds_example = thread_main-InBounds env (try ∷ []) [] fresh fresh-InBounds
