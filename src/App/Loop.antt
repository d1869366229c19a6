-- ===== src/App/Loop.antt =====
-- main.cpp: the event loop over the handlers of the daemon. The state is that of the handlers, with all
-- the writes that reached the virtual devices so far.
pub mod Stop
pub mod HeldDown
use loginext.App.{AppContext, TimeVal, Event, handle, input, timer, reload, focus, io}
use loginext.Core.Emitter.{InputEvent, Write}
use loginext.Core.EventLoop.{Client, IsLawful}
use loginext.Ipc.Server.{Accepted, ReadResult}
use loginext.Prelude.{
  ℕ, ◌≡◌, refl, subst, Bool, true, Option, none, some, ℤ, List, [], ◌∷◌, ◌++◌, Bytes,
}

-- What the listener's thread published since the last callback: the hash and the two texts.
abbrev pub Focus : Type 0
Focus = Option (ℕ × Bytes × Bytes)

abbrev pub focused : AppContext → Focus → AppContext
focused app none = app
focused app (some (hash, name, source)) = (handle app (focus hash name source)).0

abbrev pub Daemon : Type 0
Daemon = AppContext × List Write

-- A callback's event on the daemon.
abbrev pub deliver : Daemon → Event → Daemon
deliver (app, ws) e = let (app', ws') = handle app e in (app', ws ++ ws')

abbrev pub DeviceEvent : Type 0
DeviceEvent = Focus × InputEvent × TimeVal

-- What the callbacks for the timer and for the sockets meet: what was published before, whether the read
-- of the timer gives an expiry, and what `accept4` and `read` answer.
pub record IoAnswers : Type 0 where
  pub focus : Focus
  pub expired : Bool
  pub accepted : List Accepted
  pub received : ReadResult

abbrev pub Files : Type 0
Files = Option Bytes × Option Bytes

-- `g_stop`, `g_reload`, and the four callbacks that `main` passes to `run_loop`.
abbrev pub callbacks : Client Daemon DeviceEvent IoAnswers Files
callbacks = record {
  stop = λ d. d.0.stop_flag;
  reload = λ d. d.0.reload_flag;
  set_stop = λ d. (record d.0 { stop_flag = true }, d.1);
  set_reload = λ b d. (record d.0 { reload_flag = b }, d.1);
  event_cb = λ d e. deliver (focused d.0 e.0, d.1) (input e.1 e.2);
  timer_cb = λ d a. deliver d (timer a.expired);
  reload_cb = λ d files. deliver d (reload files.0 files.1);
  io_cb = some (λ d fd a. deliver (focused d.0 a.focus, d.1) (io fd a.accepted a.received));
}
