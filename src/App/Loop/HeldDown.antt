-- ===== src/App/Loop/HeldDown.antt =====
-- The daemon of main.cpp over everything that the kernel and libevdev may answer.
use loginext.App.Inv.{IsValid, handle-IsValid}
use loginext.App.Loop.Stop.{event-stop, timer-stop, io-stop}
use loginext.App.Loop.{Focus, focused, Daemon, deliver, DeviceEvent, IoAnswers, Files, callbacks}
use loginext.App.Safety.{held, handle-HeldDown}
use loginext.App.{AppContext, Event, handle, input, timer, reload, focus, io}
use loginext.Core.Emitter.Keys.{all_up, apply_writes}
use loginext.Core.Emitter.Lands.{Always, Always-none, Always-append, Lands}
use loginext.Core.Emitter.{Write}
use loginext.Core.EventLoop.Keeps.{Keeps, run_loop_keeps}
use loginext.Core.EventLoop.{EventLoop, IsLawful, Round, run_loop}
use loginext.Core.Player.{HeldDown}
use mathlib.Core.Option.{some-injective}
use loginext.Prelude.{◌≡◌, refl, subst, Bool, true, false, none, some, ℤ, List, []}

focused-stop :
    (app : AppContext) (f : Focus) → app.stop_flag ≡ true → (focused app f).stop_flag ≡ true
unfolding handle
focused-stop app none e = e
focused-stop app (some f) e = e

-- The daemon's callbacks do not lower the flag that stops the loop.
pub callbacks-IsLawful : IsLawful callbacks
callbacks-IsLawful = record {
  stop_set = λ d. refl;
  reload_set = λ b d. refl;
  stop-set_stop = λ d e. refl;
  stop-set_reload = λ b d. refl;
  stop-event_cb = λ d ev e. event-stop (focused d.0 ev.0) ev.1 ev.2 (focused-stop d.0 ev.0 e);
  stop-timer_cb = λ d a e. timer-stop d.0 a.expired e;
  stop-io_cb = λ f d fd a is e.
      subst (λ (g : Daemon → ℤ → IoAnswers → Daemon). (g d fd a).0.stop_flag ≡ true)
        (some-injective _ _ is)
        (io-stop (focused d.0 a.focus) fd a.accepted a.received (focused-stop d.0 a.focus e));
}

-- The state is valid, and the keys that are down after the writes that landed are those that the pacer
-- holds.
pub record IsSafe (d : Daemon) (landed : List Write) : Type 0 where
  pub valid : IsValid d.0
  pub down : HeldDown (held d.0.pacer) (apply_writes landed all_up)

-- The same, however the writes land.
record Safe (d : Daemon) : Type 0 where
  valid : IsValid d.0
  down : Always (HeldDown (held d.0.pacer)) d.1 all_up

deliver-Safe : (d : Daemon) (e : Event) → Safe d → Safe (deliver d e)
deliver-Safe d e p = record {
  valid = handle-IsValid d.0 e p.valid;
  down =
      Always-append (HeldDown (held (handle d.0 e).0.pacer)) d.1 (handle d.0 e).1 all_up
        (λ ls l. handle-HeldDown d.0 e (apply_writes ls all_up) p.valid (p.down ls l));
}

focused-Safe : (d : Daemon) (f : Focus) → Safe d → Safe (focused d.0 f, d.1)
unfolding handle
focused-Safe d none p = record { valid = p.valid; down = p.down }
focused-Safe d (some (hash, name, source)) p = record {
  valid = handle-IsValid d.0 (focus hash name source) p.valid;
  down = p.down;
}

flags-Safe :
    (d : Daemon) (b b' : Bool) → Safe d → Safe (record d.0 { stop_flag = b; reload_flag = b' }, d.1)
flags-Safe d b b' p = record {
  valid = record {
    settings = p.valid.settings;
    pacer = p.valid.pacer;
    rules = p.valid.rules;
    ipc = p.valid.ipc;
  };
  down = p.down;
}

callbacks_keep : Keeps callbacks Safe
callbacks_keep = record {
  set_stop = λ d p. flags-Safe d true d.0.reload_flag p;
  set_reload = λ b d p. flags-Safe d d.0.stop_flag b p;
  event_cb = λ d ev p. deliver-Safe _ (input ev.1 ev.2) (focused-Safe d ev.0 p);
  timer_cb = λ d a p. deliver-Safe d (timer a.expired) p;
  reload_cb = λ d files p. deliver-Safe d (reload files.0 files.1) p;
  io_cb = λ d fd a p. deliver-Safe _ (io fd a.accepted a.received) (focused-Safe d a.focus p);
}

-- From a valid state with nothing held, nothing written and every key up, over any device events and
-- fatal errors of the device, reads of the timer that fail or succeed, signals, traffic on the socket, and
-- changes of focus between the callbacks; any write to a virtual device may get lost as a whole, but for
-- those that release keys: where the loop waits or has returned, the state is valid, and the keys that
-- are down on the virtual keyboard are among those of the combination that the pacer holds, none if it
-- holds none.
pub run_loop-IsSafe :
    (fd : ℤ) (loop : EventLoop) (app : AppContext)
    (rounds : List (Round DeviceEvent IoAnswers Files)) (landed : List Write)
    → IsValid app
    → app.pacer.release_pending ≡ false
    → Lands (run_loop callbacks fd loop (app, []) rounds).0.1 landed
    → IsSafe (run_loop callbacks fd loop (app, []) rounds).0 landed
run_loop-IsSafe fd loop app rounds landed v e l =
    let first : Safe (app, []) = record {
      valid = v;
      down = Always-none (HeldDown (held app.pacer)) all_up (rw e refl);
    } in
    let out = run_loop_keeps callbacks Safe callbacks_keep fd loop (app, []) rounds first in
    record { valid = out.valid; down = out.down landed l }
