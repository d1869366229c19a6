-- ===== src/App/Whole.antt =====
-- main.cpp: `main` over the parts of core/: the search of core/device.cpp at each attempt, the epoll
-- instance of core/event_loop.cpp, and its loop with the callbacks of the handlers.
use loginext.App.Loop.{Daemon, DeviceEvent, IoAnswers, Files, callbacks}
use loginext.App.Startup.Released.{is_found, run_main_released}
use loginext.App.Startup as Startup
use loginext.App.Startup.{Held, nothing, find, run_main}
use loginext.App.{AppContext}
use loginext.Core.Device.{DeviceHandle, Entry, find_device, valid}
use loginext.Core.EventLoop.Exit.{removes, run_loop_code}
use loginext.Core.EventLoop.{
  EventLoop, Request, Round, Status, fresh, init_loop, register_timer, run_loop, waiting, exited,
}
use loginext.Prelude.{
  ℕ, zero, suc, ◌+◌, ◌==◌, ◌≡◌, ◌∙◌, ap, Bool, true, false, not, ◌&&◌, if◌then◌else◌, Option, ℤ,
  List, [], ◌⊎◌, inl, inr, arith,
}

-- What `main` meets: the directory and the stop flag at each attempt, the results of the other steps,
-- and for the loop the state of the handlers and the rounds.
pub record World : Type 0 where
  pub dirs : ℕ → Option (List Entry)
  pub stopped : ℕ → Bool
  pub ipc_ok : Bool
  pub grab_ok : Bool
  pub emitter_ok : Bool
  pub pacer_ok : Bool
  pub timer_fd : ℤ
  pub created : ℤ
  pub added : Bool
  pub timer_added : Bool
  pub epoll_ok : Bool
  pub scope_ok : Bool
  pub app : AppContext
  pub rounds : List (Round DeviceEvent IoAnswers Files)

-- `loop_rc == 0`
abbrev pub is_zero : Status → Bool
is_zero waiting = false
is_zero (exited code) = code == 0

abbrev pub is_waiting : Status → Bool
is_waiting waiting = true
is_waiting (exited code) = false

module _ (w : World) where
  abbrev pub dev_at : ℕ → DeviceHandle
  dev_at i = (find_device (w.dirs i)).0

  -- `dev` behind the search, with the attempts left
  abbrev pub dev_from : ℕ → ℕ → DeviceHandle
  dev_from zero i = dev_at i
  dev_from (suc n) i = if valid (dev_at i) then dev_at i else dev_from n (i + 1)

  abbrev pub dev : DeviceHandle
  dev = dev_from 9 0

  abbrev pub loop_init : EventLoop × List Request × Bool
  loop_init = init_loop fresh dev.fd w.created w.added

  abbrev pub loop_ready : EventLoop × List Request × Bool
  loop_ready = register_timer loop_init.0 w.timer_fd w.timer_added

  abbrev pub main_loop : Daemon × List Request × Status
  main_loop = run_loop callbacks dev.fd loop_ready.0 (w.app, []) w.rounds

  abbrev pub answers : Startup.Answers
  answers = record {
    ipc_ok = w.ipc_ok;
    found = λ i. valid (dev_at i);
    stopped = w.stopped;
    grab_ok = w.grab_ok;
    emitter_ok = w.emitter_ok;
    pacer_ok = w.pacer_ok;
    loop_ok = loop_init.2;
    timer_ok = loop_ready.2;
    epoll_ok = w.epoll_ok;
    scope_ok = w.scope_ok;
    loop_rc = is_zero main_loop.2;
  }

  -- Whether `main` comes to the loop.
  abbrev pub reaches_loop : Bool
  reaches_loop =
      is_found answers (find answers)
      && w.grab_ok
      && w.emitter_ok
      && w.pacer_ok
      && loop_init.2
      && loop_ready.2

-- The daemon runs in its loop, or `main` has returned, with what it still holds; the flag is true for
-- EXIT_SUCCESS.
pub data Run : Type 0 where
  running : Run
  returned : Held → Bool → Run

unfoldable pub main : World → Run
main w =
    let (held, ok) = run_main (answers w) in
    if reaches_loop w && is_waiting (main_loop w).2 then running else returned held ok

abbrev outcome : Bool → Status → Bool → Run
outcome reached st ok = if reached && is_waiting st then running else returned nothing ok

outcome_lem :
    (found grab emitter pacer loop timer gone : Bool) (st : Status)
    → (st ≡ waiting) ⊎ (st ≡ exited (if gone then 1 else 0))
    → let reached = found && grab && emitter && pacer && loop && timer in
      outcome reached st (found && (grab && emitter && pacer && loop && timer && is_zero st))
      ≡ outcome reached st (reached && not gone)
outcome_lem found grab emitter pacer loop timer gone st (inl e) = rw e (ground arith)
outcome_lem found grab emitter pacer loop timer true st (inr e) = rw e (ground arith)
outcome_lem found grab emitter pacer loop timer false st (inr e) = rw e (ground arith)

-- Whatever the system answers, from the search of the device to the last round of the loop: `main` runs
-- in its loop, or it has returned with everything released. It returns success exactly if it came to the
-- loop and the loop never took the device out of its epoll instance, which it does on a fatal error of
-- the device.
pub main_code :
    (w : World)
    → main w ≡ (
        if reaches_loop w && is_waiting (main_loop w).2
        then running
        else returned nothing (reaches_loop w && not (removes (main_loop w).1)))
unfolding main
main_code w =
    let st = (main_loop w).2 in
    ap (λ (r : Held × Bool). if reaches_loop w && is_waiting st then running else returned r.0 r.1)
      (run_main_released (answers w))
    ∙ outcome_lem (is_found (answers w) (find (answers w))) w.grab_ok w.emitter_ok w.pacer_ok
        (loop_init w).2 (loop_ready w).2 (removes (main_loop w).1) st
        (run_loop_code callbacks (dev w).fd (loop_ready w).0 (w.app, []) w.rounds)
