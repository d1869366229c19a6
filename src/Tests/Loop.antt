-- ===== src/Tests/Loop.antt =====
-- Runs of core/event_loop.cpp and core/device.cpp.
use loginext.App.Loop.HeldDown.{IsSafe, callbacks-IsLawful, run_loop-IsSafe}
use loginext.App.Loop.{DeviceEvent, IoAnswers, Files, callbacks}
use loginext.App.Startup.{nothing}
use loginext.App.Whole.{
  World, main, main_code, main_loop, reaches_loop, is_waiting, running, returned,
}
use loginext.Core.Device.Found.{first_candidate, find_device_first}
use loginext.Core.Device.Resources.{after, no_resources, release_device-after}
use loginext.Core.Device.{
  Evdev, Entry, find_device, grab_device, release_device, is_mouse, examine, visit, scan, build,
}
use loginext.Core.EventLoop.Exit.{removes, run_loop_code}
use loginext.Core.EventLoop.Fatal.{run_loop_broken}
use loginext.Core.EventLoop.Stop.{run_loop-terminates}
use loginext.Core.EventLoop.{
  EventLoop, Read, Ready, Round, run_loop, success, again, broken, ready, eintr, waiting, exited,
  terminate, hangup,
}
use loginext.Ipc.Server.{eof}
use loginext.Core.Emitter.{Write}
use loginext.Tests.Pacer.{all_land}
use loginext.Tests.App.{start, start-IsValid, wheel, at_ms}
use loginext.Prelude.{
  ℕ, ◌==◌, ◌&&◌, not, ◌≡◌, ◌⊎◌, refl, true, false, if◌then◌else◌, none, some, ℤ, pos, negsuc, List,
  [], ◌∷◌, ◌++◌, codes,
}

abbrev loop : EventLoop
loop = record { epoll_fd = pos 7; timer_fd = pos 6 }

abbrev device : ℤ
device = pos 5

abbrev tick_at : ℕ → Read DeviceEvent
tick_at ms = success (none, wheel, at_ms ms)

abbrev quiet : IoAnswers
quiet = record { focus = none; expired = true; accepted = []; received = eof }

abbrev no_files : Files
no_files = (none, none)

abbrev from_device : List (Read DeviceEvent) → Ready DeviceEvent IoAnswers
from_device rs = record { fd = device; reads = rs; answers = quiet }

abbrev from_timer : Ready DeviceEvent IoAnswers
from_timer = record { fd = pos 6; reads = []; answers = quiet }

abbrev round_of : List (Ready DeviceEvent IoAnswers) → Round DeviceEvent IoAnswers Files
round_of rs = record { files = no_files; signals = []; wait = ready rs; late = [] }

-- Two wheel events, a reload, the expiry, and the unplugged device.
abbrev rounds : List (Round DeviceEvent IoAnswers Files)
rounds =
    round_of (from_device (tick_at 0 ∷ tick_at 20 ∷ again ∷ []) ∷ [])
    ∷ record { files = no_files; signals = hangup ∷ []; wait = eintr; late = [] }
    ∷ round_of (from_timer ∷ [])
    ∷ round_of (from_device (tick_at 90 ∷ broken ∷ []) ∷ from_timer ∷ [])
    ∷ []

abbrev rounds_writes : List Write
rounds_writes = (run_loop callbacks device loop (start, []) rounds).0.1

run_loop-IsSafe_example : IsSafe (run_loop callbacks device loop (start, []) rounds).0 rounds_writes
run_loop-IsSafe_example =
    run_loop-IsSafe device loop start rounds rounds_writes start-IsValid refl
      (all_land rounds_writes)

run_loop_code_example :
    let (s, es, status) = run_loop callbacks device loop (start, []) rounds in
    (status ≡ waiting) ⊎ (status ≡ exited (if removes es then 1 else 0))
run_loop_code_example = run_loop_code callbacks device loop (start, []) rounds

abbrev unplugged : List (Ready DeviceEvent IoAnswers)
unplugged = from_device (tick_at 90 ∷ broken ∷ []) ∷ []

run_loop_broken_example :
    let stopped = run_loop callbacks device loop (start, []) (round_of unplugged ∷ []) in
    (run_loop callbacks device loop (start, []) (round_of (unplugged ++ from_timer ∷ []) ∷ rounds)
      ≡ stopped)
    × (stopped.2 ≡ exited 1)
run_loop_broken_example =
    run_loop_broken callbacks callbacks-IsLawful device loop (start, []) (round_of []) unplugged
      (from_timer ∷ []) rounds refl refl

abbrev ended : List (Round DeviceEvent IoAnswers Files)
ended =
    round_of (from_timer ∷ [])
    ∷ record { files = no_files; signals = terminate ∷ []; wait = eintr; late = [] }
    ∷ []

run_loop-terminates_example :
    (code : ℕ) × ((run_loop callbacks device loop (start, []) ended).2 ≡ exited code)
run_loop-terminates_example =
    run_loop-terminates callbacks callbacks-IsLawful device loop (start, []) ended refl

abbrev mouse : Evdev
mouse = record {
  object = 2;
  id_vendor = 0x046d;
  id_product = 0xb034;
  has_x = true;
  has_y = true;
  has_hwheel = true;
}

-- The receiver's consumer node, which has no REL_X, a node that does not open, and the mouse.
abbrev entries : List Entry
entries =
    record { name = codes "mice"; opened = pos 9; device = none }
    ∷ record {
      name = codes "event3";
      opened = pos 9;
      device = some (record mouse { object = 1; has_x = false });
    }
    ∷ record { name = codes "event4"; opened = negsuc 0; device = none }
    ∷ record { name = codes "event5"; opened = pos 10; device = some mouse }
    ∷ []

find_device_first_example : (find_device (some entries)).0 ≡ first_candidate entries
find_device_first_example = find_device_first entries

release_device-after_example :
    let (dev, rs) = find_device (some entries) in
    after (rs ++ (grab_device dev true ++ (release_device dev).1)) no_resources ≡ no_resources
release_device-after_example = release_device-after (some entries) true

found_mouse : (find_device (some entries)).0 ≡ record { fd = pos 10; evdev = some mouse }
unfolding find_device scan visit examine is_mouse build
found_mouse = refl

-- The mouse is there at the fourth attempt, ticks twice, and is unplugged.
abbrev brief : World
brief = record {
  dirs = λ n. if n == 3 then some entries else some [];
  stopped = λ n. false;
  ipc_ok = true;
  grab_ok = true;
  emitter_ok = true;
  pacer_ok = true;
  timer_fd = pos 6;
  created = pos 7;
  added = true;
  timer_added = true;
  epoll_ok = true;
  scope_ok = true;
  app = start;
  rounds = round_of (record (from_device (tick_at 90 ∷ broken ∷ [])) { fd = pos 10 } ∷ []) ∷ [];
}

main_code_example : main brief ≡ (
    if reaches_loop brief && is_waiting (main_loop brief).2
    then running
    else returned nothing (reaches_loop brief && not (removes (main_loop brief).1)))
main_code_example = main_code brief
