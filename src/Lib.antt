-- ===== src/Lib.antt =====
-- LogiNext: a daemon that turns the thumb wheel of a mouse into key combinations.
--
-- The program. The event loop reads the mouse and calls the handlers of src/main.cpp. A horizontal
-- wheel event goes to the gesture engine (src/heuristics), which answers with a tick to the left, to
-- the right, or none. The preset in force (src/presets) turns a tick into a key combination, which
-- the pacer (src/core/pacer.cpp) queues and plays on a virtual keyboard, one press and one release
-- per expiry of its timer. All other events go to a virtual mouse. Rules per application
-- (src/scope) override the settings (src/config) for the focused window. A reload reads both files
-- again. A user interface talks to the daemon over a socket (src/ipc).
--
-- The files.
--   Prelude                 names of the libraries, tests on numbers, arrays, integers, bytes;
--                           Prelude/Checked: requests that the system may refuse
--   Env                     the environment and the password database, strtoul, %u; the default paths
--                           of src/config/loader.cpp and src/scope/rules_loader.cpp
--   Config/Profile          src/config/profile.hpp: SensitivityMode, Profile, profile_for, ...
--   Config/Settings         src/config/settings.hpp: Settings, apply_mode
--   Config/Loader           src/config/loader.cpp: the class Parser and load_settings
--   Heuristics/Direction    src/heuristics/scroll_state.hpp: Direction
--   Heuristics/Scroll       src/heuristics/scroll_state.cpp: process_hwheel, cut into its stages
--                           (idle_reset, debounce, settle, decide), and tick_leak
--   Presets                 src/presets/preset.hpp: the preset table, its text forms, resolve
--   Core/Emitter            src/core/emitter.cpp: the batches of events that are written
--   Core/Emitter/Lands      which of the writes reach the devices, and what the keys are then
--   Core/Pacer              src/core/pacer.cpp: PacingQueue and its operations
--   Core/Player             what the pacer promises, with a list in place of the ring
--   Core/EventLoop          src/core/event_loop.cpp: init_loop, register_timer, run_loop, ...
--   Core/Device             src/core/device.cpp: find_device, grab_device, release_device
--   Scope/AppHash           src/scope/app_hash.hpp: hash_app
--   Scope/Rules             src/scope/rules.cpp, rules.hpp: clear, insert, lookup
--   Scope/RulesLoader       src/scope/rules_loader.cpp: load_rules
--   Scope/Listener          src/scope/listener.cpp: publish_and_log, start, stop; its children are
--                           Hyprland (hypr_connect, hypr_loop), Kwin (kwin_dbus_loop, bootstrap),
--                           Plasma (kde_wayland_loop and its listeners), X11 (x11_loop) and Thread
--                           (the probes, thread_main)
--   Config/Args             src/config/args.cpp: parse_args
--   Core/Emitter/Handle     src/core/emitter.cpp: init_emitter, destroy_emitter
--   Ipc/Request             src/ipc/dispatch.cpp: extract_string
--   Ipc/Dispatch            src/ipc/dispatch.cpp: the commands of the control socket
--   Ipc/Server              src/ipc/server.cpp: client slots, accepts, the framing of lines
--   Ipc/Server/Setup        src/ipc/server.cpp: resolve_socket_path, init_server
--   Util/Log                src/util/log.cpp: log_init, log_msg_v, log_session_marker, log_shutdown
--   App                     src/main.cpp: on_event, on_timer, on_reload, on_io; also send_reload_ack
--                           of src/ipc/dispatch.cpp
--   App/Loop                src/main.cpp: the callbacks and flags that main gives to run_loop
--   App/Startup             src/main.cpp: main; App/Startup/Logging: the logger's configuration
--   App/Whole               src/main.cpp: main over the search, the epoll instance and the loop
--   Tests                   concrete runs and instances of the theorems
-- A child of a module holds facts about it, and is named for them.
--
-- The model. A function that changes an object returns the changed object; one that writes to a
-- device returns the writes too; any of these may fail, which the code only logs, and a theorem on the
-- keys says which it excludes. Fixed-width unsigned arithmetic of the hash is written out;
-- timestamps and counters are natural numbers, as the code never lets them be negative, and a
-- comparison of a difference is written as one of a sum. A file is the bytes that `read` returns,
-- or nothing if it cannot be opened. The kernel's one-shot timer is a field of the pacer. The hash
-- of the focused application is a field that the environment sets between two handlers. What the
-- kernel, libevdev, sd-bus, libwayland and libxcb answer is an argument, in the order of the calls, and
-- what is asked of them is a list of requests; a resource is accounted for by replaying that list. A
-- loop takes one element of a list of answers per turn, and where the list ends it waits. The event
-- loop is generic in its callbacks, with the laws of the two flags as a record that App/Loop fills.
--
-- Bounds and fuel. The loop over the members of a configuration text runs on fuel, one unit more
-- than there are bytes; each round reads at least one byte. Both files are cut at 4095 bytes, as the
-- buffers are. Probing the rule table takes at most its 64 slots; the ring of the pacer has 8.
-- A receive buffer of the socket has 1024 bytes, a response buffer as many. The search for the device
-- makes nine further attempts. The listener's thread makes 30 attempts, its list of Plasma
-- windows has 64 slots, and its receive buffer 1024 bytes. A `uint32_t` prints in at most ten digits.
--
-- Not modelled: a write of a batch that is taken in part, a `timerfd_settime` that fails (the code
-- ignores its result), the counters of --debug-perf and the dump of --debug-events, the texts of log lines,
-- the text of the script for KWin, the usage text, and the user interface. The listener's thread
-- publishes between two callbacks, never within one. The overflow of `int32_t` in the accumulator and in
-- the negation of an event's value is not modelled either.
pub mod Prelude
pub mod Config
pub mod Heuristics
pub mod Presets
pub mod Core
pub mod Scope
pub mod Env
pub mod Util
pub mod Ipc
pub mod App
pub mod Tests
