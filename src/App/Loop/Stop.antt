-- ===== src/App/Loop/Stop.antt =====
-- No handler of main.cpp lowers the flag that stops the daemon.
use loginext.App.{
  AppContext, TimeVal, effective, gesture, on_event, on_timer, on_line, on_io, handle,
  is_passthrough, input, timer, io,
}
use loginext.Core.Emitter.{InputEvent, Write, rel_hwheel, ev_rel, ev_syn, ev_key, ev_msc}
use loginext.Ipc.Dispatch.{
  DispatchCtx, Response, run_command, dispatch_command, dispatch_line, dispatch_with_fd,
}
use loginext.Ipc.Request.{extract_string, strip_cr}
use loginext.Ipc.Server.Handler.{on_client_readable_fd_keeps}
use loginext.Ipc.Server.{Accepted, ReadResult, owns_fd}
use loginext.Prelude.{
  if_keeps, ℕ, ◌≡◌, refl, Bool, true, false, ◌&&◌, ◌||◌, ◌==◌, ℤ, eqb_ℤ, List, [], ◌∷◌, Bytes,
  codes, eq_bytes, Bool-cases, inl, inr,
}

abbrev Stops : DispatchCtx × Response → Type 0
Stops o = o.0.stop_flag ≡ true

run_command-Stops :
    (cmd : Bytes) (cap : ℕ) (dc : DispatchCtx) (fd : ℤ)
    → dc.stop_flag ≡ true
    → Stops (run_command cmd cap dc fd)
unfolding run_command
run_command-Stops cmd cap dc fd e =
    let is = eq_bytes cmd in
    if_keeps Stops (is (codes "ping")) e (
      if_keeps Stops (is (codes "get_settings")) e (
        if_keeps Stops (is (codes "list_devices")) e (
          if_keeps Stops (is (codes "list_controls")) e (
            if_keeps Stops (is (codes "list_presets")) e (
              if_keeps Stops (is (codes "reload")) e (
                if_keeps Stops (is (codes "get_active_app")) e
                  (if_keeps Stops (is (codes "quit")) refl e)))))))

dispatch_with_fd-Stops :
    (line : Bytes) (cap : ℕ) (dc : DispatchCtx) (fd : ℤ)
    → dc.stop_flag ≡ true
    → Stops (dispatch_with_fd line cap dc fd)
unfolding dispatch_with_fd
dispatch_with_fd-Stops line cap dc fd e = of_line (strip_cr line)
  where
    of_command : (cmd : Bytes) → Stops (dispatch_command cmd cap dc fd)
    of_command [] = e
    of_command (c ∷ cmd) = run_command-Stops (c ∷ cmd) cap dc fd e

    of_line : (sv : Bytes) → Stops (dispatch_line sv cap dc fd)
    of_line [] = e
    of_line (c ∷ sv) = of_command (extract_string (c ∷ sv) (codes "cmd"))

on_line-stop :
    (app : AppContext) (line : Bytes) (fd : ℤ)
    → app.stop_flag ≡ true
    → (on_line app line fd).0.stop_flag ≡ true
unfolding on_line
on_line-stop app line fd e = dispatch_with_fd-Stops line _ _ fd e

pub io-stop :
    (app : AppContext) (fd : ℤ) (accepted : List Accepted) (r : ReadResult)
    → app.stop_flag ≡ true
    → (handle app (io fd accepted r)).0.stop_flag ≡ true
unfolding handle on_io
io-stop app fd accepted r e = elim (Bool-cases (eqb_ℤ fd app.ipc.listen_fd)) [
  | inl t ↦ rw t e
  | inr t ↦ elim (Bool-cases (owns_fd app.ipc fd)) [
    | inl t' ↦
        rw (t, t')
          (on_client_readable_fd_keeps on_line (λ (app : AppContext). app.stop_flag ≡ true)
            (λ app' line fd' e'. on_line-stop app' line fd' e') app.ipc app fd r e)
    | inr t' ↦ rw (t, t') e
  ]
]

abbrev Stopped : AppContext × List Write → Type 0
Stopped o = o.0.stop_flag ≡ true

pub event-stop :
    (app : AppContext) (ev : InputEvent) (time : TimeVal)
    → app.stop_flag ≡ true
    → (handle app (input ev time)).0.stop_flag ≡ true
unfolding handle on_event gesture
event-stop app ev time e =
    if_keeps Stopped (ev.type == ev_rel && ev.code == rel_hwheel)
      (if_keeps Stopped (is_passthrough (effective app).preset) e e)
      (if_keeps Stopped
        (ev.type == ev_syn || ev.type == ev_rel || ev.type == ev_key || ev.type == ev_msc) e e)

pub timer-stop :
    (app : AppContext) (read : Bool)
    → app.stop_flag ≡ true
    → (handle app (timer read)).0.stop_flag ≡ true
unfolding handle on_timer
timer-stop app true e = e
timer-stop app false e = e
