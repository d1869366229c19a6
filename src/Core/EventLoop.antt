-- ===== src/Core/EventLoop.antt =====
-- core/event_loop.cpp: the epoll instance and the loop over it, for any callbacks. What the kernel and
-- libevdev answer is an argument; what is asked of them is a list of requests. The perf counters and
-- the debug dump, which only print, are left out.
pub mod Steps
pub mod Keeps
pub mod Exit
pub mod Fatal
pub mod Stop
use loginext.Prelude.{
  ℕ, Bool, true, false, Option, none, some, ℤ, negsuc, eqb_ℤ, is_negative, List, [], ◌∷◌, ◌++◌,
  if◌then◌else◌, ◌≡◌,
}

pub record EventLoop : Type 0 where
  pub epoll_fd : ℤ
  pub timer_fd : ℤ

-- `EventLoop{}`
abbrev pub fresh : EventLoop
fresh = record { epoll_fd = negsuc 0; timer_fd = negsuc 0 }

-- The argument of `next_event` is true for LIBEVDEV_READ_FLAG_SYNC.
pub data Request : Type 0 where
  epoll_add epoll_del close : ℤ → Request
  next_event : Bool → Request

-- The result is true for a return code of 0. The arguments are what `epoll_create1` returns and
-- whether `epoll_ctl` succeeds.
unfoldable pub init_loop : EventLoop → ℤ → ℤ → Bool → EventLoop × List Request × Bool
init_loop loop device_fd created added =
    if is_negative created
    then (record loop { epoll_fd = created }, [], false)
    else if added
    then (record loop { epoll_fd = created }, epoll_add device_fd ∷ [], true)
    else (record loop { epoll_fd = negsuc 0 }, epoll_add device_fd ∷ close created ∷ [], false)

unfoldable pub register_timer : EventLoop → ℤ → Bool → EventLoop × List Request × Bool
register_timer loop timer_fd added =
    (record loop { timer_fd = timer_fd }, epoll_add timer_fd ∷ [], added)

unfoldable pub shutdown_loop : EventLoop → EventLoop × List Request
shutdown_loop loop =
    if is_negative loop.epoll_fd
    then (loop, [])
    else (record loop { epoll_fd = negsuc 0 }, close loop.epoll_fd ∷ [])

-- What `libevdev_next_event` returns: an event, an event of a resynchronisation, -EAGAIN, -EINTR, or
-- another error.
pub data Read (E : Type 0) : Type 0 where
  success sync : E → Read E
  again interrupted broken : Read E

-- A descriptor that `epoll_wait` reports, with the answers of libevdev if it is the device (-EAGAIN
-- behind the last), and those that the timer's or the I/O callback meets if it is another.
pub record Ready (E I : Type 0) : Type 0 where
  pub fd : ℤ
  pub reads : List (Read E)
  pub answers : I

-- What `epoll_wait` returns: descriptors, EINTR, or another error.
pub data Wait (E I : Type 0) : Type 0 where
  ready : List (Ready E I) → Wait E I
  eintr failed : Wait E I

-- SIGHUP, and SIGINT or SIGTERM
pub data Signal : Type 0 where
  hangup terminate : Signal

-- The outside in a turn of the loop: what the reload callback would read, the signals that come up to
-- the end of the wait, the answer of `epoll_wait`, and the signals that come while it is worked off.
pub record Round (E I R : Type 0) : Type 0 where
  pub files : R
  pub signals : List Signal
  pub wait : Wait E I
  pub late : List Signal

-- The flags and the callbacks over the state `S` that their contexts point to.
pub record Client (S E I R : Type 0) : Type 0 where
  pub stop : S → Bool
  pub reload : S → Bool
  pub set_stop : S → S
  pub set_reload : Bool → S → S
  pub event_cb : S → E → S
  pub timer_cb : S → I → S
  pub reload_cb : S → R → S
  pub io_cb : Option (S → ℤ → I → S)

-- The flags are flags: what is written is read, and no callback lowers the one that stops the loop.
pub record IsLawful {S E I R : Type 0} (c : Client S E I R) : Type 0 where
  pub stop_set : (s : S) → c.stop (c.set_stop s) ≡ true
  pub reload_set : (b : Bool) (s : S) → c.reload (c.set_reload b s) ≡ b
  pub stop-set_stop : (s : S) → c.stop s ≡ true → c.stop (c.set_stop s) ≡ true
  pub stop-set_reload : (b : Bool) (s : S) → c.stop (c.set_reload b s) ≡ c.stop s
  pub stop-event_cb : (s : S) (e : E) → c.stop s ≡ true → c.stop (c.event_cb s e) ≡ true
  pub stop-timer_cb : (s : S) (i : I) → c.stop s ≡ true → c.stop (c.timer_cb s i) ≡ true
  pub stop-io_cb :
      (f : S → ℤ → I → S) (s : S) (fd : ℤ) (i : I)
      → c.io_cb ≡ some f
      → c.stop s ≡ true
      → c.stop (f s fd i) ≡ true

-- Where the loop is: `waiting` in `epoll_wait` when the answers end, or returned with a code.
pub data Status : Type 0 where
  waiting : Status
  exited : ℕ → Status

module _ {S E I R : Type 0} (c : Client S E I R) where
  open c use {stop, set_stop, set_reload, event_cb, timer_cb, reload_cb, io_cb}

  -- The inner loop over the device; the last component is true for a fatal error.
  unfoldable pub drain : S → Bool → List (Read E) → S × List Request × Bool
  drain s flags [] = (s, next_event flags ∷ [], false)
  drain s flags (success ev ∷ rs) =
      let (s', es, fatal) = drain (event_cb s ev) false rs in (s', next_event flags ∷ es, fatal)
  drain s flags (sync ev ∷ rs) =
      let (s', es, fatal) = drain s true rs in (s', next_event flags ∷ es, fatal)
  drain s flags (again ∷ rs) = (s, next_event flags ∷ [], false)
  drain s flags (interrupted ∷ rs) = (s, next_event flags ∷ [], false)
  drain s flags (broken ∷ rs) = (s, next_event flags ∷ [], true)

  abbrev pub call_io : Option (S → ℤ → I → S) → S → ℤ → I → S
  call_io none s fd i = s
  call_io (some f) s fd i = f s fd i

  module _ (device_fd : ℤ) (loop : EventLoop) where
    -- What follows the device's inner loop: the next descriptors, or the end of the batch.
    abbrev pub drained :
        (S → S × List Request × ℕ) → ℕ → S × List Request × Bool → S × List Request × ℕ
    drained rest code (s, es, false) = let (s', es', code') = rest s in (s', es ++ es', code')
    drained rest code (s, es, true) = (set_stop s, es ++ epoll_del device_fd ∷ [], 1)

    abbrev pub other_fd : S → Ready E I → S
    other_fd s r =
        if eqb_ℤ r.fd loop.timer_fd then timer_cb s r.answers else call_io io_cb s r.fd r.answers

    -- The loop over the descriptors, with `exit_code`
    unfoldable pub dispatch_fds : S → ℕ → List (Ready E I) → S × List Request × ℕ
    dispatch_fds s code [] = (s, [], code)
    dispatch_fds s code (r ∷ rs) = elim (eqb_ℤ r.fd device_fd) [
      | false ↦ dispatch_fds (other_fd s r) code rs
      | true ↦ drained (λ s'. dispatch_fds s' code rs) code (drain s false r.reads)
    ]

    -- The signal handlers of main.cpp
    abbrev pub on_signal : S → Signal → S
    on_signal s hangup = set_reload true s
    on_signal s terminate = set_stop s

    abbrev pub on_signals : S → List Signal → S
    on_signals s [] = s
    on_signals s (x ∷ xs) = on_signals (on_signal s x) xs

    unfoldable pub take_reload : S → R → S
    take_reload s files = if c.reload s then reload_cb (set_reload false s) files else s

    -- The body of the loop behind `epoll_wait`, with the turns that follow.
    abbrev pub waited :
        (S → ℕ → S × List Request × Status) → S → ℕ → Wait E I → S × List Request × Status
    waited rest s code eintr = rest s code
    waited rest s code failed = (s, [], exited code)
    waited rest s code (ready rs) =
        let (s', es, code') = dispatch_fds s code rs in
        let (s'', es', status) = rest s' code' in (s'', es ++ es', status)

    -- The outer loop
    unfoldable pub turns : S → ℕ → List (Round E I R) → S × List Request × Status
    turns s code [] = (s, [], if stop s then exited code else waiting)
    turns s code (r ∷ rs) = elim (stop s) [
      | true ↦ (s, [], exited code)
      | false ↦
          waited (λ s' code'. turns (on_signals s' r.late) code' rs)
            (on_signals (take_reload s r.files) r.signals) code r.wait
    ]

    unfoldable pub run_loop : S → List (Round E I R) → S × List Request × Status
    run_loop s rounds = turns s 0 rounds
