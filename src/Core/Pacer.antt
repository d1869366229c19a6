-- ===== src/Core/Pacer.antt =====
-- core/pacer.{hpp,cpp}: the queue of key combinations that the timer plays, one key press and one
-- release at a time.
pub mod Window
pub mod Inv
pub mod Refine
pub mod Run
use loginext.Config.Profile.{Profile}
use loginext.Core.Emitter.{Write, emit_combo_down, emit_combo_up}
use loginext.Presets.{KeyCombo, no_combo}
use loginext.Prelude.{
  ℕ, ◌+◌, ◌-◌, ◌*◌, ◌/◌, ◌%◌, ◌≤◌, Bool, true, false, not, ◌&&◌, ltb, leb, ◌==◌, if◌then◌else◌,
  Option, none, some, ℤ, pos, negsuc, is_negative, List, [], ◌∷◌, get_or, set, replicate,
}

-- config/constants.hpp
abbrev pub max_queued_actions : ℕ
max_queued_actions = 8

-- `timer` is the kernel's side of `timer_fd`: the time to which the one-shot timer was last set,
-- `none` if it is disarmed or has expired. The profile is an argument of the functions.
pub record PacingQueue : Type 0 where
  pub buffer : List KeyCombo
  pub head : ℕ
  pub tail : ℕ
  pub count : ℕ
  pub timer_fd : ℤ
  pub last_input_ns : ℕ
  pub release_pending : Bool
  pub held_combo : KeyCombo
  pub timer : Option ℕ

-- `PacingQueue{}`
abbrev pub fresh : PacingQueue
fresh = record {
  buffer = replicate max_queued_actions no_combo;
  head = 0;
  tail = 0;
  count = 0;
  timer_fd = negsuc 0;
  last_input_ns = 0;
  release_pending = false;
  held_combo = no_combo;
  timer = none;
}

abbrev nanos : ℕ
nanos = 1_000_000_000

-- `timerfd_settime` with this value; a value of 0 seconds and 0 nanoseconds disarms the timer.
unfoldable pub arm_timer_ns : ℕ → Option ℕ
arm_timer_ns ns =
    let sec = ns / nanos in
    let nsec = ns % nanos in if sec == 0 && nsec == 0 then none else some (sec * nanos + nsec)

unfoldable pub arm_timer : Profile → Option ℕ
unfolding arm_timer_ns
arm_timer p = arm_timer_ns p.pacing_interval_ns

-- `x & mask` with the mask `max_queued_actions - 1`, which is 2 ^ 3 - 1.
abbrev pub wrap : ℕ → ℕ
wrap x = x % max_queued_actions

-- `init_pacer`, on what `timerfd_create` returned; the number is the function's result.
unfoldable pub init_pacer : PacingQueue → ℤ → PacingQueue × ℤ
init_pacer q fd = (record q { timer_fd = fd }, if is_negative fd then negsuc 0 else pos 0)

-- The oldest combination makes room in a full queue.
abbrev pub make_room : PacingQueue → PacingQueue
make_room q =
    let is_full = leb max_queued_actions q.count in
    record q {
      head = if is_full then wrap (q.head + 1) else q.head;
      count = if is_full then q.count - 1 else q.count;
    }

abbrev pub put_combo : KeyCombo → PacingQueue → PacingQueue
put_combo combo q = record q {
  buffer = set q.buffer q.tail combo;
  tail = wrap (q.tail + 1);
  count = q.count + 1;
}

unfoldable pub enqueue_combo : PacingQueue → KeyCombo → ℕ → Profile → PacingQueue
unfolding arm_timer
enqueue_combo q combo now_ns p =
    let q' = put_combo combo (make_room (record q { last_input_ns = now_ns })) in
    let is_first = q'.count == 1 && not q'.release_pending in
    if combo.count == 0 then q else record q' { timer = if is_first then arm_timer p else q'.timer }

-- The release phase.
abbrev pub release_held : PacingQueue → Profile → PacingQueue × List Write
release_held q p = (
  record q {
    release_pending = false;
    held_combo = no_combo;
    timer = if ltb 0 q.count then arm_timer p else q.timer;
  },
  emit_combo_up q.held_combo,
)

-- The press phase, of a queue that is not empty.
abbrev pub press_next : PacingQueue → Profile → PacingQueue × List Write
press_next q p =
    let combo = get_or q.buffer q.head no_combo in
    (
      record q {
        head = wrap (q.head + 1);
        count = q.count - 1;
        release_pending = true;
        held_combo = combo;
        timer = arm_timer_ns p.key_release_delay_ns;
      },
      emit_combo_down combo,
    )

-- The flag says that the `read` of the timer returned its eight bytes.
unfoldable pub process_timer : PacingQueue → Bool → Profile → PacingQueue × List Write
unfolding arm_timer
process_timer q expired p =
    if not expired
    then (q, [])
    else if q.release_pending
    then release_held q p
    else if q.count == 0
    then (record q { timer = none }, [])
    else press_next q p

unfoldable pub check_damping : PacingQueue → ℕ → Profile → PacingQueue × List Write
check_damping q now_ns p =
    if q.count == 0 && not q.release_pending
    then (q, [])
    else if q.last_input_ns == 0
    then (q, [])
    else if leb (q.last_input_ns + p.damping_timeout_ns) now_ns
    then (
      record q {
        head = 0;
        tail = 0;
        count = 0;
        release_pending = false;
        held_combo = if q.release_pending then no_combo else q.held_combo;
        timer = none;
      },
      if q.release_pending then emit_combo_up q.held_combo else [],
    )
    else (q, [])

-- Closing the descriptor drops its timer.
unfoldable pub destroy_pacer : PacingQueue → PacingQueue
destroy_pacer q =
    if is_negative q.timer_fd then q else record q { timer_fd = negsuc 0; timer = none }
