-- ===== src/Core/Pacer/Inv.antt =====
-- The representation invariant of the ring, and that the timer is armed while there is work.
use loginext.Config.Profile.Sane.{IsSane}
use loginext.Config.Profile.{Profile}
use loginext.Core.Pacer.{
  PacingQueue, fresh, max_queued_actions, wrap, arm_timer_ns, arm_timer, enqueue_combo,
  process_timer, check_damping,
}
use loginext.Presets.{KeyCombo}
use loginext.Prelude.{
  ℕ, ◌+◌, ◌≤◌, ◌<◌, ◌≡◌, refl, Bool, true, false, ◌||◌, ltb, Option, none, some, length, length-set,
  arith,
}

abbrev pub is_armed : Option ℕ → Bool
is_armed none = false
is_armed (some ns) = true

-- Something is held down or waits to be played.
abbrev pub has_work : PacingQueue → Bool
has_work q = ltb 0 q.count || q.release_pending

pub record IsValid (q : PacingQueue) : Type 0 where
  pub slots : length q.buffer ≡ max_queued_actions
  pub head_in : q.head < max_queued_actions
  pub count_in : q.count ≤ max_queued_actions
  pub tail_at : q.tail ≡ wrap (q.head + q.count)
  pub armed : is_armed q.timer ≡ has_work q

pub fresh-IsValid : IsValid fresh
fresh-IsValid = record {
  slots = refl;
  head_in = omega arith;
  count_in = omega arith;
  tail_at = refl;
  armed = refl;
}

pub arm_timer_ns-armed : (ns : ℕ) → 0 < ns → is_armed (arm_timer_ns ns) ≡ true
unfolding arm_timer_ns
arm_timer_ns-armed ns h = ground arith

pub arm_timer_ns-eq : (ns : ℕ) → 0 < ns → arm_timer_ns ns ≡ some ns
unfolding arm_timer_ns
arm_timer_ns-eq ns h = ground arith

module _ (p : Profile) (sane : IsSane p) where
  armed_pacing : is_armed (arm_timer p) ≡ true
  unfolding arm_timer
  armed_pacing = arm_timer_ns-armed p.pacing_interval_ns sane.pacing_pos

  -- With a sane profile, a tick keeps the ring valid, drops the oldest combination of a full ring,
  -- and leaves the timer armed exactly if there is work.
  pub enqueue_combo-IsValid :
      (q : PacingQueue) (combo : KeyCombo) (now : ℕ)
      → IsValid q
      → IsValid (enqueue_combo q combo now p)
  unfolding enqueue_combo
  enqueue_combo-IsValid q combo now v =
      ground (arith, armed_pacing, length-set q.buffer q.tail combo)

  -- With a sane profile, an expiry of the timer (which is then no longer armed) keeps the ring valid,
  -- and leaves the timer armed exactly if there is work.
  pub process_timer-IsValid :
      (q : PacingQueue) → IsValid q → IsValid (process_timer (record q { timer = none }) true p).0
  unfolding process_timer
  process_timer-IsValid q v =
      ground (arith, armed_pacing, arm_timer_ns-armed p.key_release_delay_ns)

  -- With a sane profile, a check for silence keeps the ring valid, and leaves the timer armed exactly
  -- if there is work.
  pub check_damping-IsValid :
      (q : PacingQueue) (now : ℕ) → IsValid q → IsValid (check_damping q now p).0
  unfolding check_damping
  check_damping-IsValid q now v = ground arith
