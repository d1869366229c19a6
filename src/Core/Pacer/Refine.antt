-- ===== src/Core/Pacer/Refine.antt =====
-- The pacer refines the player: each function does to the view what the player does.
use loginext.Config.Profile.{Profile}
use loginext.Core.Pacer.Inv.{IsValid}
use loginext.Core.Pacer.Window.{window, length-window, window-set}
use loginext.Core.Pacer.{
  PacingQueue, wrap, enqueue_combo, process_timer, check_damping, make_room, put_combo,
}
use loginext.Core.Player.{Player, accept, play, flush, is_overdue, push}
use loginext.Presets.{KeyCombo, no_combo}
use loginext.Prelude.{
  ℕ, zero, suc, ◌+◌, ◌-◌, ◌≡◌, ◌≢◌, refl, ap, true, ◌==◌, if◌then◌else◌, none, some, List, [], ◌∷◌,
  get_or, Bool-cases, inl, inr, arith,
}

abbrev pub contents : PacingQueue → List KeyCombo
contents q = window q.buffer q.head q.count

abbrev pub view : PacingQueue → Player
view q = record {
  waiting = contents q;
  held = if q.release_pending then some q.held_combo else none;
  last_input_ns = q.last_input_ns;
}

window_pos :
    (buf : List KeyCombo) (h n : ℕ)
    → n ≢ 0
    → window buf h n ≡ get_or buf h no_combo ∷ window buf (wrap (h + 1)) (n - 1)
window_pos buf h zero ne = absurd (ne refl)
window_pos buf h (suc n) ne = ap (λ k. window buf h (suc k)) (omega arith)

put-contents :
    (q : PacingQueue) (c : KeyCombo)
    → IsValid q
    → contents (put_combo c (make_room q)) ≡ push (contents q) c
put-contents q c v = ground (
  arith,
  length-window q.buffer q.head q.count,
  window_pos q.buffer q.head q.count,
  window-set q.buffer c q.head q.count q.tail,
  window-set q.buffer c (wrap (q.head + 1)) (q.count - 1) q.tail,
)

-- `enqueue_combo` drops a combination without keys, and otherwise puts it behind those that wait,
-- of which it drops the oldest if there are eight.
pub enqueue_combo_refines :
    (q : PacingQueue) (c : KeyCombo) (now : ℕ) (p : Profile)
    → IsValid q
    → view (enqueue_combo q c now p) ≡ accept (view q) c now
unfolding enqueue_combo
enqueue_combo_refines q c now p v = elim (Bool-cases (c.count == 0)) [
  | inl e ↦ rw e
  | inr e ↦ rw e (
      ap
        (λ w. record {
          waiting = w;
          held = if q.release_pending then some q.held_combo else none;
          last_input_ns = now;
        })
        (put-contents q c v))
]

-- When the timer fires, the held combination goes up, or else the oldest that waits goes down.
pub process_timer_refines :
    (q : PacingQueue) (p : Profile)
    → IsValid q
    → let (q', writes) = process_timer (record q { timer = none }) true p in
      (view q', writes) ≡ play (view q)
unfolding process_timer
process_timer_refines q p v = ground (arith, window_pos q.buffer q.head q.count)

-- `check_damping` lets go of everything if the last tick is at least the damping timeout ago, and
-- otherwise does nothing.
pub check_damping_refines :
    (q : PacingQueue) (now : ℕ) (p : Profile)
    → let (q', writes) = check_damping q now p in
      (view q', writes) ≡ (if is_overdue (view q) now p then flush (view q) else (view q, []))
unfolding check_damping
check_damping_refines q now p = ground arith
