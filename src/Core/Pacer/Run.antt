-- ===== src/Core/Pacer/Run.antt =====
-- The pacer over any sequence of ticks, timer expiries and silence checks, in the order in which
-- the event loop delivers them.
use loginext.Config.Profile.Sane.{IsSane}
use loginext.Config.Profile.{Profile}
use loginext.Core.Emitter.Keys.{all_up, apply_writes}
use loginext.Core.Emitter.Lands.{Always, Lands}
use loginext.Core.Emitter.{Write}
use loginext.Core.Pacer.Inv.{
  is_armed, IsValid, fresh-IsValid, enqueue_combo-IsValid, process_timer-IsValid,
  check_damping-IsValid,
}
use loginext.Core.Pacer.Refine.{
  view, enqueue_combo_refines, process_timer_refines, check_damping_refines,
}
use loginext.Core.Pacer.Window.{window, length-window}
use loginext.Core.Pacer.{PacingQueue, fresh, enqueue_combo, process_timer, check_damping}
use loginext.Core.Player
use loginext.Core.Player.{
  Player, Stimulus, tick, fire, spurious, check, idle, respond, play, HeldDown, pending_phases,
  all_played,
}
use loginext.Prelude.{
  append_assoc, ℕ, zero, suc, ◌+◌, ◌-◌, ◌*◌, ◌≤◌, ◌≡◌, refl, sym, ap, subst, ◌∙◌, false, none, some,
  List, [], ◌∷◌, ◌++◌, replicate, if◌then◌else◌, Bool-cases, inl, inr, arith,
}

-- A one-shot timer that has expired is no longer armed; one that is not armed does not expire. A read
-- of the timer that gives no expiry leaves it as it is.
unfoldable pub react : Profile → PacingQueue → Stimulus → PacingQueue × List Write
react p q (tick c now) = (enqueue_combo q c now p, [])
react p q fire = process_timer (record q { timer = none }) (is_armed q.timer) p
react p q spurious = process_timer q false p
react p q (check now) = check_damping q now p

unfoldable pub run : Profile → PacingQueue → List Stimulus → PacingQueue × List Write
run p q [] = (q, [])
run p q (x ∷ xs) = let (q', w) = react p q x in let (q'', w') = run p q' xs in (q'', w ++ w')

run-append :
    (p : Profile) (xs ys : List Stimulus) (q : PacingQueue)
    → (run p q (xs ++ ys)).0 ≡ (run p (run p q xs).0 ys).0
unfolding run
run-append p [] ys q = refl
run-append p (x ∷ xs) ys q = run-append p xs ys (react p q x).0

run_writes :
    (p : Profile) (xs ys : List Stimulus) (q : PacingQueue)
    → (run p q (xs ++ ys)).1 ≡ (run p q xs).1 ++ (run p (run p q xs).0 ys).1
unfolding run
run_writes p [] ys q = refl
run_writes p (x ∷ xs) ys q =
    let (q', w) = react p q x in
    ap (λ ws. w ++ ws) (run_writes p xs ys q') ∙ sym (append_assoc w _ _)

process_timer_spurious : (q : PacingQueue) (p : Profile) → process_timer q false p ≡ (q, [])
unfolding process_timer
process_timer_spurious q p = refl

disarm-IsValid :
    (q : PacingQueue) → is_armed q.timer ≡ false → IsValid q → IsValid (record q { timer = none })
disarm-IsValid q e v = ground arith

window_zero : (q : PacingQueue) (n : ℕ) → n ≡ 0 → window q.buffer q.head n ≡ []
window_zero q zero e = refl
window_zero q (suc n) e = absurd (omega arith)

play-view_idle :
    (q : PacingQueue) → is_armed q.timer ≡ false → IsValid q → (view q, []) ≡ play (view q)
play-view_idle q e v = ground (arith, window_zero q q.count)

module _ (p : Profile) (sane : IsSane p) where
  pub react-IsValid : (q : PacingQueue) (x : Stimulus) → IsValid q → IsValid (react p q x).0
  unfolding react
  react-IsValid q (tick c now) v = enqueue_combo-IsValid p sane q c now v
  react-IsValid q fire v = elim (Bool-cases (is_armed q.timer)) [
    | inl e ↦ rw e (process_timer-IsValid p sane q v)
    | inr e ↦ rw (e, process_timer_spurious (record q { timer = none }) p) (disarm-IsValid q e v)
  ]
  react-IsValid q spurious v = rw (process_timer_spurious q p) v
  react-IsValid q (check now) v = check_damping-IsValid p sane q now v

  pub react_refines :
      (q : PacingQueue) (x : Stimulus)
      → IsValid q
      → let (q', w) = react p q x in (view q', w) ≡ respond p (view q) x
  unfolding react
  react_refines q (tick c now) v = ap (λ y. (y, [])) (enqueue_combo_refines q c now p v)
  react_refines q fire v = elim (Bool-cases (is_armed q.timer)) [
    | inl e ↦ rw e (process_timer_refines q p v)
    | inr e ↦ rw (e, process_timer_spurious (record q { timer = none }) p) (play-view_idle q e v)
  ]
  react_refines q spurious v = rw (process_timer_spurious q p)
  react_refines q (check now) v = check_damping_refines q now p

  pub run-IsValid : (xs : List Stimulus) (q : PacingQueue) → IsValid q → IsValid (run p q xs).0
  unfolding run
  run-IsValid [] q v = v
  run-IsValid (x ∷ xs) q v = run-IsValid xs (react p q x).0 (react-IsValid q x v)

  -- With a sane profile, no sequence of ticks, expiries, spurious wake-ups of the timer and checks
  -- tells a valid pacer from the player that it shows: the writes to the keyboard are the same, and so is what is held and waits.
  pub run_refines :
      (xs : List Stimulus) (q : PacingQueue)
      → IsValid q
      → let (q', w) = run p q xs in (view q', w) ≡ Player.run p (view q) xs
  unfolding run
  run_refines [] q v = refl
  run_refines (x ∷ xs) q v =
      rw (← react_refines q x v, ← run_refines xs (react p q x).0 (react-IsValid q x v))

  -- After any sequence of events from the start, and whichever writes but those of releases are lost,
  -- the keys that are down are those of the combination that the pacer holds; if it holds none, no key
  -- is down.
  pub run-HeldDown :
      (xs : List Stimulus)
      → let (q, writes) = run p fresh xs in
        Always (HeldDown (if q.release_pending then some q.held_combo else none)) writes all_up
  run-HeldDown xs =
      let e = run_refines xs fresh fresh-IsValid in
      subst (λ (o : Player × List Write). Always (HeldDown o.0.held) o.1 all_up) (sym e)
        (Player.run-HeldDown p xs idle all_up refl)

  -- Enough expiries finish everything: the ring is empty, nothing is held and the timer is off.
  pub run_drains :
      (q : PacingQueue) (n : ℕ)
      → IsValid q
      → 2 * q.count + 1 ≤ n
      → let q' = (run p q (replicate n fire)).0 in
        (q'.count ≡ 0) × (q'.release_pending ≡ false) × (is_armed q'.timer ≡ false)
  run_drains q n v h = ground (arith, valid.armed, idle_after)
    where
      q' : PacingQueue
      q' = (run p q (replicate n fire)).0

      valid : IsValid q'
      valid = run-IsValid (replicate n fire) q v

      phases : pending_phases (view q') ≡ pending_phases (view q) - n
      phases =
          ap (λ (o : Player × List Write). pending_phases o.0) (run_refines (replicate n fire) q v)
          ∙ Player.run_fires p n (view q)

      idle_after : (q'.count ≡ 0) × (q'.release_pending ≡ false)
      idle_after = ground (
        arith,
        phases,
        length-window q.buffer q.head q.count,
        length-window q'.buffer q'.head q'.count,
      )

  -- The writes of enough expiries are those that play what the pacer shows.
  pub run_plays :
      (q : PacingQueue) (n : ℕ)
      → IsValid q
      → 2 * q.count + 1 ≤ n
      → (run p q (replicate n fire)).1 ≡ all_played (view q)
  run_plays q n v h =
      let few : pending_phases (view q) ≤ n =
        ground (arith, length-window q.buffer q.head q.count) in
      ap (λ (o : Player × List Write). o.1) (run_refines (replicate n fire) q v)
      ∙ Player.run_fires_all p n (view q) few

  -- With a sane profile, after any sequence of events from the start: the writes of `2 * count + 1` or
  -- more further expiries are exactly the release of what is held, and then the press and the release
  -- of each combination that waits, the oldest first. Nothing waits then, the timer is off, and every
  -- key is up, whichever writes are lost but those that release keys.
  pub run_released :
      (xs : List Stimulus) (n : ℕ) (landed : List Write)
      → 2 * (run p fresh xs).0.count + 1 ≤ n
      → Lands (run p fresh (xs ++ replicate n fire)).1 landed
      → let (q, before) = run p fresh xs in
        let (q', writes) = run p fresh (xs ++ replicate n fire) in
        (writes ≡ before ++ all_played (view q))
        × (q'.count ≡ 0)
        × (q'.release_pending ≡ false)
        × (is_armed q'.timer ≡ false)
        × (apply_writes landed all_up ≡ all_up)
  run_released xs n landed h l = (played, drained.0, drained.1, drained.2, up)
    where
      valid : IsValid (run p fresh xs).0
      valid = run-IsValid xs fresh fresh-IsValid

      played :
          (run p fresh (xs ++ replicate n fire)).1
          ≡ (run p fresh xs).1 ++ all_played (view (run p fresh xs).0)
      played =
          run_writes p xs (replicate n fire) fresh
          ∙ ap (λ ws. (run p fresh xs).1 ++ ws) (run_plays (run p fresh xs).0 n valid h)

      drained :
          let q' = (run p fresh (xs ++ replicate n fire)).0 in
          (q'.count ≡ 0) × (q'.release_pending ≡ false) × (is_armed q'.timer ≡ false)
      drained =
          rw (run-append p xs (replicate n fire) fresh) (run_drains (run p fresh xs).0 n valid h)

      up : apply_writes landed all_up ≡ all_up
      up = rw drained.1 at (run-HeldDown (xs ++ replicate n fire) landed l)
