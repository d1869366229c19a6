-- ===== src/App/Startup/Released.antt =====
-- What `main` holds at its end, and how it finds the device.
use loginext.App.Startup.{
  Held, nothing, Answers, run_timer, run_loop, run_pacer, run_emitter, run_device, Search, retry,
  find, searched, run_main, valid, missing, interrupted,
}
use loginext.Prelude.{
  ℕ, zero, suc, ◌+◌, ◌≡◌, ◌<◌, subst, Bool, true, false, ◌&&◌, Bool-cases, inl, inr, arith,
}

-- Nothing but the log, the socket, and what the stage has taken is held.
module _ (a : Answers) where
  abbrev base : Held
  base = record nothing { log = true; ipc = a.ipc_ok }

  run_timer_lem :
      run_timer a (record base { device = true; emitter = true; pacer = true; loop = true })
      ≡ (nothing, a.timer_ok && a.loop_rc)
  unfolding run_timer
  run_timer_lem = ground arith

  run_loop_lem :
      run_loop a (record base { device = true; emitter = true; pacer = true })
      ≡ (nothing, a.loop_ok && a.timer_ok && a.loop_rc)
  unfolding run_loop
  run_loop_lem = ground (arith, run_timer_lem)

  run_pacer_lem :
      run_pacer a (record base { device = true; emitter = true })
      ≡ (nothing, a.pacer_ok && a.loop_ok && a.timer_ok && a.loop_rc)
  unfolding run_pacer
  run_pacer_lem = ground (arith, run_loop_lem)

  run_emitter_lem :
      run_emitter a (record base { device = true })
      ≡ (nothing, a.emitter_ok && a.pacer_ok && a.loop_ok && a.timer_ok && a.loop_rc)
  unfolding run_emitter
  run_emitter_lem = ground (arith, run_pacer_lem)

  abbrev pub all_ok : Bool
  all_ok = a.grab_ok && a.emitter_ok && a.pacer_ok && a.loop_ok && a.timer_ok && a.loop_rc

  run_device_lem : run_device a (record base { device = true }) ≡ (nothing, all_ok)
  unfolding run_device
  run_device_lem = ground (arith, run_emitter_lem)

  abbrev pub is_found : Search → Bool
  is_found valid = true
  is_found missing = false
  is_found interrupted = false

  searched_lem : (x : Search) → searched a base x ≡ (nothing, is_found x && all_ok)
  unfolding searched
  searched_lem valid = run_device_lem
  searched_lem missing = ground arith
  searched_lem interrupted = ground arith

  -- Whichever step of `main` fails, and also when none does, everything that was taken is released
  -- at its end; it exits with success exactly if the device is found, each step from the grab to the
  -- timer succeeds, and the event loop ends without an error.
  pub run_main_released : run_main a ≡ (nothing, is_found (find a) && all_ok)
  unfolding run_main
  run_main_released = searched_lem (find a)

retry_valid :
    (a : Answers) (n k d : ℕ)
    → ((i : ℕ) → a.stopped i ≡ false)
    → d < n
    → a.found (k + d) ≡ true
    → retry a n k ≡ valid
unfolding retry
retry_valid a zero k d quiet lt e = absurd (omega arith)
retry_valid a (suc n) k zero quiet lt e =
    let here : k + 0 ≡ k = omega arith in
    let found : a.found k ≡ true = subst (λ j. a.found j ≡ true) here e in rw (quiet k, found)
retry_valid a (suc n) k (suc d) quiet lt e = elim (Bool-cases (a.found k)) [
  | inl f ↦ rw (quiet k, f)
  | inr f ↦
      let next : k + suc d ≡ k + 1 + d = omega arith in
      rw (quiet k, f)
        (retry_valid a n (k + 1) d quiet (omega arith) (subst (λ j. a.found j ≡ true) next e))
]

-- If no signal comes, the device is found when it is there at any of the ten attempts.
pub find_valid :
    (a : Answers) (d : ℕ)
    → ((i : ℕ) → a.stopped i ≡ false)
    → d < 10
    → a.found d ≡ true
    → find a ≡ valid
unfolding find
find_valid a zero quiet lt e = rw e
find_valid a (suc d) quiet lt e = elim (Bool-cases (a.found 0)) [
  | inl f ↦ rw f
  | inr f ↦
      let next : suc d ≡ 1 + d = omega arith in
      rw f (retry_valid a 9 1 d quiet (omega arith) (subst (λ j. a.found j ≡ true) next e))
]
