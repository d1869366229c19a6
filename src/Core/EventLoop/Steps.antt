-- ===== src/Core/EventLoop/Steps.antt =====
-- One step of the loops of core/event_loop.cpp, by the outcome of its test.
use loginext.Core.EventLoop.{
  EventLoop, Request, Ready, Round, Client, Status, drain, drained, other_fd, dispatch_fds,
  on_signals, take_reload, waited, turns,
}
use loginext.Prelude.{ℕ, ◌≡◌, true, false, ℤ, eqb_ℤ, List, [], ◌∷◌}

module _ {S E I R : Type 0} (c : Client S E I R) (fd : ℤ) (loop : EventLoop) (s : S)
    (code : ℕ) where
  pub dispatch_fds_device :
      (r : Ready E I) (rs : List (Ready E I))
      → eqb_ℤ r.fd fd ≡ true
      → dispatch_fds c fd loop s code (r ∷ rs)
        ≡ drained c fd loop (λ s'. dispatch_fds c fd loop s' code rs) code (drain c s false r.reads)
  unfolding dispatch_fds
  dispatch_fds_device r rs e = rw (dispatch_fds, e)

  pub dispatch_fds_other :
      (r : Ready E I) (rs : List (Ready E I))
      → eqb_ℤ r.fd fd ≡ false
      → dispatch_fds c fd loop s code (r ∷ rs)
        ≡ dispatch_fds c fd loop (other_fd c fd loop s r) code rs
  unfolding dispatch_fds
  dispatch_fds_other r rs e = rw (dispatch_fds, e)

  pub turns_stopped :
      (rs : List (Round E I R))
      → c.stop s ≡ true
      → turns c fd loop s code rs ≡ (s, [], Status.exited code)
  unfolding turns
  turns_stopped [] e = rw (turns, e)
  turns_stopped (r ∷ rs) e = rw (turns, e)

  -- The turns behind a round.
  abbrev pub later : Round E I R → List (Round E I R) → S → ℕ → S × List Request × Status
  later r rs s' code' = turns c fd loop (on_signals c fd loop s' r.late) code' rs

  -- The state in which the round's wait returns.
  abbrev pub awake : Round E I R → S
  awake r = on_signals c fd loop (take_reload c fd loop s r.files) r.signals

  pub turns_running :
      (r : Round E I R) (rs : List (Round E I R))
      → c.stop s ≡ false
      → turns c fd loop s code (r ∷ rs) ≡ waited c fd loop (later r rs) (awake r) code r.wait
  unfolding turns
  turns_running r rs e = rw (turns, e)
