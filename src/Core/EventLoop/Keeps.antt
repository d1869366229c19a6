-- ===== src/Core/EventLoop/Keeps.antt =====
-- What the callbacks, the flags and the signals keep, the loop keeps.
use loginext.Core.EventLoop.Steps.{
  dispatch_fds_device, dispatch_fds_other, turns_stopped, turns_running, later, awake,
}
use loginext.Core.EventLoop.{
  EventLoop, Request, Read, Ready, Wait, Signal, Round, Client, Status, drain, call_io, drained,
  other_fd, dispatch_fds, on_signals, take_reload, waited, turns, run_loop, hangup, terminate,
  success, sync, again, interrupted, broken, ready, eintr, failed,
}
use loginext.Prelude.{ℕ, Bool, true, false, ℤ, eqb_ℤ, List, [], ◌∷◌, Bool-cases, inl, inr}

-- A predicate that every operation of a client keeps
pub record Keeps {S E I R : Type 0} (c : Client S E I R) (P : S → Type 0) : Type 0 where
  pub set_stop : (s : S) → P s → P (c.set_stop s)
  pub set_reload : (b : Bool) (s : S) → P s → P (c.set_reload b s)
  pub event_cb : (s : S) (e : E) → P s → P (c.event_cb s e)
  pub timer_cb : (s : S) (i : I) → P s → P (c.timer_cb s i)
  pub reload_cb : (s : S) (r : R) → P s → P (c.reload_cb s r)
  pub io_cb : (s : S) (fd : ℤ) (i : I) → P s → P (call_io c c.io_cb s fd i)

module _ {S E I R : Type 0} (c : Client S E I R) (P : S → Type 0) (k : Keeps c P) where
  drain_keeps : (s : S) (flags : Bool) (rs : List (Read E)) → P s → P (drain c s flags rs).0
  unfolding drain
  drain_keeps s flags [] p = p
  drain_keeps s flags (success ev ∷ rs) p =
      drain_keeps (c.event_cb s ev) false rs (k.event_cb s ev p)
  drain_keeps s flags (sync ev ∷ rs) p = drain_keeps s true rs p
  drain_keeps s flags (again ∷ rs) p = p
  drain_keeps s flags (interrupted ∷ rs) p = p
  drain_keeps s flags (broken ∷ rs) p = p

  on_signals_keeps :
      (fd : ℤ) (loop : EventLoop) (s : S) (xs : List Signal) → P s → P (on_signals c fd loop s xs)
  on_signals_keeps fd loop s [] p = p
  on_signals_keeps fd loop s (hangup ∷ xs) p =
      on_signals_keeps fd loop (c.set_reload true s) xs (k.set_reload true s p)
  on_signals_keeps fd loop s (terminate ∷ xs) p =
      on_signals_keeps fd loop (c.set_stop s) xs (k.set_stop s p)

  module _ (fd : ℤ) (loop : EventLoop) where
    drained_keeps :
        (rest : S → S × List Request × ℕ) (code : ℕ) (o : S × List Request × Bool)
        → ((s : S) → P s → P (rest s).0)
        → P o.0
        → P (drained c fd loop rest code o).0
    drained_keeps rest code (s, es, false) h p = h s p
    drained_keeps rest code (s, es, true) h p = k.set_stop s p

    other_fd_keeps : (s : S) (r : Ready E I) → P s → P (other_fd c fd loop s r)
    other_fd_keeps s r p = elim (Bool-cases (eqb_ℤ r.fd loop.timer_fd)) [
      | inl e ↦ rw e (k.timer_cb s r.answers p)
      | inr e ↦ rw e (k.io_cb s r.fd r.answers p)
    ]

    dispatch_fds_keeps :
        (s : S) (code : ℕ) (rs : List (Ready E I)) → P s → P (dispatch_fds c fd loop s code rs).0
    unfolding dispatch_fds
    dispatch_fds_keeps s code [] p = p
    dispatch_fds_keeps s code (r ∷ rs) p = elim (Bool-cases (eqb_ℤ r.fd fd)) [
      | inl e ↦ rw (dispatch_fds_device c fd loop s code r rs e) (
          drained_keeps (λ s'. dispatch_fds c fd loop s' code rs) code (drain c s false r.reads)
            (λ s' p'. dispatch_fds_keeps s' code rs p') (drain_keeps s false r.reads p))
      | inr e ↦
          rw (dispatch_fds_other c fd loop s code r rs e)
            (dispatch_fds_keeps (other_fd c fd loop s r) code rs (other_fd_keeps s r p))
    ]

    take_reload_keeps : (s : S) (files : R) → P s → P (take_reload c fd loop s files)
    unfolding take_reload
    take_reload_keeps s files p = elim (Bool-cases (c.reload s)) [
      | inl e ↦ rw e (k.reload_cb _ files (k.set_reload false s p))
      | inr e ↦ rw e p
    ]

    waited_keeps :
        (rest : S → ℕ → S × List Request × Status) (s : S) (code : ℕ) (w : Wait E I)
        → ((s : S) (code : ℕ) → P s → P (rest s code).0)
        → P s
        → P (waited c fd loop rest s code w).0
    waited_keeps rest s code eintr h p = h s code p
    waited_keeps rest s code failed h p = p
    waited_keeps rest s code (ready rs) h p =
        h (dispatch_fds c fd loop s code rs).0 (dispatch_fds c fd loop s code rs).2
          (dispatch_fds_keeps s code rs p)

    turns_keeps :
        (s : S) (code : ℕ) (rs : List (Round E I R)) → P s → P (turns c fd loop s code rs).0
    unfolding turns
    turns_keeps s code [] p = p
    turns_keeps s code (r ∷ rs) p = elim (Bool-cases (c.stop s)) [
      | inl e ↦ rw (turns_stopped c fd loop s code (r ∷ rs) e) p
      | inr e ↦ rw (turns_running c fd loop s code r rs e) (
          waited_keeps (later c fd loop s code r rs) (awake c fd loop s code r) code r.wait
            (λ s' code' p'.
              turns_keeps (on_signals c fd loop s' r.late) code' rs
                (on_signals_keeps fd loop s' r.late p'))
            (on_signals_keeps fd loop _ r.signals (take_reload_keeps s r.files p)))
    ]

    -- Over any answers of the kernel and of libevdev, a predicate that the callbacks and the flags keep
    -- holds where the loop stands.
    pub run_loop_keeps : (s : S) (rs : List (Round E I R)) → P s → P (run_loop c fd loop s rs).0
    unfolding run_loop
    run_loop_keeps s rs p = turns_keeps s 0 rs p
