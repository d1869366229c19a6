-- ===== src/Core/EventLoop/Fatal.antt =====
-- A fatal error of the device in core/event_loop.cpp.
use loginext.Core.EventLoop.Exit.{is_fatal, loses}
use loginext.Core.EventLoop.Steps.{
  dispatch_fds_device, dispatch_fds_other, turns_stopped, turns_running, later, awake,
}
use loginext.Core.EventLoop.{
  EventLoop, Request, Read, Ready, Round, Client, IsLawful, Status, drain, drained, other_fd,
  dispatch_fds, run_loop, on_signals, success, sync, again, interrupted, broken, ready, exited,
  hangup, terminate, Signal,
}
use loginext.Prelude.{
  ℕ, ◌≡◌, refl, sym, ap, ◌∙◌, Bool, true, false, ℤ, eqb_ℤ, List, [], ◌∷◌, ◌++◌, Bool-cases, inl,
  inr, arith,
}

-- Signals do not lower the flag that stops the loop.
pub on_signals-stop :
    {S E I R : Type 0} (c : Client S E I R) (fd : ℤ) (loop : EventLoop)
    → IsLawful c
    → (s : S) (xs : List Signal) → c.stop s ≡ true
    → c.stop (on_signals c fd loop s xs) ≡ true
on_signals-stop c fd loop v s [] e = e
on_signals-stop c fd loop v s (hangup ∷ xs) e =
    on_signals-stop c fd loop v _ xs (v.stop-set_reload true s ∙ e)
on_signals-stop c fd loop v s (terminate ∷ xs) e = on_signals-stop c fd loop v _ xs (v.stop_set s)

module _ {S E I R : Type 0} (c : Client S E I R) (v : IsLawful c) (fd : ℤ) (loop : EventLoop) where
  drain_fatal : (s : S) (fl : Bool) (rs : List (Read E)) → (drain c s fl rs).2 ≡ is_fatal rs
  unfolding drain
  drain_fatal s fl [] = refl
  drain_fatal s fl (success ev ∷ rs) = drain_fatal (c.event_cb s ev) false rs
  drain_fatal s fl (sync ev ∷ rs) = drain_fatal s true rs
  drain_fatal s fl (again ∷ rs) = refl
  drain_fatal s fl (interrupted ∷ rs) = refl
  drain_fatal s fl (broken ∷ rs) = refl

  -- A batch that loses the device stops the loop with code 1, and the descriptors behind it do not
  -- matter.
  abbrev Cut : (S → S × List Request × ℕ) → (S → S × List Request × ℕ) → S → Type 0
  Cut f g s = (f s ≡ g s) × (c.stop (g s).0 ≡ true) × ((g s).2 ≡ 1)

  drained-Cut :
      (f g : S → S × List Request × ℕ) (code : ℕ) (o : S × List Request × Bool) (b : Bool)
      → o.2 ≡ b
      → ((s : S) → b ≡ false → Cut f g s)
      → Cut (λ _. drained c fd loop f code o) (λ _. drained c fd loop g code o) o.0
  drained-Cut f g code (s, es, true) b e h = (refl, v.stop_set s, refl)
  drained-Cut f g code (s, es, false) b e h =
      let (same, stops, one) = h s (sym e) in
      (ap (λ (o : S × List Request × ℕ). (o.0, es ++ o.1, o.2)) same, stops, one)

  dispatch_fds-Cut :
      (s : S) (code : ℕ) (bs rs : List (Ready E I))
      → loses fd bs ≡ true
      → Cut
          (λ s. dispatch_fds c fd loop s code (bs ++ rs))
          (λ s. dispatch_fds c fd loop s code bs)
          s
  dispatch_fds-Cut s code [] rs l = absurd (ground arith)
  dispatch_fds-Cut s code (b ∷ bs) rs l = elim (Bool-cases (eqb_ℤ b.fd fd)) [
    | inl e ↦
        rw
          (
            dispatch_fds_device c fd loop s code b (bs ++ rs) e,
            dispatch_fds_device c fd loop s code b bs e,
          )
          (drained-Cut (λ s'. dispatch_fds c fd loop s' code (bs ++ rs))
            (λ s'. dispatch_fds c fd loop s' code bs) code (drain c s false b.reads)
            (is_fatal b.reads) (drain_fatal s false b.reads)
            (λ s' n. dispatch_fds-Cut s' code bs rs (ground arith)))
    | inr e ↦
        rw
          (
            dispatch_fds_other c fd loop s code b (bs ++ rs) e,
            dispatch_fds_other c fd loop s code b bs e,
          )
          (dispatch_fds-Cut (other_fd c fd loop s b) code bs rs (ground arith))
  ]

  abbrev joined : S × List Request × ℕ → S × List Request × Status → S × List Request × Status
  joined o p = (p.0, o.1 ++ p.1, p.2)

  waited_cut :
      (r : Round E I R) (s : S) (code : ℕ) (o o' : S × List Request × ℕ)
      (rounds : List (Round E I R))
      → o ≡ o'
      → c.stop o'.0 ≡ true
      → o'.2 ≡ 1
      → let p = later c fd loop s code r rounds o.0 o.2 in
        let p' = later c fd loop s code r [] o'.0 o'.2 in
        (joined o p ≡ joined o' p') × (p'.2 ≡ exited 1)
  waited_cut r s code o o' rounds same stops one =
      let e = on_signals-stop c fd loop v o'.0 r.late stops in
      rw
        (
          same,
          turns_stopped c fd loop (on_signals c fd loop o'.0 r.late) o'.2 rounds e,
          turns_stopped c fd loop (on_signals c fd loop o'.0 r.late) o'.2 [] e,
        )
        (refl, ap exited one)

  -- For lawful callbacks, a loop that is not stopped, and a round whose batch of ready descriptors has
  -- the device with answers that end in a fatal error: the loop returns 1, and the descriptors behind
  -- the device and all later rounds have no effect.
  pub run_loop_broken :
      (s : S) (r : Round E I R) (bs rs : List (Ready E I)) (rounds : List (Round E I R))
      → c.stop s ≡ false
      → loses fd bs ≡ true
      → let stopped = run_loop c fd loop s (record r { wait = ready bs } ∷ []) in
        (run_loop c fd loop s (record r { wait = ready (bs ++ rs) } ∷ rounds) ≡ stopped)
        × (stopped.2 ≡ exited 1)
  unfolding run_loop
  run_loop_broken s r bs rs rounds e l =
      let s' = awake c fd loop s 0 r in
      let (same, stops, one) = dispatch_fds-Cut s' 0 bs rs l in
      rw
        (
          turns_running c fd loop s 0 (record r { wait = ready (bs ++ rs) }) rounds e,
          turns_running c fd loop s 0 (record r { wait = ready bs }) [] e,
        )
        (waited_cut r s 0 (dispatch_fds c fd loop s' 0 (bs ++ rs)) (dispatch_fds c fd loop s' 0 bs)
          rounds same stops one)
