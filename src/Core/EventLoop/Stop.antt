-- ===== src/Core/EventLoop/Stop.antt =====
-- The signals that end the loop of core/event_loop.cpp.
use loginext.Core.EventLoop.Fatal.{on_signals-stop}
use loginext.Core.EventLoop.Steps.{
  dispatch_fds_device, dispatch_fds_other, turns_stopped, turns_running, later, awake,
}
use loginext.Core.EventLoop.{
  EventLoop, Request, Read, Ready, Wait, Round, Client, IsLawful, Status, drain, drained, call_io,
  other_fd, dispatch_fds, waited, turns, run_loop, on_signals, success, sync, again, interrupted,
  broken, ready, eintr, failed, exited, hangup, terminate, Signal,
}
use loginext.Prelude.{
  ℕ, ◌≡◌, refl, Bool, true, false, ◌||◌, Option, none, some, ℤ, eqb_ℤ, List, [], ◌∷◌, Bool-cases,
  inl, inr, arith,
}

-- Whether SIGINT or SIGTERM is among signals, and whether one comes in a round.
abbrev pub ends : List Signal → Bool
ends [] = false
ends (hangup ∷ xs) = ends xs
ends (terminate ∷ xs) = true

abbrev pub terminates : {E I R : Type 0} → List (Round E I R) → Bool
terminates [] = false
terminates (r ∷ rs) = ends r.signals || ends r.late || terminates rs

module _ {S E I R : Type 0} (c : Client S E I R) (v : IsLawful c) where
  drain-stop :
      (s : S) (fl : Bool) (rs : List (Read E)) → c.stop s ≡ true → c.stop (drain c s fl rs).0 ≡ true
  unfolding drain
  drain-stop s fl [] e = e
  drain-stop s fl (success ev ∷ rs) e =
      drain-stop (c.event_cb s ev) false rs (v.stop-event_cb s ev e)
  drain-stop s fl (sync ev ∷ rs) e = drain-stop s true rs e
  drain-stop s fl (again ∷ rs) e = e
  drain-stop s fl (interrupted ∷ rs) e = e
  drain-stop s fl (broken ∷ rs) e = e

  call_io-stop :
      (o : Option (S → ℤ → I → S)) (s : S) (fd : ℤ) (i : I)
      → c.io_cb ≡ o
      → c.stop s ≡ true
      → c.stop (call_io c o s fd i) ≡ true
  call_io-stop none s fd i h e = e
  call_io-stop (some f) s fd i h e = v.stop-io_cb f s fd i h e

  module _ (fd : ℤ) (loop : EventLoop) where
    drained-stop :
        (rest : S → S × List Request × ℕ) (code : ℕ) (o : S × List Request × Bool)
        → ((s : S) → c.stop s ≡ true → c.stop (rest s).0 ≡ true)
        → c.stop o.0 ≡ true
        → c.stop (drained c fd loop rest code o).0 ≡ true
    drained-stop rest code (s, es, false) h e = h s e
    drained-stop rest code (s, es, true) h e = v.stop_set s

    other_fd-stop :
        (s : S) (r : Ready E I) → c.stop s ≡ true → c.stop (other_fd c fd loop s r) ≡ true
    other_fd-stop s r e = elim (Bool-cases (eqb_ℤ r.fd loop.timer_fd)) [
      | inl t ↦ rw t (v.stop-timer_cb s r.answers e)
      | inr t ↦ rw t (call_io-stop c.io_cb s r.fd r.answers refl e)
    ]

    dispatch_fds-stop :
        (s : S) (code : ℕ) (rs : List (Ready E I))
        → c.stop s ≡ true
        → c.stop (dispatch_fds c fd loop s code rs).0 ≡ true
    unfolding dispatch_fds
    dispatch_fds-stop s code [] e = e
    dispatch_fds-stop s code (r ∷ rs) e = elim (Bool-cases (eqb_ℤ r.fd fd)) [
      | inl t ↦ rw (dispatch_fds_device c fd loop s code r rs t) (
          drained-stop (λ s'. dispatch_fds c fd loop s' code rs) code (drain c s false r.reads)
            (λ s' e'. dispatch_fds-stop s' code rs e') (drain-stop s false r.reads e))
      | inr t ↦
          rw (dispatch_fds_other c fd loop s code r rs t)
            (dispatch_fds-stop (other_fd c fd loop s r) code rs (other_fd-stop s r e))
    ]

    on_signals-ends :
        (s : S) (xs : List Signal) → ends xs ≡ true → c.stop (on_signals c fd loop s xs) ≡ true
    on_signals-ends s [] e = absurd (ground arith)
    on_signals-ends s (hangup ∷ xs) e = on_signals-ends (c.set_reload true s) xs e
    on_signals-ends s (terminate ∷ xs) e = on_signals-stop c fd loop v _ xs (v.stop_set s)

    abbrev HasExited : S × List Request × Status → Type 0
    HasExited o = (code : ℕ) × (o.2 ≡ exited code)

    -- The turns behind a wait end if they do from any state, or from every one that is stopped
    -- when the wait begins in such a state.
    waited-HasExited :
        (rest : S → ℕ → S × List Request × Status) (s : S) (code : ℕ) (w : Wait E I) (b : Bool)
        → (b ≡ true → c.stop s ≡ true)
        → ((s : S) (code : ℕ) → (b ≡ true → c.stop s ≡ true) → HasExited (rest s code))
        → HasExited (waited c fd loop rest s code w)
    waited-HasExited rest s code eintr b e h = h s code e
    waited-HasExited rest s code failed b e h = (code, refl)
    waited-HasExited rest s code (ready rs) b e h =
        h (dispatch_fds c fd loop s code rs).0 (dispatch_fds c fd loop s code rs).2
          (λ t. dispatch_fds-stop s code rs (e t))

    turns-HasExited :
        (s : S) (code : ℕ) (rs : List (Round E I R))
        → terminates rs ≡ true
        → HasExited (turns c fd loop s code rs)
    turns-HasExited s code [] t = absurd (ground arith)
    turns-HasExited s code (r ∷ rs) t = elim (Bool-cases (c.stop s)) [
      | inl e ↦ rw (turns_stopped c fd loop s code (r ∷ rs) e) (code, refl)
      | inr e ↦ rw (turns_running c fd loop s code r rs e) (
          waited-HasExited (later c fd loop s code r rs) (awake c fd loop s code r) code r.wait
            (ends r.signals) (on_signals-ends _ r.signals)
            (λ s' code' h. elim (Bool-cases (ends r.signals || ends r.late)) [
              | inl b ↦
                  let stops = on_signals_end s' r.signals r.late h b in
                  rw (turns_stopped c fd loop (on_signals c fd loop s' r.late) code' rs stops)
                    (code', refl)
              | inr b ↦ turns-HasExited (on_signals c fd loop s' r.late) code' rs (ground arith)
            ]))
    ]
      where
        on_signals_end :
            (s' : S) (xs ys : List Signal)
            → (ends xs ≡ true → c.stop s' ≡ true)
            → (ends xs || ends ys) ≡ true
            → c.stop (on_signals c fd loop s' ys) ≡ true
        on_signals_end s' xs ys h b = elim (Bool-cases (ends xs)) [
          | inl x ↦ on_signals-stop c fd loop v s' ys (h x)
          | inr x ↦ on_signals-ends s' ys (ground arith)
        ]

    -- For lawful callbacks: if SIGINT or SIGTERM comes in any round, before the wait, during it or while
    -- its descriptors are worked off, the loop does not wait again after the round, but has returned.
    pub run_loop-terminates :
        (s : S) (rs : List (Round E I R))
        → terminates rs ≡ true
        → (code : ℕ) × ((run_loop c fd loop s rs).2 ≡ exited code)
    unfolding run_loop
    run_loop-terminates s rs t = turns-HasExited s 0 rs t
