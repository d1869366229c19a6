-- ===== src/Core/EventLoop/Exit.antt =====
-- How `run_loop` of core/event_loop.cpp ends.
use loginext.Core.EventLoop.Steps.{
  dispatch_fds_device, dispatch_fds_other, turns_stopped, turns_running, later, awake,
}
use loginext.Core.EventLoop.{
  EventLoop, Request, Read, Ready, Wait, Round, Client, Status, drain, drained, other_fd,
  dispatch_fds, on_signals, waited, turns, run_loop, success, sync, again, interrupted, broken,
  ready, eintr, failed, epoll_add, epoll_del, close, next_event, waiting, exited,
}
use loginext.Prelude.{
  ℕ, ◌≡◌, refl, Bool, true, false, ◌&&◌, ◌||◌, ℤ, eqb_ℤ, List, [], ◌∷◌, ◌++◌, ◌⊎◌, if◌then◌else◌,
  Bool-cases, inl, inr,
}

-- Whether a descriptor is taken out of the epoll instance.
abbrev pub removes : List Request → Bool
removes [] = false
removes (epoll_del fd ∷ es) = true
removes (epoll_add fd ∷ es) = removes es
removes (close fd ∷ es) = removes es
removes (next_event flags ∷ es) = removes es

pub removes-append : (es fs : List Request) → removes (es ++ fs) ≡ (removes es || removes fs)
removes-append [] fs = refl
removes-append (epoll_del fd ∷ es) fs = refl
removes-append (epoll_add fd ∷ es) fs = removes-append es fs
removes-append (close fd ∷ es) fs = removes-append es fs
removes-append (next_event flags ∷ es) fs = removes-append es fs

-- Whether the answers of libevdev end in an error that is fatal.
abbrev pub is_fatal : {E : Type 0} → List (Read E) → Bool
is_fatal [] = false
is_fatal (success ev ∷ rs) = is_fatal rs
is_fatal (sync ev ∷ rs) = is_fatal rs
is_fatal (again ∷ rs) = false
is_fatal (interrupted ∷ rs) = false
is_fatal (broken ∷ rs) = true

-- Whether a batch of descriptors has the device with such answers.
abbrev pub loses : {E I : Type 0} → ℤ → List (Ready E I) → Bool
loses fd [] = false
loses fd (r ∷ rs) = (eqb_ℤ r.fd fd && is_fatal r.reads) || loses fd rs

module _ {S E I R : Type 0} (c : Client S E I R) where
  drain_fatal : (s : S) (fl : Bool) (rs : List (Read E)) → (drain c s fl rs).2 ≡ is_fatal rs
  unfolding drain
  drain_fatal s fl [] = refl
  drain_fatal s fl (success ev ∷ rs) = drain_fatal (c.event_cb s ev) false rs
  drain_fatal s fl (sync ev ∷ rs) = drain_fatal s true rs
  drain_fatal s fl (again ∷ rs) = refl
  drain_fatal s fl (interrupted ∷ rs) = refl
  drain_fatal s fl (broken ∷ rs) = refl

  drain-removes : (s : S) (fl : Bool) (rs : List (Read E)) → removes (drain c s fl rs).1 ≡ false
  unfolding drain
  drain-removes s fl [] = refl
  drain-removes s fl (success ev ∷ rs) = drain-removes (c.event_cb s ev) false rs
  drain-removes s fl (sync ev ∷ rs) = drain-removes s true rs
  drain-removes s fl (again ∷ rs) = refl
  drain-removes s fl (interrupted ∷ rs) = refl
  drain-removes s fl (broken ∷ rs) = refl

  module _ (fd : ℤ) (loop : EventLoop) where
    -- The code of an outcome is 1 if a descriptor was removed, and otherwise that from before.
    abbrev IsCoded : ℕ → S × List Request × ℕ → Type 0
    IsCoded code o = o.2 ≡ (if removes o.1 then 1 else code)

    drained-IsCoded :
        (rest : S → S × List Request × ℕ) (code : ℕ) (o : S × List Request × Bool)
        → removes o.1 ≡ false
        → ((s : S) → IsCoded code (rest s))
        → IsCoded code (drained c fd loop rest code o)
    drained-IsCoded rest code (s, es, false) n h = rw (removes-append es (rest s).1, n) (h s)
    drained-IsCoded rest code (s, es, true) n h = rw (removes-append es (epoll_del fd ∷ []), n) refl

    dispatch_fds-IsCoded :
        (s : S) (code : ℕ) (rs : List (Ready E I)) → IsCoded code (dispatch_fds c fd loop s code rs)
    unfolding dispatch_fds
    dispatch_fds-IsCoded s code [] = refl
    dispatch_fds-IsCoded s code (r ∷ rs) = elim (Bool-cases (eqb_ℤ r.fd fd)) [
      | inl e ↦ rw (dispatch_fds_device c fd loop s code r rs e) (
          drained-IsCoded (λ s'. dispatch_fds c fd loop s' code rs) code (drain c s false r.reads)
            (drain-removes s false r.reads) (λ s'. dispatch_fds-IsCoded s' code rs))
      | inr e ↦
          rw (dispatch_fds_other c fd loop s code r rs e)
            (dispatch_fds-IsCoded (other_fd c fd loop s r) code rs)
    ]

    -- The same of a status.
    abbrev EndsIn : ℕ → S × List Request × Status → Type 0
    EndsIn code o = (o.2 ≡ waiting) ⊎ (o.2 ≡ exited (if removes o.1 then 1 else code))

    ends_after :
        (code : ℕ) (o : S × List Request × ℕ) (p : S × List Request × Status)
        → IsCoded code o
        → EndsIn o.2 p
        → EndsIn code (p.0, o.1 ++ p.1, p.2)
    ends_after code o p h (inl e) = inl e
    ends_after code o p h (inr e) =
        inr (rw (removes-append o.1 p.1, e, h) (pick (removes o.1) (removes p.1)))
      where
        pick :
            (a b : Bool)
            → exited (if b then 1 else if a then 1 else code) ≡ exited (if a || b then 1 else code)
        pick true true = refl
        pick true false = refl
        pick false true = refl
        pick false false = refl

    waited-EndsIn :
        (rest : S → ℕ → S × List Request × Status) (s : S) (code : ℕ) (w : Wait E I)
        → ((s : S) (code : ℕ) → EndsIn code (rest s code))
        → EndsIn code (waited c fd loop rest s code w)
    waited-EndsIn rest s code eintr h = h s code
    waited-EndsIn rest s code failed h = inr refl
    waited-EndsIn rest s code (ready rs) h =
        let o = dispatch_fds c fd loop s code rs in
        ends_after code o (rest o.0 o.2) (dispatch_fds-IsCoded s code rs) (h o.0 o.2)

    turns-EndsIn :
        (s : S) (code : ℕ) (rs : List (Round E I R)) → EndsIn code (turns c fd loop s code rs)
    unfolding turns
    turns-EndsIn s code [] = elim (Bool-cases (c.stop s)) [
      | inl e ↦ rw e (inr refl)
      | inr e ↦ rw e (inl refl)
    ]
    turns-EndsIn s code (r ∷ rs) = elim (Bool-cases (c.stop s)) [
      | inl e ↦ rw (turns_stopped c fd loop s code (r ∷ rs) e) (inr refl)
      | inr e ↦ rw (turns_running c fd loop s code r rs e) (
          waited-EndsIn (later c fd loop s code r rs) (awake c fd loop s code r) code r.wait
            (λ s' code'. turns-EndsIn (on_signals c fd loop s' r.late) code' rs))
    ]

    -- For any callbacks and any answers of the kernel and of libevdev: the loop is still waiting, or it
    -- has returned 1 exactly if it took the device out of the epoll instance, and 0 otherwise.
    pub run_loop_code :
        (s : S) (rs : List (Round E I R))
        → let (s', es, status) = run_loop c fd loop s rs in
          (status ≡ waiting) ⊎ (status ≡ exited (if removes es then 1 else 0))
    unfolding run_loop
    run_loop_code s rs = turns-EndsIn s 0 rs
