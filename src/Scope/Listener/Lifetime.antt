-- ===== src/Scope/Listener/Lifetime.antt =====
-- The thread and the pipe of scope/listener.cpp, from `start` to `stop`.
use loginext.Scope.Listener.{
  Listener, Request, pipe, create_thread, join_thread, wake, close, Answers, start_thread, start,
  stop_listener,
}
use loginext.Prelude.{
  after, when, ◌≡◌, refl, Bool, true, false, not, if◌then◌else◌, Option, none, some, ℤ, eqb_ℤ,
  eqb_ℤ_refl, is_negative, List, [], ◌++◌,
}

-- The two ends of the pipe, and whether the thread runs.
pub record Held : Type 0 where
  pub reader : Option ℤ
  pub writer : Option ℤ
  pub thread : Bool

abbrev pub nothing : Held
nothing = record { reader = none; writer = none; thread = false }

abbrev is_end : Option ℤ → ℤ → Bool
is_end none fd = false
is_end (some x) fd = eqb_ℤ x fd

-- An end is closed only if it is open, and when the thread does not run.
abbrev close_one : ℤ → Held → Option Held
close_one fd h =
    if is_end h.reader fd
    then some (record h { reader = none })
    else when (is_end h.writer fd) (record h { writer = none })

abbrev pub apply : Request → Held → Option Held
apply (pipe r w) h = some (record h { reader = some r; writer = some w })
apply create_thread h = when (not h.thread) (record h { thread = true })
apply join_thread h = when h.thread (record h { thread = false })
apply wake h = when h.thread h
apply (close fd) h = if h.thread then none else close_one fd h

-- What is left when a listener that was not started is started and stopped.
abbrev Ends : Listener × Bool × List Request → Type 0
Ends (l, ok, rs) =
    let (l', rs') = stop_listener l in
    (after apply (rs ++ rs') nothing ≡ some nothing) × (l'.started ≡ false)

thread-Ends :
    (l : Listener) (r w : ℤ) (created : Bool)
    → l.started ≡ false
    → is_negative r ≡ false
    → is_negative w ≡ false
    → Ends (start_thread l r w created)
unfolding stop_listener
thread-Ends l r w true n nr nw = (rw (nw, nr, eqb_ℤ_refl r, eqb_ℤ_refl w) refl, refl)
thread-Ends l r w false n nr nw = rw n (rw (eqb_ℤ_refl r, eqb_ℤ_refl w) refl, refl)

none-Ends : (l : Listener) → l.started ≡ false → Ends (l, false, [])
unfolding stop_listener
none-Ends l n = rw n (refl, refl)

-- Whether the ends of a pipe are descriptors.
abbrev pub IsPipe : Option (ℤ × ℤ) → Type 0
IsPipe none = Unit
IsPipe (some (r, w)) = (is_negative r ≡ false) × (is_negative w ≡ false)

-- Whether `pipe2` and `pthread_create` succeed or not: when a listener is started and stopped, the
-- thread has been woken and joined before an end of the pipe is closed, each end was closed exactly
-- once, and the listener is not started.
pub stop_listener-Ends :
    (l : Listener) (a : Answers)
    → l.started ≡ false
    → IsPipe a.pipe
    → let (l', ok, rs) = start l a in
      let (l'', rs') = stop_listener l' in
      (after apply (rs ++ rs') nothing ≡ some nothing) × (l''.started ≡ false)
unfolding start
stop_listener-Ends l a n p = of_pipe a.pipe p
  where
    of_pipe :
        (o : Option (ℤ × ℤ))
        → IsPipe o
        → Ends (elim o as (λ _. Listener × Bool × List Request) [
          | none ↦ (l, false, [])
          | some (r, w) ↦ start_thread l r w a.created
        ])
    of_pipe none p = none-Ends l n
    of_pipe (some (r, w)) p = thread-Ends l r w a.created n p.0 p.1
