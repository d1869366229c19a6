-- ===== src/Scope/Listener/Thread/Stops.antt =====
-- `thread_main` does not poll for ever.
use loginext.Env.{Env}
use loginext.Scope.Listener.Thread.{
  Attempt, Tried, stopped, ran, retry, attempt, IdleRead, Place, polling, returned, idling,
  in_backend, next_attempt, attempts, thread_main, probe_max_attempts,
}
use loginext.Scope.Listener.{Listener}
use loginext.Prelude.{
  ℕ, zero, suc, ◌≡◌, refl, Bool, true, false, ◌||◌, leb, List, [], ◌∷◌, length, Bool-cases, inl,
  inr, arith,
}

-- Whether the flag is up at the start of one of the attempts.
abbrev pub any_stop : List Attempt → Bool
any_stop [] = false
any_stop (a ∷ as') = a.stop || any_stop as'

abbrev pub is_polling : Place → Bool
is_polling polling = true
is_polling returned = false
is_polling (idling b) = false
is_polling (in_backend b) = false

attempt_stopped :
    (env : Env) (a : Attempt) (l : Listener) → a.stop ≡ true → attempt env a l ≡ stopped l
unfolding attempt
attempt_stopped env a l e = rw e refl

next_attempt_polling :
    (rest : Listener → Listener × Place) (t : Tried)
    → ((l : Listener) → is_polling (rest l).1 ≡ false)
    → is_polling (next_attempt rest t).1 ≡ false
next_attempt_polling rest (stopped l) h = refl
next_attempt_polling rest (ran b l) h = refl
next_attempt_polling rest (retry l) h = h l

attempts_end :
    (env : Env) (left : ℕ) (tries : List Attempt) (idles : List (Bool × IdleRead)) (l : Listener)
    → (any_stop tries || leb left (length tries)) ≡ true
    → is_polling (attempts env left tries idles l).1 ≡ false
unfolding attempts
attempts_end env zero tries idles l h = refl
attempts_end env (suc left) [] idles l h = absurd (ground arith)
attempts_end env (suc left) (a ∷ tries) idles l h = elim (Bool-cases a.stop) [
  | inl e ↦ rw (attempt_stopped env a l e) refl
  | inr e ↦
      next_attempt_polling (λ l'. attempts env left tries idles l') (attempt env a l)
        (λ l'. attempts_end env left tries idles l' (ground arith))
]

-- If the flag is up at the start of any attempt, or thirty attempts have been made, the thread does not
-- poll any more: it has returned, is in a backend, or is behind the last attempt.
pub thread_main_ends :
    (env : Env) (tries : List Attempt) (idles : List (Bool × IdleRead)) (l : Listener)
    → (any_stop tries || leb probe_max_attempts (length tries)) ≡ true
    → is_polling (thread_main env tries idles l).1 ≡ false
unfolding thread_main
thread_main_ends env tries idles l h = attempts_end env 30 tries idles l h
