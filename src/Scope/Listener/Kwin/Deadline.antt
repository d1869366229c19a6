-- ===== src/Scope/Listener/Kwin/Deadline.antt =====
-- The wait of the KWin backend, and its warning.
use loginext.Scope.Listener.Kwin.{
  KwinState, Turn, Outcome, process, warn_after, sub_u64, check_warning, deadline, select_timeout,
  tvp_zero, wait, kwin_turn, kwin_turns, start_state,
}
use loginext.Scope.Listener.{Listener}
use loginext.Prelude.{
  ℕ, ◌-◌, ◌/◌, ◌%◌, ◌^◌, ◌≤◌, ◌<◌, ◌≡◌, refl, Bool, true, false, not, ◌||◌, leb, Option, none, some,
  List, [], ◌∷◌, Bool-cases, if_keeps, if_cases, inl, inr, arith,
}

micros : (rel : ℕ) → (rel / 1_000_000) ≡ 0 → (rel % 1_000_000) ≡ 0 → rel ≡ 0
micros rel e e' = omega arith

-- A timeout of zero is that of a deadline that has passed.
timeout_zero :
    (w : Bool) (bind now bus : ℕ)
    → tvp_zero (select_timeout w bind now bus) ≡ true
    → deadline w bind bus ≤ now
unfolding select_timeout
timeout_zero w bind now bus e = ground (arith, micros (deadline w bind bus - now))

-- If the clock is not before the bind, and 64 bits hold the sums: the loop asks `select` not to wait
-- only when the deadline of sd-bus itself has passed. The deadline of the warning never does that.
pub select_timeout_zero :
    (st : KwinState) (bind now bus : ℕ)
    → bind ≤ now
    → now < 2 ^ 63
    → tvp_zero (select_timeout (check_warning st bind now).warned bind now bus) ≡ true
    → bus ≤ now
unfolding check_warning deadline
select_timeout_zero st bind now bus le small e =
    let passed = timeout_zero (check_warning st bind now).warned bind now bus e in ground arith

-- At most one warning, and none before the flag is set.
abbrev Once : KwinState → Type 0
Once st = (st.warnings ≤ 1) × (st.warned ≡ false → st.warnings ≡ 0)

check_warning-Once : (st : KwinState) (bind now : ℕ) → Once st → Once (check_warning st bind now)
unfolding check_warning
check_warning-Once st bind now o =
    if_cases Once st.warned (λ e. o)
      (λ e.
        if_keeps Once st.listener.kwin_received_any (o.0, λ n. cc)
          (if_keeps Once (leb warn_after (sub_u64 now bind)) (rw (o.1 e) (omega arith), λ n. cc) o))

wait-Once : (st : KwinState) (bind : ℕ) (t : Turn) → Once st → Once (wait st bind t).0
unfolding wait
wait-Once st bind t o =
    elim t.bus_deadline
      as (λ (d : Option ℕ). Once (wait st bind (record t { bus_deadline = d })).0) [
        | none ↦ o
        | some bus ↦ check_warning-Once st bind t.now o
      ]

kwin_turn-Once : (st : KwinState) (bind : ℕ) (t : Turn) → Once st → Once (kwin_turn st bind t).0
unfolding kwin_turn
kwin_turn-Once st bind t o =
    let (l, fails) = process st.listener t.processed in
    if_keeps (λ (out : Outcome). Once out.0) t.stop o
      (if_keeps (λ (out : Outcome). Once out.0) (fails || (t.stop_processed || not t.events_ok)) o
        (wait-Once (record st { listener = l }) bind t o))

kwin_turns-Once :
    (st : KwinState) (bind : ℕ) (ts : List Turn) → Once st → Once (kwin_turns st bind ts).0
unfolding kwin_turns
kwin_turns-Once st bind [] o = o
kwin_turns-Once st bind (t ∷ ts) o = elim (Bool-cases (kwin_turn st bind t).2) [
  | inl e ↦ rw e (kwin_turns-Once (kwin_turn st bind t).0 bind ts (kwin_turn-Once st bind t o))
  | inr e ↦ rw e (kwin_turn-Once st bind t o)
]

-- However long the loop runs, the warning that no call came is logged at most once.
pub kwin_turns_warnings :
    (l : Listener) (bind : ℕ) (ts : List Turn) → (kwin_turns (start_state l) bind ts).0.warnings ≤ 1
kwin_turns_warnings l bind ts = (kwin_turns-Once (start_state l) bind ts (omega arith, λ e. refl)).0
