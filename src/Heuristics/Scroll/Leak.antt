-- ===== src/Heuristics/Scroll/Leak.antt =====
-- The decay of a stale accumulator.
use native.Mathlib.Nat.{div-div-eq-div-mul, div-one, pow-zero, pow-succ', zero-div}
use native.Mathlib.Nat.{div-eq_of_lt}
use loginext.Config.Profile.{Profile}
use loginext.Heuristics.Scroll.{ScrollState, decay, tick_leak}
use loginext.Prelude.{
  ℕ, zero, suc, ◌-◌, ◌/◌, ◌^◌, ◌<◌, ◌≡◌, ◌∙◌, ◌==◌, inl, inr, if◌then◌else◌, Bool-cases, true,
  arith,
}

-- The loop that stops early at 0 is one shift by all the periods together.
decay-eq-div : (n shift acc : ℕ) → decay n shift acc ≡ acc / (2 ^ shift) ^ n
unfolding decay
decay-eq-div zero shift acc = rw (pow-zero, div-one)
decay-eq-div (suc n) shift acc = elim (Bool-cases (acc == 0)) [
  | inl e ↦ rw (e, decay) (zero_case e)
  | inr e ↦
      rw (e, decay)
        (decay-eq-div n shift (acc / 2 ^ shift)
          ∙ div-div-eq-div-mul acc (2 ^ shift) ((2 ^ shift) ^ n)
          ∙ rw pow-succ')
]
  where
    zero_case : (acc == 0) ≡ true → acc ≡ acc / (2 ^ shift) ^ suc n
    zero_case e = let z : acc ≡ 0 = ground arith in rw (z, zero-div)

-- What is left of an accumulator after `elapsed` nanoseconds of silence.
abbrev pub leaked : Profile → ℕ → ℕ → ℕ
leaked p elapsed acc = acc / (2 ^ p.leak_decay_shift) ^ (elapsed / p.leak_interval_ns)

-- With a positive leak interval, `tick_leak` halves the accumulator (shifts it by the profile's
-- amount) once for each whole interval since the last event, and leaves it alone if there was no
-- event yet; nothing else of the state changes.
pub tick_leak-leaked :
    (s : ScrollState) (now_ns : ℕ) (p : Profile)
    → 0 < p.leak_interval_ns
    → tick_leak s now_ns p ≡ record s {
      accumulator =
          if s.last_event_ns == 0
          then s.accumulator
          else leaked p (now_ns - s.last_event_ns) s.accumulator;
    }
unfolding tick_leak
tick_leak-leaked s now_ns p h =
    let elapsed = now_ns - s.last_event_ns in
    let base = 2 ^ p.leak_decay_shift in
    let periods = elapsed / p.leak_interval_ns in
    ground (
      arith,
      decay-eq-div periods p.leak_decay_shift s.accumulator,
      zero-div (base ^ periods),
      early elapsed,
    )
  where
    early :
        (elapsed : ℕ)
        → elapsed < p.leak_interval_ns
        → s.accumulator / (2 ^ p.leak_decay_shift) ^ (elapsed / p.leak_interval_ns) ≡ s.accumulator
    early elapsed lt = rw (div-eq_of_lt lt, pow-zero, div-one)
