-- ===== src/Heuristics/Scroll/Invariant.antt =====
-- What always holds of a `ScrollState`.
use loginext.Config.Profile.{Profile}
use loginext.Heuristics.Scroll.Process.{debounced, gathered, process_cases}
use loginext.Heuristics.Scroll.{
  ScrollState, fresh, sign, since_last, idle_reset, debounce, decide, process_hwheel, tick_leak,
}
use loginext.Prelude.{ℕ, zero, suc, ◌≤◌, ◌≡◌, ◌⊎◌, inl, inr, refl, ℤ, pos, negsuc, arith}

-- -1, 0 or +1
abbrev pub IsSign : ℤ → Type 0
IsSign d = (d ≡ negsuc 0) ⊎ (d ≡ pos 0) ⊎ (d ≡ pos 1)

pub sign-IsSign : (v : ℤ) → IsSign (sign v)
unfolding sign
sign-IsSign (pos zero) = inr (inl refl)
sign-IsSign (pos (suc n)) = inr (inr refl)
sign-IsSign (negsuc n) = inl refl

pub record IsValid (s : ScrollState) : Type 0 where
  pub direction_sign : IsSign s.direction
  pub pending_sign : IsSign s.pending_dir
  pub reverse_fits : s.reverse_count ≤ 126
  pub emit_past : s.last_emit_ns ≤ s.last_event_ns
  pub pending_past : s.pending_ts ≤ s.last_event_ns

pub fresh-IsValid : IsValid fresh
fresh-IsValid = record {
  direction_sign = inr (inl refl);
  pending_sign = inr (inl refl);
  reverse_fits = omega arith;
  emit_past = omega arith;
  pending_past = omega arith;
}

idle_reset-IsValid :
    (p : Profile) (dt : ℕ) {s : ScrollState} → IsValid s → IsValid (idle_reset p dt s)
unfolding idle_reset
idle_reset-IsValid p dt v = ground arith

debounce-IsValid :
    (p : Profile) (d : ℤ) {s : ScrollState}
    → p.reverse_tolerance ≤ 126
    → IsSign d
    → IsValid s
    → IsValid (debounce p d s).0
unfolding debounce
debounce-IsValid p d t h v = ground arith

decide-IsValid :
    (p : Profile) (d : ℤ) (dt : ℕ) (s : ScrollState)
    → IsSign d
    → IsValid s
    → IsValid (decide p d s.last_event_ns dt s).0
unfolding decide
decide-IsValid p d dt s h v = ground arith

record_event-IsValid :
    {s : ScrollState} (acc ts : ℕ)
    → s.last_event_ns ≤ ts
    → IsValid s
    → IsValid (record s { accumulator = acc; last_event_ns = ts })
record_event-IsValid acc ts h v = ground arith

debounced-last_event_ns :
    (s : ScrollState) (value : ℤ) (ts : ℕ) (p : Profile)
    → (debounced s value ts p).0.last_event_ns ≡ s.last_event_ns
unfolding debounce idle_reset
debounced-last_event_ns s value ts p = ground arith

tick_leak-last_event_ns :
    (s : ScrollState) (now : ℕ) (p : Profile) → (tick_leak s now p).last_event_ns ≡ s.last_event_ns
unfolding tick_leak
tick_leak-last_event_ns s now p = ground arith

tick_leak-IsValid :
    (now : ℕ) (p : Profile) {s : ScrollState} → IsValid s → IsValid (tick_leak s now p)
unfolding tick_leak
tick_leak-IsValid now p v = ground arith

-- The leak followed by an event that is not before the last one keeps the state valid: directions
-- are signs, the reverse counter stays in `int8_t`, and no stored time is after the last event. The
-- profile's reverse tolerance is at most 126.
pub process_hwheel-IsValid :
    (s : ScrollState) (value : ℤ) (ts : ℕ) (p : Profile)
    → p.reverse_tolerance ≤ 126
    → s.last_event_ns ≤ ts
    → IsValid s
    → IsValid (process_hwheel (tick_leak s ts p) value ts p).0
process_hwheel-IsValid s value ts p tol h v =
    process_cases s' value ts p (λ out. IsValid out.0) v' (record_event-IsValid _ ts later seen)
      (λ ne a.
        decide-IsValid p (sign value) (since_last s' ts) (gathered s' value ts p)
          (sign-IsSign value) (record_event-IsValid _ ts later seen))
  where
    s' : ScrollState
    s' = tick_leak s ts p

    v' : IsValid s'
    v' = tick_leak-IsValid ts p v

    seen : IsValid (debounced s' value ts p).0
    seen = debounce-IsValid p (sign value) tol (sign-IsSign value) (idle_reset-IsValid p _ v')

    later : (debounced s' value ts p).0.last_event_ns ≤ ts
    later = omega (arith, debounced-last_event_ns s' value ts p, tick_leak-last_event_ns s ts p)
