-- ===== src/Heuristics/Scroll/Process.antt =====
-- The three paths of `process_hwheel`, and the theorem on its ticks.
use loginext.Config.Profile.{Profile}
use loginext.Heuristics.Direction.{Direction}
use loginext.Heuristics.Scroll.{
  ScrollState, sign, since_last, dynamic_threshold, idle_reset, debounce, decide, settle,
  process_hwheel,
}
use loginext.Heuristics.Scroll.Emit.{
  eqb_ℤ-eq, eqb_ℤ_refl, Keeps, idle_reset-Keeps, debounce-Keeps, IsConfirmed, IsSustained, Emitted,
  decide-Emitted, decide_why,
}
use loginext.Prelude.{
  ℕ, ◌+◌, ◌≤◌, ◌≡◌, ◌≢◌, ◌⊎◌, inl, inr, refl, sym, ◌∙◌, true, false, ℤ, pos, eqb_ℤ, abs, Bool,
  Bool-cases, arith,
}

-- The state and the flag after the idle reset and the debounce.
abbrev pub debounced : ScrollState → ℤ → ℕ → Profile → ScrollState × Bool
debounced s value ts p = debounce p (sign value) (idle_reset p (since_last s ts) s)

-- The state in which the decision is made.
abbrev pub gathered : ScrollState → ℤ → ℕ → Profile → ScrollState
gathered s value ts p =
    let x = (debounced s value ts p).0 in
    record x { accumulator = x.accumulator + abs value; last_event_ns = ts }

abbrev pub decided : ScrollState → ℤ → ℕ → Profile → ScrollState × Direction
decided s value ts p = decide p (sign value) ts (since_last s ts) (gathered s value ts p)

pub debounced-Keeps :
    (s : ScrollState) (value : ℤ) (ts : ℕ) (p : Profile) → Keeps s (debounced s value ts p).0
debounced-Keeps s value ts p =
    let x = idle_reset p (since_last s ts) s in
    let a = idle_reset-Keeps p (since_last s ts) s in
    let b = debounce-Keeps p (sign value) x in
    record {
      pending_dir = b.pending_dir ∙ a.pending_dir;
      pending_ts = b.pending_ts ∙ a.pending_ts;
      last_emit_ns = b.last_emit_ns ∙ a.last_emit_ns;
    }

eqb_ℤ-ne : (a b : ℤ) → a ≢ b → eqb_ℤ a b ≡ false
eqb_ℤ-ne a b ne = elim (Bool-cases (eqb_ℤ a b)) [ inl e ↦ absurd (ne (eqb_ℤ-eq a b e)) | inr e ↦ e ]

module _ (s : ScrollState) (value : ℤ) (ts : ℕ) (p : Profile) where
  pub process_zero : value ≡ pos 0 → process_hwheel s value ts p ≡ (s, Direction.none)
  unfolding process_hwheel
  process_zero e = rw e

  pub process_absorbed :
      value ≢ pos 0
      → (debounced s value ts p).1 ≡ true
      → process_hwheel s value ts p
        ≡ (record (debounced s value ts p).0 { last_event_ns = ts }, Direction.none)
  unfolding process_hwheel settle
  process_absorbed ne e = rw (eqb_ℤ-ne value (pos 0) ne) (ground arith)

  pub process_decided :
      value ≢ pos 0
      → (debounced s value ts p).1 ≡ false
      → process_hwheel s value ts p ≡ decided s value ts p
  unfolding process_hwheel settle
  process_decided ne e = rw (eqb_ℤ-ne value (pos 0) ne) (ground arith)

  -- A property of all three outcomes is a property of the result.
  pub process_cases {κ} :
      (P : ScrollState × Direction → Type κ)
      → P (s, Direction.none)
      → P (record (debounced s value ts p).0 { last_event_ns = ts }, Direction.none)
      → (value ≢ pos 0 → (debounced s value ts p).1 ≡ false → P (decided s value ts p))
      → P (process_hwheel s value ts p)
  process_cases P zero_case absorbed decided_case = elim (Bool-cases (eqb_ℤ value (pos 0))) [
    | inl z ↦ rw (process_zero (eqb_ℤ-eq value (pos 0) z)) zero_case
    | inr z ↦
        let ne : value ≢ pos 0 = λ e. not_refl e z in
        elim (Bool-cases (debounced s value ts p).1) [
          | inl a ↦ rw (process_absorbed ne a) absorbed
          | inr a ↦ rw (process_decided ne a) (decided_case ne a)
        ]
  ]
    where
      not_refl : value ≡ pos 0 → eqb_ℤ value (pos 0) ≡ false → ⊥
      not_refl e z = cc (rw e at z, eqb_ℤ_refl (pos 0))

  -- Why there is a tick, and what it leaves.
  pub record Tick (out : ScrollState × Direction) : Type 0 where
    pub moved : value ≢ pos 0
    pub left : Emitted (sign value) ts out
    pub why :
        IsConfirmed p (sign value) ts s
        ⊎ (IsSustained p ts s
            × (dynamic_threshold (since_last s ts) p ≤ (gathered s value ts p).accumulator))

  -- If an event yields a tick, the tick has the event's direction, the accumulator is empty, no
  -- candidate is left, and the time of the last tick is the event's. The cause is one of two: a
  -- pending candidate of the same direction within the confirmation window, or a gesture that goes
  -- on, is past its cooldown and has gathered at least the threshold of the velocity curve.
  pub process_hwheel-Tick :
      (process_hwheel s value ts p).1 ≢ Direction.none → Tick (process_hwheel s value ts p)
  process_hwheel-Tick =
      process_cases (λ out. out.1 ≢ Direction.none → Tick out) (λ h. absurd (h refl))
        (λ h. absurd (h refl))
        (λ ne a h. record {
          moved = ne;
          left = decide-Emitted p (sign value) ts (since_last s ts) (gathered s value ts p) h;
          why = elim (decide_why p (sign value) ts (since_last s ts) (gathered s value ts p) h) [
            | inl c ↦ inl (IsConfirmed_before c)
            | inr (c, reached) ↦ inr (IsSustained_before c, reached)
          ];
        })
    where
      kept : Keeps s (debounced s value ts p).0
      kept = debounced-Keeps s value ts p

      IsConfirmed_before :
          IsConfirmed p (sign value) ts (gathered s value ts p) → IsConfirmed p (sign value) ts s
      IsConfirmed_before c = record {
        same_dir = sym kept.pending_dir ∙ c.same_dir;
        pending = c.pending;
        in_window = omega (arith, c.in_window, kept.pending_ts);
      }

      IsSustained_before : IsSustained p ts (gathered s value ts p) → IsSustained p ts s
      IsSustained_before c = record {
        started = omega (arith, c.started, kept.last_emit_ns);
        ongoing = omega (arith, c.ongoing, kept.last_emit_ns);
        cooled = omega (arith, c.cooled, kept.last_emit_ns);
      }
