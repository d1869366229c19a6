-- ===== src/Heuristics/Scroll/Rate.antt =====
-- How close two ticks can come. `on_event` runs the leak and then the engine on each wheel event,
-- with the profile of the focused application.
use loginext.Config.Profile.{Profile}
use loginext.Heuristics.Direction.{Direction}
use loginext.Heuristics.Scroll.Emit.{Keeps, decide_silent, decide_pending}
use loginext.Heuristics.Scroll.Process.{
  debounced, debounced-Keeps, gathered, decided, process_cases, process_hwheel-Tick,
}
use loginext.Heuristics.Scroll.{ScrollState, fresh, sign, since_last, process_hwheel, tick_leak}
use loginext.Prelude.{
  ℕ, ◌+◌, ◌≤◌, ◌<◌, ◌≡◌, ◌≢◌, ◌⊎◌, inl, inr, refl, sym, ◌∙◌, List, [], ◌∷◌, ℤ, pos, arith,
}

pub record Event : Type 0 where
  pub profile : Profile
  pub value : ℤ
  pub ts : ℕ

unfoldable pub step : ScrollState → Event → ScrollState × Direction
step s e = process_hwheel (tick_leak s e.ts e.profile) e.value e.ts e.profile

abbrev pub note : Direction → ℕ → List ℕ → List ℕ
note Direction.none t rest = rest
note Direction.left t rest = t ∷ rest
note Direction.right t rest = t ∷ rest

note_cases :
    (d : Direction) (t : ℕ) (rest : List ℕ) (P : List ℕ → Type 0)
    → (d ≡ Direction.none → P rest)
    → (d ≢ Direction.none → P (t ∷ rest))
    → P (note d t rest)
note_cases Direction.none t rest P f g = f refl
note_cases Direction.left t rest P f g = g (λ e. cc)
note_cases Direction.right t rest P f g = g (λ e. cc)

-- The times of the ticks that a sequence of events yields.
unfoldable pub ticks : ScrollState → List Event → List ℕ
ticks s [] = []
ticks s (e ∷ es) = note (step s e).1 e.ts (ticks (step s e).0 es)

-- The clock of the events does not go back, and each profile keeps ticks at least `gap` apart.
abbrev pub Timeline : ℕ → ℕ → List Event → Type 0
Timeline gap now [] = Unit
Timeline gap now (e ∷ es) =
    (now ≤ e.ts)
    × (0 < e.ts)
    × (gap ≤ e.profile.emit_cooldown_ns)
    × (gap ≤ e.profile.idle_reset_ns)
    × Timeline gap e.ts es

abbrev pub Apart : ℕ → ℕ → List ℕ → Type 0
Apart gap t [] = Unit
Apart gap t (u ∷ us) = (t + gap ≤ u) × Apart gap u us

abbrev pub Spaced : ℕ → List ℕ → Type 0
Spaced gap [] = Unit
Spaced gap (t ∷ ts) = Apart gap t ts

-- A pending candidate is not in the future, and came at least `gap` after the last tick.
pub record Paced (gap now : ℕ) (s : ScrollState) : Type 0 where
  pub past : s.pending_dir ≢ pos 0 → s.pending_ts ≤ now
  pub late : s.pending_dir ≢ pos 0 → (s.last_emit_ns ≡ 0) ⊎ (s.last_emit_ns + gap ≤ s.pending_ts)

tick_leak-Keeps : (s : ScrollState) (now : ℕ) (p : Profile) → Keeps s (tick_leak s now p)
unfolding tick_leak
tick_leak-Keeps s now p = ground arith

Paced-Keeps :
    {gap now : ℕ} {s s' : ScrollState} (later : ℕ)
    → now ≤ later
    → Paced gap now s
    → Keeps s s'
    → Paced gap later s'
Paced-Keeps {gap} {now} {s} {s'} later h w k = record {
  past = λ ne. omega (arith, w.past (λ e. ne (k.pending_dir ∙ e)), k.pending_ts);
  late = λ ne. omega (arith, w.late (λ e. ne (k.pending_dir ∙ e)), k.pending_ts, k.last_emit_ns);
}

module _ (gap now : ℕ) (s : ScrollState) (value : ℤ) (ts : ℕ) (p : Profile) (w : Paced gap now s)
    (h : now ≤ ts) (cool : gap ≤ p.emit_cooldown_ns) (idle : gap ≤ p.idle_reset_ns) where
  decided-Paced : Paced gap ts (decided s value ts p).0
  decided-Paced = record {
    past = λ ne. omega (arith, (candidate ne).1);
    late = λ ne. let c = candidate ne in omega (arith, c.1, c.2, c.3);
  }
    where
      candidate :
          (decided s value ts p).0.pending_dir ≢ pos 0
          → ((decided s value ts p).0.pending_dir ≡ sign value)
            × ((decided s value ts p).0.pending_ts ≡ ts)
            × ((decided s value ts p).0.last_emit_ns ≡ (gathered s value ts p).last_emit_ns)
            × (((gathered s value ts p).last_emit_ns ≡ 0)
                ⊎ ((gathered s value ts p).last_emit_ns + p.idle_reset_ns < ts))
      candidate = decide_pending p (sign value) ts (since_last s ts) (gathered s value ts p)

  pub process-Paced : Paced gap ts (process_hwheel s value ts p).0
  process-Paced =
      process_cases s value ts p (λ out. Paced gap ts out.0)
        (Paced-Keeps ts h w (record { pending_dir = refl; pending_ts = refl; last_emit_ns = refl }))
        (Paced-Keeps ts h w absorbed) (λ ne a. decided-Paced)
    where
      kept : Keeps s (debounced s value ts p).0
      kept = debounced-Keeps s value ts p

      absorbed : Keeps s (record (debounced s value ts p).0 { last_event_ns = ts })
      absorbed = record {
        pending_dir = kept.pending_dir;
        pending_ts = kept.pending_ts;
        last_emit_ns = kept.last_emit_ns;
      }

  -- A tick comes at least `gap` after the last one.
  pub process_gap :
      (process_hwheel s value ts p).1 ≢ Direction.none
      → (s.last_emit_ns ≡ 0) ⊎ (s.last_emit_ns + gap ≤ ts)
  process_gap t = elim (process_hwheel-Tick s value ts p t).why [
    | inl c ↦
        let ne : s.pending_dir ≢ pos 0 = λ e. c.pending (sym c.same_dir ∙ e) in
        omega (arith, w.past ne, w.late ne)
    | inr (c, reached) ↦ inr (omega (arith, c.cooled))
  ]

-- Without a tick the time of the last one stands; with one it is the event's.
process-last_emit_ns :
    (s : ScrollState) (value : ℤ) (ts : ℕ) (p : Profile)
    → (process_hwheel s value ts p).1 ≡ Direction.none
    → (process_hwheel s value ts p).0.last_emit_ns ≡ s.last_emit_ns
process-last_emit_ns s value ts p =
    process_cases s value ts p (λ out. out.1 ≡ Direction.none → out.0.last_emit_ns ≡ s.last_emit_ns)
      (λ e. refl) (λ e. kept.last_emit_ns)
      (λ ne a e.
        decide_silent p (sign value) ts (since_last s ts) (gathered s value ts p) e
        ∙ kept.last_emit_ns)
  where
    kept : Keeps s (debounced s value ts p).0
    kept = debounced-Keeps s value ts p

-- The time of the last tick, if there was one, is at least `gap` before the next.
module _ (gap : ℕ) where
  step-Paced :
      (now : ℕ) (s : ScrollState) (e : Event) (es : List Event)
      → Paced gap now s
      → Timeline gap now (e ∷ es)
      → Paced gap e.ts (step s e).0
  unfolding step
  step-Paced now s e es w line =
      process-Paced gap now (tick_leak s e.ts e.profile) e.value e.ts e.profile
        (Paced-Keeps now (omega arith) w (tick_leak-Keeps s e.ts e.profile)) line.0 line.2 line.3

  step-last_emit_ns :
      (s : ScrollState) (e : Event)
      → (step s e).1 ≡ Direction.none
      → (step s e).0.last_emit_ns ≡ s.last_emit_ns
  unfolding step
  step-last_emit_ns s e d =
      process-last_emit_ns (tick_leak s e.ts e.profile) e.value e.ts e.profile d
      ∙ (tick_leak-Keeps s e.ts e.profile).last_emit_ns

  step_stamped :
      (s : ScrollState) (e : Event)
      → (step s e).1 ≢ Direction.none
      → (step s e).0.last_emit_ns ≡ e.ts
  unfolding step
  step_stamped s e d =
      (process_hwheel-Tick (tick_leak s e.ts e.profile) e.value e.ts e.profile d).left.stamped

  step_gap :
      (now : ℕ) (s : ScrollState) (e : Event) (es : List Event)
      → Paced gap now s
      → Timeline gap now (e ∷ es)
      → (step s e).1 ≢ Direction.none
      → (s.last_emit_ns ≡ 0) ⊎ (s.last_emit_ns + gap ≤ e.ts)
  unfolding step
  step_gap now s e es w line d =
      let k = tick_leak-Keeps s e.ts e.profile in
      let g =
        process_gap gap now (tick_leak s e.ts e.profile) e.value e.ts e.profile
          (Paced-Keeps now (omega arith) w k) line.0 line.2 line.3 d in
      omega (arith, g, k.last_emit_ns)

  ticks-Apart :
      (es : List Event) (now : ℕ) (s : ScrollState)
      → Paced gap now s
      → Timeline gap now es
      → s.last_emit_ns ≢ 0
      → Apart gap s.last_emit_ns (ticks s es)
  unfolding ticks
  ticks-Apart [] now s w line ne = tt
  ticks-Apart (e ∷ es) now s w line ne =
      let next = ticks-Apart es e.ts (step s e).0 (step-Paced now s e es w line) line.4 in
      note_cases (step s e).1 e.ts (ticks (step s e).0 es) (Apart gap s.last_emit_ns)
        (λ d. rw (step-last_emit_ns s e d) at (next (λ z. ne (sym (step-last_emit_ns s e d) ∙ z))))
        (λ d. (
          omega (arith, step_gap now s e es w line d),
          rw (step_stamped s e d) at (next (λ z. omega (arith, line.1, step_stamped s e d))),
        ))

  ticks-Spaced_from :
      (es : List Event) (now : ℕ) (s : ScrollState)
      → Paced gap now s
      → Timeline gap now es
      → Spaced gap (ticks s es)
  unfolding ticks
  ticks-Spaced_from [] now s w line = tt
  ticks-Spaced_from (e ∷ es) now s w line =
      note_cases (step s e).1 e.ts (ticks (step s e).0 es) (Spaced gap)
        (λ d. ticks-Spaced_from es e.ts (step s e).0 (step-Paced now s e es w line) line.4)
        (λ d. rw (step_stamped s e d) at (
          ticks-Apart es e.ts (step s e).0 (step-Paced now s e es w line) line.4
            (λ z. omega (arith, line.1, step_stamped s e d))))

-- From a fresh state, whatever wheel events come and however the profile changes between them, any
-- two successive ticks are at least `gap` nanoseconds apart, if the event clock starts after 0 and
-- does not go back and each profile's cooldown and idle reset are at least `gap`.
pub ticks-Spaced : (gap : ℕ) (es : List Event) → Timeline gap 0 es → Spaced gap (ticks fresh es)
ticks-Spaced gap es line =
    ticks-Spaced_from gap es 0 fresh
      (record { past = λ ne. absurd (ne refl); late = λ ne. absurd (ne refl) }) line
