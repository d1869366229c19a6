-- ===== src/Core/Player.antt =====
-- The contract of the pacer, with no ring and no timer: combinations wait in a list, at most eight
-- of them, and at most one is held down.
use loginext.Config.Profile.{Profile}
use loginext.Core.Emitter.Keys.{KeyState, all_up, DownIn}
use loginext.Core.Emitter.Lands.{
  Always, Always-none, Always-append, emit_combo_up-Always, emit_combo_down-Always,
}
use loginext.Core.Emitter.{Write, emit_combo_down, emit_combo_up}
use loginext.Presets.{KeyCombo}
use loginext.Prelude.{
  ℕ, ◌+◌, ◌≤◌, ◌≡◌, refl, sym, ap, ◌∙◌, Bool, not, ◌&&◌, leb, ◌==◌, if◌then◌else◌, Option, none,
  some, List, [], ◌∷◌, ◌++◌, length, Bool-cases, inl, inr, arith, replicate, ◌-◌, ◌*◌, zero, suc,
}

pub record Player : Type 0 where
  pub waiting : List KeyCombo
  pub held : Option KeyCombo
  pub last_input_ns : ℕ

abbrev pub idle : Player
idle = record { waiting = []; held = none; last_input_ns = 0 }

-- What happens to the pacer: a tick's combination, the expiry of the timer, a wake-up of the timer's
-- handler that reads no expiry, a check for silence.
pub data Stimulus : Type 0 where
  tick : KeyCombo → ℕ → Stimulus
  fire spurious : Stimulus
  check : ℕ → Stimulus

abbrev pub drop_oldest : List KeyCombo → List KeyCombo
drop_oldest [] = []
drop_oldest (c ∷ w) = w

abbrev pub push : List KeyCombo → KeyCombo → List KeyCombo
push w c = (if leb 8 (length w) then drop_oldest w else w) ++ c ∷ []

abbrev pub accept : Player → KeyCombo → ℕ → Player
accept y c now =
    if c.count == 0 then y else record y { waiting = push y.waiting c; last_input_ns = now }

abbrev pub play_next : Player → List KeyCombo → Player × List Write
play_next y [] = (y, [])
play_next y (c ∷ w) = (record y { waiting = w; held = some c }, emit_combo_down c)

-- A held combination goes up; otherwise the oldest one that waits goes down.
abbrev pub play_held : Player → Option KeyCombo → Player × List Write
play_held y none = play_next y y.waiting
play_held y (some c) = (record y { held = none }, emit_combo_up c)

abbrev pub play : Player → Player × List Write
play y = play_held y y.held

abbrev pub lift : Option KeyCombo → List Write
lift none = []
lift (some c) = emit_combo_up c

abbrev pub flush : Player → Player × List Write
flush y = (record y { waiting = []; held = none }, lift y.held)

abbrev pub is_overdue : Player → ℕ → Profile → Bool
is_overdue y now p = not (y.last_input_ns == 0) && leb (y.last_input_ns + p.damping_timeout_ns) now

abbrev pub respond : Profile → Player → Stimulus → Player × List Write
respond p y (tick c now) = (accept y c now, [])
respond p y fire = play y
respond p y spurious = (y, [])
respond p y (check now) = if is_overdue y now p then flush y else (y, [])

-- The keys that are down are those of the held combination.
abbrev pub HeldDown : Option KeyCombo → KeyState → Type 0
HeldDown none st = st ≡ all_up
HeldDown (some c) st = DownIn c.keys c.count st

play_next-HeldDown :
    (y : Player) (w : List KeyCombo) (st : KeyState)
    → y.held ≡ none
    → st ≡ all_up
    → Always (HeldDown (play_next y w).0.held) (play_next y w).1 st
play_next-HeldDown y [] st e up = Always-none (HeldDown y.held) st (rw e up)
play_next-HeldDown y (c ∷ w) st e up = rw up (emit_combo_down-Always c)

play_held-HeldDown :
    (y : Player) (h : Option KeyCombo) (st : KeyState)
    → y.held ≡ h
    → HeldDown h st
    → Always (HeldDown (play_held y h).0.held) (play_held y h).1 st
play_held-HeldDown y none st e d = play_next-HeldDown y y.waiting st e d
play_held-HeldDown y (some c) st e d = emit_combo_up-Always c st d

lift-HeldDown :
    (h : Option KeyCombo) (st : KeyState) → HeldDown h st → Always (λ st'. st' ≡ all_up) (lift h) st
lift-HeldDown none st d = Always-none (λ st'. st' ≡ all_up) st d
lift-HeldDown (some c) st d = emit_combo_up-Always c st d

pub respond-HeldDown :
    (p : Profile) (y : Player) (x : Stimulus) (st : KeyState)
    → HeldDown y.held st
    → Always (HeldDown (respond p y x).0.held) (respond p y x).1 st
respond-HeldDown p y (tick c now) st d = elim (Bool-cases (c.count == 0)) [
  | inl e ↦ rw e (Always-none (HeldDown y.held) st d)
  | inr e ↦ rw e (Always-none (HeldDown y.held) st d)
]
respond-HeldDown p y fire st d = play_held-HeldDown y y.held st refl d
respond-HeldDown p y spurious st d = Always-none (HeldDown y.held) st d
respond-HeldDown p y (check now) st d = elim (Bool-cases (is_overdue y now p)) [
  | inl e ↦ rw e (lift-HeldDown y.held st d)
  | inr e ↦ rw e (Always-none (HeldDown y.held) st d)
]

abbrev pub run : Profile → Player → List Stimulus → Player × List Write
run p y [] = (y, [])
run p y (x ∷ xs) = let (y', w) = respond p y x in let (y'', w') = run p y' xs in (y'', w ++ w')

pub run-HeldDown :
    (p : Profile) (xs : List Stimulus) (y : Player) (st : KeyState)
    → HeldDown y.held st
    → Always (HeldDown (run p y xs).0.held) (run p y xs).1 st
run-HeldDown p [] y st d = Always-none (HeldDown y.held) st d
run-HeldDown p (x ∷ xs) y st d =
    let (y', w) = respond p y x in
    Always-append (HeldDown (run p y' xs).0.held) w (run p y' xs).1 st
      (λ ls l. run-HeldDown p xs y' _ (respond-HeldDown p y x st d ls l))

-- The writes that end what is held and play all that waits: each combination goes down and up again,
-- the oldest first.
abbrev pub each : List KeyCombo → List Write
each [] = []
each (c ∷ w) = emit_combo_down c ++ (emit_combo_up c ++ each w)

abbrev pub all_played : Player → List Write
all_played y = lift y.held ++ each y.waiting

-- How many expiries of the timer are left to do.
abbrev pub pending_phases : Player → ℕ
pending_phases y = 2 * length y.waiting + (elim y.held [ none ↦ 0 | some c ↦ 1 ])

play_next_phases :
    (y : Player) (w : List KeyCombo)
    → y.waiting ≡ w
    → y.held ≡ none
    → pending_phases (play_next y w).0 ≡ pending_phases y - 1
play_next_phases y [] e h = ground arith
play_next_phases y (c ∷ w) e h = ground arith

play_held_phases :
    (y : Player) (h : Option KeyCombo)
    → y.held ≡ h
    → pending_phases (play_held y h).0 ≡ pending_phases y - 1
play_held_phases y none e = play_next_phases y y.waiting refl e
play_held_phases y (some c) e = ground arith

pub run_fires :
    (p : Profile) (n : ℕ) (y : Player)
    → pending_phases (run p y (replicate n fire)).0 ≡ pending_phases y - n
run_fires p zero y = omega arith
run_fires p (suc n) y = omega (arith, run_fires p n (play y).0, play_held_phases y y.held refl)

play_next_all :
    (y : Player) (w : List KeyCombo)
    → y.held ≡ none
    → y.waiting ≡ w
    → let (y', ws) = play_next y w in all_played y ≡ ws ++ all_played y'
play_next_all y [] e f = refl
play_next_all y (c ∷ w) e f = rw (e, f) refl

play_held_all :
    (y : Player) (h : Option KeyCombo)
    → y.held ≡ h
    → let (y', ws) = play_held y h in all_played y ≡ ws ++ all_played y'
play_held_all y none e = play_next_all y y.waiting e refl
play_held_all y (some c) e = rw e refl

nothing_left : (y : Player) → pending_phases y ≡ 0 → all_played y ≡ []
nothing_left y e = of_parts y.held y.waiting e
  where
    of_parts :
        (h : Option KeyCombo) (w : List KeyCombo)
        → 2 * length w + (elim h [ none ↦ 0 | some c ↦ 1 ]) ≡ 0
        → lift h ++ each w ≡ []
    of_parts none [] e = refl
    of_parts none (c ∷ w) e = absurd (omega arith)
    of_parts (some c) w e = absurd (omega arith)

-- Enough expiries play all that is left, and nothing else.
pub run_fires_all :
    (p : Profile) (n : ℕ) (y : Player)
    → pending_phases y ≤ n
    → (run p y (replicate n fire)).1 ≡ all_played y
run_fires_all p zero y le = sym (nothing_left y (omega arith))
run_fires_all p (suc n) y le =
    ap (λ ws. (play y).1 ++ ws)
      (run_fires_all p n (play y).0 (omega (arith, play_held_phases y y.held refl)))
    ∙ sym (play_held_all y y.held refl)
