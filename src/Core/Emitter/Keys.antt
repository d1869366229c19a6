-- ===== src/Core/Emitter/Keys.antt =====
-- Which keys are down after a batch of keyboard events.
use loginext.Core.Emitter.{InputEvent, ev_key, key_event, press_keys, release_keys, Write, Device}
use mathlib.Core.Path.{fun_ext}
use loginext.Prelude.{
  ℕ, zero, suc, ◌+◌, ◌<◌, ◌≡◌, ◌≢◌, Bool, true, false, ◌==◌, if◌then◌else◌, pos, eqb_ℤ, List, [],
  ◌∷◌, get_or, arith, Bool-cases, inl, inr, not, ◌∙◌, sym, ap,
}

-- The keys that the kernel holds down for the virtual keyboard.
abbrev pub KeyState : Type 0
KeyState = ℕ → Bool

abbrev pub all_up : KeyState
all_up c = false

abbrev pub apply : InputEvent → KeyState → KeyState
apply e st c =
    if e.type == ev_key then (if c == e.code then not (eqb_ℤ e.value (pos 0)) else st c) else st c

abbrev pub apply_all : List InputEvent → KeyState → KeyState
apply_all [] st = st
apply_all (e ∷ es) st = apply_all es (apply e st)

abbrev pub apply_writes : List Write → KeyState → KeyState
apply_writes [] st = st
apply_writes (w ∷ ws) st = apply_writes ws (on_device w.device (apply_all w.events st) st)
  where
    on_device : Device → KeyState → KeyState → KeyState
    on_device Device.keyboard a b = a
    on_device Device.mouse a b = b

-- A key that is down in `st` is one of the first `n` keys of the array.
abbrev pub DownIn : List ℕ → ℕ → KeyState → Type 0
DownIn keys n st = (c : ℕ) → st c ≡ true → (k : ℕ) × (k < n) × (get_or keys k 0 ≡ c)

DownIn-release :
    (keys : List ℕ) (i : ℕ) (st : KeyState)
    → DownIn keys (suc i) st
    → DownIn keys i (apply (key_event (get_or keys i 0) 0) st)
DownIn-release keys i st d c on =
    let ne : c ≢ get_or keys i 0 = ground arith in
    let was : st c ≡ true = ground arith in
    let (k, lt, at) = d c was in (k, omega (arith, other k at ne lt), at)
  where
    other : (k : ℕ) → get_or keys k 0 ≡ c → c ≢ get_or keys i 0 → k < suc i → k < i
    other k at ne lt = elim (Bool-cases (k == i)) [
      | inl e ↦
          let same : k ≡ i = ground arith in absurd (ne (sym at ∙ ap (λ j. get_or keys j 0) same))
      | inr e ↦ ground arith
    ]

pub release_keys-all_up :
    (keys : List ℕ) (n : ℕ) (st : KeyState)
    → DownIn keys n st
    → apply_all (release_keys keys n) st ≡ all_up
unfolding release_keys
release_keys-all_up keys zero st d =
    fun_ext
      λ c. elim (Bool-cases (st c)) [ inl on ↦ absurd (omega (arith, (d c on).1)) | inr off ↦ off ]
release_keys-all_up keys (suc i) st d = release_keys-all_up keys i _ (DownIn-release keys i st d)

DownIn-press :
    (keys : List ℕ) (i : ℕ) (st : KeyState)
    → DownIn keys i st
    → DownIn keys (suc i) (apply (key_event (get_or keys i 0) 1) st)
DownIn-press keys i st d c on = elim (Bool-cases (c == get_or keys i 0)) [
  | inl e ↦ (i, omega arith, ground arith)
  | inr e ↦ let (k, lt, at) = d c (ground arith) in (k, omega arith, at)
]

pub press_keys-DownIn :
    (keys : List ℕ) (m i n : ℕ) (st : KeyState)
    → i + m ≡ n
    → DownIn keys i st
    → DownIn keys n (apply_all (press_keys keys m i) st)
unfolding press_keys
press_keys-DownIn keys zero i n st e d = let e' : i ≡ n = omega arith in rw e' at d
press_keys-DownIn keys (suc m) i n st e d =
    press_keys-DownIn keys m (i + 1) n _ (omega arith)
      (let e' : suc i ≡ i + 1 = omega arith in rw e' at (DownIn-press keys i st d))
