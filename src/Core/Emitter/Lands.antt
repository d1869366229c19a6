-- ===== src/Core/Emitter/Lands.antt =====
-- Which writes to the virtual devices reach them: a failed `write` is only logged, so any may get lost.
use loginext.Core.Emitter.Keys.{
  KeyState, all_up, apply_writes, DownIn, release_keys-all_up, press_keys-DownIn,
}
use loginext.Core.Emitter.{
  InputEvent, Write, Device, ev_key, press_keys, release_keys, emit_combo_down, emit_combo_up,
  emit_passthrough,
}
use loginext.Presets.{KeyCombo}
use loginext.Prelude.{
  ℕ, zero, suc, ◌≡◌, refl, Bool, true, false, ◌&&◌, ◌||◌, ◌==◌, eqb_ℤ, pos, List, [], ◌∷◌, ◌++◌,
  Bool-cases, inl, inr, arith,
}

-- Whether a batch lets a key go.
abbrev pub lifts : List InputEvent → Bool
lifts [] = false
lifts (e ∷ es) = (e.type == ev_key && eqb_ℤ e.value (pos 0)) || lifts es

abbrev pub releases : Write → Bool
releases w = on w.device (lifts w.events)
  where
    on : Device → Bool → Bool
    on Device.keyboard b = b
    on Device.mouse b = false

-- `Lands ws ls`: of the writes `ws`, just `ls` reach the devices, and none that lets a key go is lost.
pub data Lands : List Write → List Write → Type 0 where
  nil : Lands [] []
  landed : {w : Write} {ws ls : List Write} → Lands ws ls → Lands (w ∷ ws) (w ∷ ls)
  lost : {w : Write} {ws ls : List Write} → releases w ≡ false → Lands ws ls → Lands (w ∷ ws) ls

-- However the writes land, the keys are then as `P` says.
abbrev pub Always : (KeyState → Type 0) → List Write → KeyState → Type 0
Always P ws st = (ls : List Write) → Lands ws ls → P (apply_writes ls st)

pub Always-none : (P : KeyState → Type 0) (st : KeyState) → P st → Always P [] st
Always-none P st p ls nil = p

pub Always-append :
    (P : KeyState → Type 0) (a b : List Write) (st : KeyState)
    → Always (Always P b) a st
    → Always P (a ++ b) st
Always-append P [] b st h ls l = h [] nil ls l
Always-append P (w ∷ a) b st h (x ∷ ls) (landed l) =
    Always-append P a b _ (λ la k. h (w ∷ la) (landed k)) ls l
Always-append P (w ∷ a) b st h ls (lost e l) = Always-append P a b st (λ la k. h la (lost e k)) ls l

pub passthrough-Always :
    (P : KeyState → Type 0) (ev : InputEvent) (st : KeyState)
    → P st
    → Always P (emit_passthrough ev) st
unfolding emit_passthrough
passthrough-Always P ev st p ls (landed nil) = p
passthrough-Always P ev st p ls (lost e nil) = p

lifts-release_keys : (keys : List ℕ) (n : ℕ) → (n == 0) ≡ false → lifts (release_keys keys n) ≡ true
unfolding release_keys
lifts-release_keys keys zero e = cc
lifts-release_keys keys (suc n) e = refl

-- A combination that goes up releases everything that was down because of it.
pub emit_combo_up-Always :
    (combo : KeyCombo) (st : KeyState)
    → DownIn combo.keys combo.count st
    → Always (λ st'. st' ≡ all_up) (emit_combo_up combo) st
unfolding emit_combo_up release_keys
emit_combo_up-Always combo st d = elim (Bool-cases (combo.count == 0)) [
  | inl e ↦ rw e (
      Always-none (λ st'. st' ≡ all_up) st
        (release_keys-all_up combo.keys 0 st (let z : combo.count ≡ 0 = ground arith in rw z at d)))
  | inr e ↦ rw e (one e)
]
  where
    one :
        (combo.count == 0) ≡ false
        → Always
            (λ st'. st' ≡ all_up)
            (record { device = Device.keyboard; events = release_keys combo.keys combo.count } ∷ [])
            st
    one e ls (landed nil) = release_keys-all_up combo.keys combo.count st d
    one e ls (lost f nil) = ground (arith, lifts-release_keys combo.keys combo.count e)

-- From no key down, a combination that goes down leaves none but its own keys down.
pub emit_combo_down-Always :
    (combo : KeyCombo) → Always (DownIn combo.keys combo.count) (emit_combo_down combo) all_up
unfolding emit_combo_down
emit_combo_down-Always combo = elim (Bool-cases (combo.count == 0)) [
  | inl e ↦ rw e (Always-none (DownIn combo.keys combo.count) all_up (λ c h. cc))
  | inr e ↦ rw e one
]
  where
    one :
        Always
          (DownIn combo.keys combo.count)
          (record { device = Device.keyboard; events = press_keys combo.keys combo.count 0 } ∷ [])
          all_up
    one ls (landed nil) =
        press_keys-DownIn combo.keys combo.count 0 combo.count all_up (omega arith) (λ c h. cc)
    one ls (lost f nil) = λ c h. cc
