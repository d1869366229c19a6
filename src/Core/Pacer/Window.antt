-- ===== src/Core/Pacer/Window.antt =====
-- The combinations that wait in the ring, oldest first.
use loginext.Core.Pacer.{max_queued_actions, wrap}
use loginext.Presets.{KeyCombo, no_combo}
use loginext.Prelude.{
  ℕ, zero, suc, ◌+◌, ◌<◌, ◌≡◌, refl, ap, ◌∙◌, List, [], ◌∷◌, ◌++◌, length, get_or, set,
  get_or-set_self, get_or-set_ne, arith,
}

-- The `n` slots from `h` on, going round at the end.
abbrev pub window : List KeyCombo → ℕ → ℕ → List KeyCombo
window buf h zero = []
window buf h (suc n) = get_or buf h no_combo ∷ window buf (wrap (h + 1)) n

pub length-window : (buf : List KeyCombo) (h n : ℕ) → length (window buf h n) ≡ n
length-window buf h zero = refl
length-window buf h (suc n) = ap suc (length-window buf (wrap (h + 1)) n)

window_snoc :
    (buf : List KeyCombo) (h n : ℕ)
    → h < max_queued_actions
    → window buf h (suc n) ≡ window buf h n ++ get_or buf (wrap (h + n)) no_combo ∷ []
window_snoc buf h zero lt = ap (λ i. get_or buf i no_combo ∷ []) (omega arith)
window_snoc buf h (suc n) lt =
    ap (λ w. get_or buf h no_combo ∷ w)
      (window_snoc buf (wrap (h + 1)) n (omega arith)
        ∙ ap (λ i. window buf (wrap (h + 1)) n ++ get_or buf i no_combo ∷ []) (omega arith))

-- A write outside the window does not show.
window-set_outside :
    (buf : List KeyCombo) (x : KeyCombo) (h n i : ℕ)
    → h < max_queued_actions
    → n < max_queued_actions
    → i ≡ wrap (h + n)
    → window (set buf i x) h n ≡ window buf h n
window-set_outside buf x h zero i lt room e = refl
window-set_outside buf x h (suc n) i lt room e =
    rw (get_or-set_ne buf i h x no_combo (omega arith)) (
      ap (λ w. get_or buf h no_combo ∷ w)
        (window-set_outside buf x (wrap (h + 1)) n i (omega arith) (omega arith) (omega arith)))

-- A write to the slot behind the window extends it.
pub window-set :
    (buf : List KeyCombo) (x : KeyCombo) (h n i : ℕ)
    → length buf ≡ max_queued_actions
    → h < max_queued_actions
    → n < max_queued_actions
    → i ≡ wrap (h + n)
    → window (set buf i x) h (suc n) ≡ window buf h n ++ x ∷ []
window-set buf x h n i full lt room e =
    window_snoc (set buf i x) h n lt
    ∙ rw (
      window-set_outside buf x h n i lt room e,
      ← e,
      get_or-set_self buf i x no_combo (omega arith),
    )
