-- ===== src/Prelude/Checked.antt =====
-- Requests that take and give back resources, each of which may be refused.
use mathlib.Core.Bool.{Bool}
use mathlib.Core.List.{List, [], ◌∷◌, ◌++◌}
use mathlib.Core.Option.{Option, none, some, some-injective, none-ne-some}
use mathlib.Core.Path.{◌≡◌, ap}
use loginext.Prelude.Tests.{if◌then◌else◌}

abbrev pub when {ℓ} : {H : Type ℓ} → Bool → H → Option H
when b h = if b then some h else none

module _ {ℓ κ} {R : Type ℓ} {H : Type κ} (apply : R → H → Option H) where
  abbrev pub apply_next : (H → Option H) → Option H → Option H
  apply_next f none = none
  apply_next f (some h) = f h

  abbrev pub after : List R → H → Option H
  after [] h = some h
  after (e ∷ es) h = apply_next (after es) (apply e h)

  pub after-append :
      (es fs : List R) (h h' : H) → after es h ≡ some h' → after (es ++ fs) h ≡ after fs h'
  after-append [] fs h h' e = ap (after fs) (some-injective h h' e)
  after-append (x ∷ es) fs h h' e = next (apply x h) e (λ k. after-append es fs k h')
    where
      next :
          (o : Option H)
          → apply_next (after es) o ≡ some h'
          → ((k : H) → after es k ≡ some h' → after (es ++ fs) k ≡ after fs h')
          → apply_next (after (es ++ fs)) o ≡ after fs h'
      next none e rest = absurd (none-ne-some h' e)
      next (some k) e rest = rest k e
