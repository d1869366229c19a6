-- ===== src/Heuristics/Scroll/Threshold.antt =====
-- The velocity curve of `dynamic_threshold`.
use native.Mathlib.Nat.{
  div-mul-le_self, le-div_iff_mul-le, mul-div_cancel, mul-le-mul_left, le_trans,
}
use loginext.Config.Profile.{Profile}
use loginext.Config.Profile.Sane.{IsSane}
use loginext.Heuristics.Scroll.{clamp, dynamic_threshold}
use loginext.Prelude.{ℕ, ◌+◌, ◌-◌, ◌*◌, ◌/◌, ◌≤◌, ◌<◌, ◌≡◌, ◌∙◌, arith}

div-le-div : {a b d : ℕ} → 0 < d → a ≤ b → a / d ≤ b / d
div-le-div {a} {b} {d} pos h = (le-div_iff_mul-le pos).1 (le_trans (div-mul-le_self a d) h)

-- The curve for ordered thresholds, with the clamped interval as a number of its own.
abbrev curve : Profile → ℕ → ℕ
curve p x =
    p.fast_threshold + (p.slow_threshold - p.fast_threshold) * x / (p.slow_dt_ns - p.fast_dt_ns)

abbrev offset : Profile → ℕ → ℕ
offset p dt = clamp dt p.fast_dt_ns p.slow_dt_ns - p.fast_dt_ns

dynamic_threshold-curve :
    (dt : ℕ) (p : Profile) → IsSane p → dynamic_threshold dt p ≡ curve p (offset p dt)
unfolding dynamic_threshold
dynamic_threshold-curve dt p s = ground arith

curve_mono : (p : Profile) {x y : ℕ} → IsSane p → x ≤ y → curve p x ≤ curve p y
curve_mono p {x} {y} s h =
    let width : 0 < p.slow_dt_ns - p.fast_dt_ns = omega arith in
    omega (arith, div-le-div width (mul-le-mul_left (p.slow_threshold - p.fast_threshold) h))

curve_slow : (p : Profile) → IsSane p → curve p (p.slow_dt_ns - p.fast_dt_ns) ≡ p.slow_threshold
curve_slow p s =
    let width : 0 < p.slow_dt_ns - p.fast_dt_ns = omega arith in
    omega (arith, mul-div_cancel (p.slow_threshold - p.fast_threshold) width)

offset_mono : (p : Profile) (dt dt' : ℕ) → IsSane p → dt ≤ dt' → offset p dt ≤ offset p dt'
offset_mono p dt dt' s h = ground arith

offset-le : (p : Profile) (dt : ℕ) → IsSane p → offset p dt ≤ p.slow_dt_ns - p.fast_dt_ns
offset-le p dt s = ground arith

-- With a sane profile the threshold lies between the fast and the slow one, and never falls as the
-- interval between events grows.
pub dynamic_threshold_mono :
    (p : Profile) (dt dt' : ℕ)
    → IsSane p
    → dt ≤ dt'
    → (p.fast_threshold ≤ dynamic_threshold dt p)
      × (dynamic_threshold dt p ≤ dynamic_threshold dt' p)
      × (dynamic_threshold dt' p ≤ p.slow_threshold)
dynamic_threshold_mono p dt dt' s h =
    rw (dynamic_threshold-curve dt p s, dynamic_threshold-curve dt' p s)
      (
        omega arith,
        curve_mono p s (offset_mono p dt dt' s h),
        omega (arith, curve_mono p s (offset-le p dt' s), curve_slow p s),
      )

-- With a sane profile the threshold is the fast one for every interval up to `fast_dt_ns`, and the
-- slow one for every interval from `slow_dt_ns` on.
pub dynamic_threshold_ends :
    (p : Profile) (k : ℕ)
    → IsSane p
    → (dynamic_threshold (p.fast_dt_ns - k) p ≡ p.fast_threshold)
      × (dynamic_threshold (p.slow_dt_ns + k) p ≡ p.slow_threshold)
dynamic_threshold_ends p k s = (
  dynamic_threshold-curve (p.fast_dt_ns - k) p s ∙ rw low curve_zero,
  dynamic_threshold-curve (p.slow_dt_ns + k) p s ∙ rw high (curve_slow p s),
)
  where
    low : offset p (p.fast_dt_ns - k) ≡ 0
    low = ground arith

    high : offset p (p.slow_dt_ns + k) ≡ p.slow_dt_ns - p.fast_dt_ns
    high = ground arith

    curve_zero : curve p 0 ≡ p.fast_threshold
    curve_zero = omega arith
