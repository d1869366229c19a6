-- ===== src/Scope/Rules/Probe.antt =====
-- Where a probe stops.
use loginext.Scope.Rules.{AppRule, RuleTable, slot, wrap, lookup_from, insert_from}
use loginext.Prelude.{
  ℕ, zero, suc, ◌+◌, ◌≤◌, ◌<◌, ◌≡◌, ◌≢◌, ◌⊎◌, inl, inr, refl, ◌==◌, if◌then◌else◌, none, some, true,
  Bool-cases, arith, set,
}

-- The first slot from `lo` on that is empty or has the hash.
pub record FirstAt (at : ℕ → AppRule) (hash lo d : ℕ) : Type 0 where
  pub from : lo ≤ d
  pub stop : ((at d).app_hash ≡ 0) ⊎ ((at d).app_hash ≡ hash)
  pub before : (s : ℕ) → lo ≤ s → s < d → ((at s).app_hash ≢ 0) × ((at s).app_hash ≢ hash)

module _ (at : ℕ → AppRule) (hash : ℕ) where
  FirstAt-here :
      (lo : ℕ) → ((at lo).app_hash ≡ 0) ⊎ ((at lo).app_hash ≡ hash) → FirstAt at hash lo lo
  FirstAt-here lo h = record {
    from = omega arith;
    stop = h;
    before = λ s a b. absurd (omega arith);
  }

  FirstAt-later :
      (lo d : ℕ)
      → (at lo).app_hash ≢ 0
      → (at lo).app_hash ≢ hash
      → FirstAt at hash (lo + 1) d
      → FirstAt at hash lo d
  FirstAt-later lo d ne₀ ne f = record {
    from = omega (arith, f.from);
    stop = f.stop;
    before = λ s a b. elim (Bool-cases (s == lo)) [
      | inl e ↦ let same : s ≡ lo = ground arith in rw same (ne₀, ne)
      | inr e ↦ f.before s (ground arith) b
    ];
  }

  -- A probe stops, or passes only slots that are taken by others.
  pub probe :
      (n lo : ℕ)
      → ((d : ℕ) × (d < lo + n) × FirstAt at hash lo d)
        ⊎ ((s : ℕ) → lo ≤ s → s < lo + n → (at s).app_hash ≢ 0)
  probe zero lo = inr (λ s a b. absurd (omega arith))
  probe (suc n) lo = elim (Bool-cases ((at lo).app_hash == 0)) [
    | inl e ↦ inl (lo, omega arith, FirstAt-here lo (inl (ground arith)))
    | inr e ↦ elim (Bool-cases ((at lo).app_hash == hash)) [
      | inl e' ↦ inl (lo, omega arith, FirstAt-here lo (inr (ground arith)))
      | inr e' ↦ elim (probe n (lo + 1)) [
        | inl (d, lt, f) ↦ inl (d, omega arith, FirstAt-later lo d (ground arith) (ground arith) f)
        | inr taken ↦ inr (λ s a b. elim (Bool-cases (s == lo)) [
          | inl s_lo ↦ let same : s ≡ lo = ground arith in rw same (ground arith)
          | inr s_lo ↦ taken s (ground arith) (omega arith)
        ])
      ]
    ]
  ]

  pub FirstAt-next : (lo d : ℕ) → FirstAt at hash lo d → lo ≢ d → FirstAt at hash (lo + 1) d
  FirstAt-next lo d f ne = record {
    from = omega (arith, f.from);
    stop = f.stop;
    before = λ s a b. f.before s (omega arith) b;
  }

  pub lookup_from-FirstAt :
      (n lo d : ℕ)
      → FirstAt at hash lo d
      → d < lo + n
      → lookup_from at hash n lo ≡ (if (at d).app_hash == 0 then none else some (at d))
  unfolding lookup_from
  lookup_from-FirstAt zero lo d f lt = absurd (omega (arith, f.from))
  lookup_from-FirstAt (suc n) lo d f lt = elim (Bool-cases (lo == d)) [
    | inl e ↦ let same : lo ≡ d = ground arith in rw same (ground (arith, f.stop))
    | inr e ↦
        let ne : lo ≢ d = ground arith in
        ground (
          arith,
          f.from,
          f.before lo,
          lookup_from-FirstAt n (lo + 1) d (FirstAt-next lo d f ne) (omega arith),
        )
  ]

  pub lookup_from_absent :
      (n lo : ℕ) → ((s : ℕ) → s < lo + n → (at s).app_hash ≢ hash) → lookup_from at hash n lo ≡ none
  unfolding lookup_from
  lookup_from_absent zero lo h = refl
  lookup_from_absent (suc n) lo h =
      ground (arith, h lo, lookup_from_absent n (lo + 1) (λ s lt. h s (omega arith)))

-- The table after a rule is written `d` behind the slot `i`: an entry of the same hash is replaced
-- whole, as its hash is the rule's.
abbrev pub written : RuleTable → AppRule → ℕ → ℕ → RuleTable
written t rule i d = record {
  slots = set t.slots (wrap (i + d)) rule;
  count = if (slot t.slots i d).app_hash == 0 then t.count + 1 else t.count;
}

pub insert_from-FirstAt :
    (t : RuleTable) (rule : AppRule) (i n lo d : ℕ)
    → FirstAt (slot t.slots i) rule.app_hash lo d
    → d < lo + n
    → insert_from t rule i n lo ≡ (written t rule i d, true)
unfolding insert_from
insert_from-FirstAt t rule i zero lo d f lt = absurd (omega (arith, f.from))
insert_from-FirstAt t rule i (suc n) lo d f lt = elim (Bool-cases (lo == d)) [
  | inl e ↦ let same : lo ≡ d = ground arith in rw same (ground (arith, f.stop))
  | inr e ↦
      let ne : lo ≢ d = ground arith in
      let next = FirstAt-next (slot t.slots i) rule.app_hash lo d f ne in
      ground
        (arith, f.from, f.before lo, insert_from-FirstAt t rule i n (lo + 1) d next (omega arith))
]
