-- ===== src/Scope/Rules/Map.antt =====
-- The rule table as a finite map from hashes to rules.
use loginext.Scope.Rules.Inv.{
  IsValid, probe_stops, slot-after_here, slot-after_other, stop_place, written-IsValid,
  clear_vacant,
}
use loginext.Scope.Rules.Probe.{
  FirstAt, lookup_from-FirstAt, lookup_from_absent, insert_from-FirstAt, written,
}
use loginext.Scope.Rules.{
  AppRule, RuleTable, rule_capacity, clear, slot, wrap, lookup, insert_from, insert,
}
use loginext.Prelude.{
  ℕ, ◌+◌, ◌<◌, ◌≡◌, ◌≢◌, ◌⊎◌, inl, inr, refl, sym, ap, ◌∙◌, Bool, true, false, not, ◌&&◌, leb, ◌==◌,
  if◌then◌else◌, Bool-cases, Option, none, some, arith,
}

abbrev reading : AppRule → Option AppRule
reading r = if r.app_hash == 0 then none else some r

-- A probe from the hash's home slot reads the slot where it stops.
lookup-FirstAt :
    (t : RuleTable) (k d : ℕ)
    → k ≢ 0
    → d < rule_capacity
    → FirstAt (slot t.slots (wrap k)) k 0 d
    → lookup t k ≡ reading (slot t.slots (wrap k) d)
unfolding lookup
lookup-FirstAt t k d ne lt f =
    let nz : (k == 0) ≡ false = ground arith in
    rw nz (lookup_from-FirstAt (slot t.slots (wrap k)) k rule_capacity 0 d f (omega arith))

lookup_zero : (t : RuleTable) → lookup t 0 ≡ none
unfolding lookup
lookup_zero t = refl

lookup_absent :
    (t : RuleTable) (k : ℕ)
    → ((s : ℕ) → s < rule_capacity → (slot t.slots (wrap k) s).app_hash ≢ k)
    → lookup t k ≡ none
unfolding lookup
lookup_absent t k h = elim (Bool-cases (k == 0)) [
  | inl e ↦ rw e
  | inr e ↦
      rw e
        (lookup_from_absent (slot t.slots (wrap k)) k rule_capacity 0 (λ s lt. h s (omega arith)))
]

module _ (t : RuleTable) (v : IsValid t) (rule : AppRule) (ne : rule.app_hash ≢ 0) (d : ℕ)
    (lt : d < rule_capacity)
    (f : FirstAt (slot t.slots (wrap rule.app_hash)) rule.app_hash 0 d) where
  abbrev new : RuleTable
  new = written t rule (wrap rule.app_hash) d

  abbrev target : ℕ
  target = wrap (wrap rule.app_hash + d)

  here : (i s : ℕ) → wrap (i + s) ≡ target → slot new.slots i s ≡ rule
  here = slot-after_here t v rule ne d lt f

  other : (i s : ℕ) → wrap (i + s) ≢ target → slot new.slots i s ≡ slot t.slots i s
  other = slot-after_other t v rule ne d lt f

  lookup-new_same : lookup new rule.app_hash ≡ some rule
  lookup-new_same =
      lookup-FirstAt new rule.app_hash d ne lt first
      ∙ rw (here (wrap rule.app_hash) d refl) (ground arith)
    where
      first : FirstAt (slot new.slots (wrap rule.app_hash)) rule.app_hash 0 d
      first = record {
        from = omega arith;
        stop = inr (ap (λ (r : AppRule). r.app_hash) (here (wrap rule.app_hash) d refl));
        before = λ s a b. rw (other (wrap rule.app_hash) s (omega arith)) (f.before s a b);
      }

  module _ (k : ℕ) (nk : k ≢ 0) (diff : k ≢ rule.app_hash) (e : ℕ) (e_lt : e < rule_capacity)
      (g : FirstAt (slot t.slots (wrap k)) k 0 e) where
    -- The probe for `k` stopped elsewhere: it still does.
    lookup-new_apart : wrap (wrap k + e) ≢ target → lookup new k ≡ lookup t k
    lookup-new_apart apart =
        lookup-FirstAt new k e nk e_lt first
        ∙ ap reading (other (wrap k) e apart)
        ∙ sym (lookup-FirstAt t k e nk e_lt g)
      where
        first : FirstAt (slot new.slots (wrap k)) k 0 e
        first = record {
          from = omega arith;
          stop = rw (other (wrap k) e apart) g.stop;
          before = λ s a b. elim (Bool-cases (wrap (wrap k + s) == target)) [
            | inl x ↦
                let at : wrap (wrap k + s) ≡ target = ground arith in
                rw (here (wrap k) s at) (ne, λ same. diff (sym same))
            | inr x ↦
                let off : wrap (wrap k + s) ≢ target = ground arith in
                rw (other (wrap k) s off) (g.before s a b)
          ];
        }

    -- The probe for `k` stopped at the free slot that is now taken: `k` is in no slot.
    lookup-new_taken : wrap (wrap k + e) ≡ target → lookup new k ≡ lookup t k
    lookup-new_taken at =
        lookup_absent new k (λ s lt' hit. absent s lt' hit)
        ∙ sym (lookup-FirstAt t k e nk e_lt g ∙ rw free)
      where
        free : (slot t.slots (wrap k) e).app_hash ≡ 0
        free = elim g.stop [
          | inl z ↦ z
          | inr z ↦ elim (stop_place t v rule ne d lt f (wrap k) e at) [
            | inl z' ↦ z'
            | inr z' ↦ absurd (diff (sym z ∙ z'))
          ]
        ]

        not_before :
            (s : ℕ)
            → s < rule_capacity
            → (slot t.slots (wrap k) s).app_hash ≡ k
            → (s < e) ⊎ (s ≡ e) ⊎ (e < s)
            → ⊥
        not_before s lt' hit (inl a) = (g.before s (omega arith) a).1 hit
        not_before s lt' hit (inr (inl a)) = nk (sym hit ∙ rw a free)
        not_before s lt' hit (inr (inr a)) = (v.placed k s nk lt' hit e a).0 free

        absent : (s : ℕ) → s < rule_capacity → (slot new.slots (wrap k) s).app_hash ≡ k → ⊥
        absent s lt' hit = elim (Bool-cases (wrap (wrap k + s) == target)) [
          | inl x ↦
              let at_s : wrap (wrap k + s) ≡ target = ground arith in
              diff (sym hit ∙ ap (λ (r : AppRule). r.app_hash) (here (wrap k) s at_s))
          | inr x ↦
              let off : wrap (wrap k + s) ≢ target = ground arith in
              not_before s lt' (sym (ap (λ (r : AppRule). r.app_hash) (other (wrap k) s off)) ∙ hit)
                (omega arith)
        ]

  lookup-new_other : (k : ℕ) → k ≢ rule.app_hash → lookup new k ≡ lookup t k
  lookup-new_other k diff = elim (Bool-cases (k == 0)) [
    | inl z ↦ let zero_k : k ≡ 0 = ground arith in rw zero_k (lookup_zero new ∙ sym (lookup_zero t))
    | inr z ↦
        let nk : k ≢ 0 = ground arith in
        let (e, e_lt, g) = probe_stops t k v in
        elim (Bool-cases (wrap (wrap k + e) == target)) [
          | inl x ↦ lookup-new_taken k nk diff e e_lt g (ground arith)
          | inr x ↦ lookup-new_apart k nk diff e e_lt g (ground arith)
        ]
  ]

-- Whether `insert` accepts the rule.
abbrev pub is_accepted : RuleTable → AppRule → Bool
is_accepted t rule = not (rule.app_hash == 0) && not (leb 32 t.count)

pub record Inserts (t : RuleTable) (rule : AppRule) (out : RuleTable × Bool) : Type 0 where
  pub valid : IsValid out.0
  pub accepted : out.1 ≡ is_accepted t rule
  pub reads :
      (k : ℕ)
      → lookup out.0 k
        ≡ (if is_accepted t rule && k == rule.app_hash then some rule else lookup t k)

insert_refused :
    (t : RuleTable) (rule : AppRule) → is_accepted t rule ≡ false → insert t rule ≡ (t, false)
unfolding insert
insert_refused t rule h = ground arith

insert_accepted :
    (t : RuleTable) (rule : AppRule)
    → is_accepted t rule ≡ true
    → insert t rule ≡ insert_from t rule (wrap rule.app_hash) rule_capacity 0
unfolding insert
insert_accepted t rule h = ground arith

-- On a valid table, `insert` succeeds exactly if the rule's hash is not 0 and fewer than 32 entries
-- are stored. It then maps the hash to the rule, whether it was there before or not, and leaves every
-- other lookup alone; if it fails, every lookup is as before. The table stays valid.
pub insert-Inserts : (t : RuleTable) (rule : AppRule) → IsValid t → Inserts t rule (insert t rule)
insert-Inserts t rule v = elim (Bool-cases (is_accepted t rule)) [
  | inl ok ↦
      let ne : rule.app_hash ≢ 0 = ground arith in
      let (d, lt, f) = probe_stops t rule.app_hash v in
      rw
        (
          insert_accepted t rule ok,
          insert_from-FirstAt t rule (wrap rule.app_hash) rule_capacity 0 d f (omega arith),
        )
        (record {
          valid = written-IsValid t v rule ne d lt f (ground arith);
          accepted = sym ok;
          reads = λ k. rw ok (elim (Bool-cases (k == rule.app_hash)) [
            | inl e ↦
                let same : k ≡ rule.app_hash = ground arith in
                rw e (rw same (lookup-new_same t v rule ne d lt f))
            | inr e ↦ rw e (lookup-new_other t v rule ne d lt f k (ground arith))
          ]);
        })
  | inr bad ↦
      rw (insert_refused t rule bad) (record { valid = v; accepted = sym bad; reads = λ k. rw bad })
]

-- After `clear` no hash has a rule.
pub lookup-clear : (t : RuleTable) (k : ℕ) → lookup (clear t) k ≡ none
lookup-clear t k = elim (Bool-cases (k == 0)) [
  | inl z ↦ let zero_k : k ≡ 0 = ground arith in rw zero_k (lookup_zero (clear t))
  | inr z ↦
      let nk : k ≢ 0 = ground arith in
      lookup_absent (clear t) k (λ s lt hit. nk (sym hit ∙ clear_vacant t (wrap k) s))
]
