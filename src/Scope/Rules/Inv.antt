-- ===== src/Scope/Rules/Inv.antt =====
-- The invariant of the rule table: every entry is reached by its probe, and half the slots are free.
use loginext.Scope.Rules.Probe.{FirstAt, probe, written}
use loginext.Scope.Rules.{
  AppRule, RuleTable, rule_capacity, empty_slot, fresh, vacate, clear, slot, wrap,
}
use mathlib.Core.List.{map}
use loginext.Prelude.{
  ℕ, zero, suc, ◌+◌, ◌-◌, ◌≤◌, ◌<◌, ◌≡◌, ◌≢◌, ◌⊎◌, inl, inr, refl, sym, ap, ◌∙◌, subst, ◌==◌,
  if◌then◌else◌, Bool-cases, List, [], ◌∷◌, length, get_or, set, length-set, get_or-set_self,
  get_or-set_ne, arith,
}

abbrev pub taken : AppRule → ℕ
taken r = if r.app_hash == 0 then 0 else 1

-- The number of slots that are not empty.
unfoldable pub occupied : List AppRule → ℕ
occupied [] = 0
occupied (r ∷ rs) = taken r + occupied rs

occupied-set :
    (rs : List AppRule) (i : ℕ) (r : AppRule)
    → i < length rs
    → occupied (set rs i r) + taken (get_or rs i empty_slot) ≡ occupied rs + taken r
unfolding occupied
occupied-set [] i r lt = absurd (omega arith)
occupied-set (x ∷ rs) zero r lt = omega arith
occupied-set (x ∷ rs) (suc i) r lt = omega (arith, occupied-set rs i r (omega arith))

occupied_full :
    (rs : List AppRule)
    → ((i : ℕ) → i < length rs → (get_or rs i empty_slot).app_hash ≢ 0)
    → occupied rs ≡ length rs
unfolding occupied
occupied_full [] h = refl
occupied_full (x ∷ rs) h =
    let first : x.app_hash ≢ 0 = h 0 (omega arith) in
    ground (arith, occupied_full rs (λ i lt. h (suc i) (omega arith)))

-- An entry's probe meets, before the entry, only slots that are taken by other hashes.
abbrev pub IsPlaced : List AppRule → Type 0
IsPlaced rs =
    (k d : ℕ)
    → k ≢ 0
    → d < rule_capacity
    → (slot rs (wrap k) d).app_hash ≡ k
    → (s : ℕ) → s < d
    → ((slot rs (wrap k) s).app_hash ≢ 0) × ((slot rs (wrap k) s).app_hash ≢ k)

pub record IsValid (t : RuleTable) : Type 0 where
  pub width : length t.slots ≡ rule_capacity
  pub counted : t.count ≡ occupied t.slots
  pub half_free : t.count ≤ 32
  pub placed : IsPlaced t.slots

-- Some slot is free, so each probe stops.
pub probe_stops :
    (t : RuleTable) (hash : ℕ)
    → IsValid t
    → (d : ℕ) × (d < rule_capacity) × FirstAt (slot t.slots (wrap hash)) hash 0 d
probe_stops t hash v = elim (probe (slot t.slots (wrap hash)) hash rule_capacity 0) [
  | inl (d, lt, f) ↦ (d, omega arith, f)
  | inr full ↦
      absurd (omega (arith, occupied_full t.slots (every full), v.width, v.counted, v.half_free))
]
  where
    every :
        ((s : ℕ) → 0 ≤ s → s < 0 + rule_capacity → (slot t.slots (wrap hash) s).app_hash ≢ 0)
        → (i : ℕ) → i < length t.slots
        → (get_or t.slots i empty_slot).app_hash ≢ 0
    every full i lt =
        let s = wrap (i + rule_capacity - wrap hash) in
        let back : wrap (wrap hash + s) ≡ i = omega (arith, v.width) in
        subst (λ j. (get_or t.slots j empty_slot).app_hash ≢ 0) back
          (full s (omega arith) (omega arith))

module _ (t : RuleTable) (v : IsValid t) (rule : AppRule) (ne : rule.app_hash ≢ 0) (d : ℕ)
    (lt : d < rule_capacity)
    (f : FirstAt (slot t.slots (wrap rule.app_hash)) rule.app_hash 0 d) where
  -- The index that `insert` writes.
  abbrev pub place : ℕ
  place = wrap (wrap rule.app_hash + d)

  abbrev pub after : List AppRule
  after = set t.slots place rule

  place-lt : place < length t.slots
  place-lt = omega (arith, v.width)

  pub slot-after_here : (i s : ℕ) → wrap (i + s) ≡ place → slot after i s ≡ rule
  slot-after_here i s e = rw e (get_or-set_self t.slots place rule empty_slot place-lt)

  pub slot-after_other : (i s : ℕ) → wrap (i + s) ≢ place → slot after i s ≡ slot t.slots i s
  slot-after_other i s e = get_or-set_ne t.slots place _ rule empty_slot (λ x. e (sym x))

  -- The slot where the probe stopped is free or has the rule's hash.
  pub stop_place :
      (i s : ℕ)
      → wrap (i + s) ≡ place
      → ((slot t.slots i s).app_hash ≡ 0) ⊎ ((slot t.slots i s).app_hash ≡ rule.app_hash)
  stop_place i s e = rw e f.stop

  placed_new :
      (k : ℕ)
      → k ≡ rule.app_hash
      → (s : ℕ) → s < d
      → ((slot after (wrap k) s).app_hash ≢ 0) × ((slot after (wrap k) s).app_hash ≢ k)
  placed_new k e s s_lt =
      let other : wrap (wrap k + s) ≢ place = omega arith in
      rw (slot-after_other (wrap k) s other) (
        subst
          (λ j. ((slot t.slots (wrap j) s).app_hash ≢ 0) × ((slot t.slots (wrap j) s).app_hash ≢ j))
          (sym e) (f.before s (omega arith) s_lt))

  placed_old :
      (k d' : ℕ)
      → k ≢ 0
      → d' < rule_capacity
      → (slot t.slots (wrap k) d').app_hash ≡ k
      → (s : ℕ) → s < d'
      → ((slot after (wrap k) s).app_hash ≢ 0) × ((slot after (wrap k) s).app_hash ≢ k)
  placed_old k d' ne_k lt' hit s s_lt =
      let old = v.placed k d' ne_k lt' hit s s_lt in
      elim (Bool-cases (wrap (wrap k + s) == place)) [
        | inl b ↦
            let e : wrap (wrap k + s) ≡ place = ground arith in
            rw (slot-after_here (wrap k) s e) (ne, λ same. clash e same old)
        | inr b ↦
            let other : wrap (wrap k + s) ≢ place = ground arith in
            rw (slot-after_other (wrap k) s other) old
      ]
    where
      clash :
          wrap (wrap k + s) ≡ place
          → rule.app_hash ≡ k
          → ((slot t.slots (wrap k) s).app_hash ≢ 0) × ((slot t.slots (wrap k) s).app_hash ≢ k)
          → ⊥
      clash e same old = elim (stop_place (wrap k) s e) [
        | inl z ↦ old.0 z
        | inr z ↦ old.1 (z ∙ same)
      ]

  after-IsPlaced : IsPlaced after
  after-IsPlaced k d' ne_k lt' hit s s_lt = elim (Bool-cases (wrap (wrap k + d') == place)) [
    | inl b ↦
        let e : wrap (wrap k + d') ≡ place = ground arith in
        let same : k ≡ rule.app_hash =
          sym hit ∙ ap (λ (r : AppRule). r.app_hash) (slot-after_here (wrap k) d' e) in
        placed_new k same s (omega arith)
    | inr b ↦
        let other : wrap (wrap k + d') ≢ place = ground arith in
        placed_old k d' ne_k lt'
          (sym (ap (λ (r : AppRule). r.app_hash) (slot-after_other (wrap k) d' other)) ∙ hit) s s_lt
  ]

  pub written-IsValid : t.count < 32 → IsValid (written t rule (wrap rule.app_hash) d)
  written-IsValid room = record {
    width = length-set t.slots place rule ∙ v.width;
    counted = ground (arith, occupied-set t.slots place rule, v.width, v.counted);
    half_free = ground arith;
    placed = after-IsPlaced;
  }

-- A table with no entry is valid.
vacant-IsPlaced :
    (rs : List AppRule) → ((i : ℕ) → (get_or rs i empty_slot).app_hash ≡ 0) → IsPlaced rs
vacant-IsPlaced rs h k d ne lt hit s s_lt = absurd (ne (sym hit ∙ h _))

get_or-vacate : (rs : List AppRule) (i : ℕ) → (get_or (map vacate rs) i empty_slot).app_hash ≡ 0
get_or-vacate [] i = refl
get_or-vacate (r ∷ rs) zero = refl
get_or-vacate (r ∷ rs) (suc i) = get_or-vacate rs i

occupied-vacate : (rs : List AppRule) → occupied (map vacate rs) ≡ 0
unfolding occupied
occupied-vacate [] = refl
occupied-vacate (r ∷ rs) = omega (arith, occupied-vacate rs)

length-vacate : (rs : List AppRule) → length (map vacate rs) ≡ length rs
length-vacate [] = refl
length-vacate (r ∷ rs) = ap suc (length-vacate rs)

pub clear-IsValid : (t : RuleTable) → length t.slots ≡ rule_capacity → IsValid (clear t)
unfolding clear
clear-IsValid t w = record {
  width = length-vacate t.slots ∙ w;
  counted = sym (occupied-vacate t.slots);
  half_free = omega arith;
  placed = vacant-IsPlaced _ (get_or-vacate t.slots);
}

pub fresh-IsValid : IsValid fresh
unfolding clear
fresh-IsValid = clear-IsValid fresh refl

pub clear_vacant : (t : RuleTable) (i s : ℕ) → (slot (clear t).slots i s).app_hash ≡ 0
unfolding clear
clear_vacant t i s = get_or-vacate t.slots _
