-- ===== src/Scope/RulesLoader/Load.antt =====
-- What `load_rules` leaves in the table.
use loginext.Scope.AppHash.{hash_app_lem}
use loginext.Scope.Rules.{
  AppRule, RuleTable, rule_capacity, clear, lookup, insert, insert_from, wrap,
}
use loginext.Scope.Rules.Inv.{IsValid, clear-IsValid}
use loginext.Scope.Rules.Map.{is_accepted, insert-Inserts, lookup-clear}
use loginext.Scope.RulesLoader.{
  split_lines, split_at, split_csv, trim, field, read_fields, read_preset, read_entry, read_sides,
  read_trimmed, read_line, store, load_lines, load_rules,
}
use loginext.Presets.{PresetId, preset_id_from_str}
use loginext.Prelude.{
  ℕ, zero, suc, ◌+◌, ◌≤◌, ◌≡◌, ◌≢◌, refl, sym, ap, ◌∙◌, Bool, true, false, ◌&&◌, ◌==◌,
  if◌then◌else◌, Bool-cases, inl, inr, Option, none, some, List, [], ◌∷◌, length, take, Bytes,
  arith,
}

abbrev pub or_else {ℓ} : {A : Type ℓ} → Option A → Option A → Option A
or_else none b = b
or_else (some a) b = some a

abbrev pub assigned : Option AppRule → ℕ → Option AppRule
assigned none k = none
assigned (some r) k = if k == r.app_hash then some r else none

-- The rule that the lines give to a hash: the last one wins.
unfoldable pub last_rule : List Bytes → ℕ → Option AppRule
last_rule [] k = none
last_rule (line ∷ lines) k = or_else (last_rule lines k) (assigned (read_line line).0 k)

-- The number of lines with a rule.
abbrev pub is_rule : Option AppRule → ℕ
is_rule none = 0
is_rule (some r) = 1

unfoldable pub rule_lines : List Bytes → ℕ
rule_lines [] = 0
rule_lines (line ∷ lines) = is_rule (read_line line).0 + rule_lines lines

-- Whether no line has an error.
unfoldable pub all_fine : List Bytes → Bool
all_fine [] = true
all_fine (line ∷ lines) = (read_line line).1 && all_fine lines

or_else_assoc {ℓ} :
    {A : Type ℓ} (a b c : Option A) → or_else (or_else a b) c ≡ or_else a (or_else b c)
or_else_assoc none b c = refl
or_else_assoc (some a) b c = refl

and_assoc : (a b c : Bool) → ((a && b) && c) ≡ (a && (b && c))
and_assoc true b c = refl
and_assoc false b c = refl

insert_from-count :
    (t : RuleTable) (rule : AppRule) (i n step : ℕ)
    → (insert_from t rule i n step).0.count ≤ t.count + 1
unfolding insert_from
insert_from-count t rule i zero step = omega arith
insert_from-count t rule i (suc n) step = ground (arith, insert_from-count t rule i n (step + 1))

insert-count : (t : RuleTable) (rule : AppRule) → (insert t rule).0.count ≤ t.count + 1
unfolding insert
insert-count t rule = ground (arith, insert_from-count t rule (wrap rule.app_hash) rule_capacity 0)

-- A rule that a line gives has a hash.
HasHash : Option AppRule → Type 0
HasHash none = Unit
HasHash (some r) = r.app_hash ≢ 0

read_fields-HasHash :
    (app : Bytes) (fs : List Bytes) (p : Option PresetId) → HasHash (read_fields app fs p).0
unfolding HasHash
read_fields-HasHash app fs none = tt
read_fields-HasHash app fs (some p) = let (_, positive, _) = hash_app_lem app in omega arith

read_preset-HasHash : (app : Bytes) (fs : List Bytes) (s : Bytes) → HasHash (read_preset app fs s).0
unfolding HasHash
read_preset-HasHash app fs [] = tt
read_preset-HasHash app fs (c ∷ s) = read_fields-HasHash app fs (preset_id_from_str (c ∷ s))

read_sides-HasHash : (o : Option (Bytes × Bytes)) → HasHash (read_sides o).0
unfolding HasHash
read_sides-HasHash none = tt
read_sides-HasHash (some (a, v)) = entry (trim a)
  where
    entry : (app : Bytes) → HasHash (read_entry app (trim v)).0
    entry [] = tt
    entry (c ∷ app) = let fs = split_csv 3 (trim v) in read_preset-HasHash (c ∷ app) fs (field fs 0)

read_line-HasHash : (line : Bytes) → HasHash (read_line line).0
unfolding read_line HasHash
read_line-HasHash line = trimmed (trim line)
  where
    trimmed : (s : Bytes) → HasHash (read_trimmed s).0
    trimmed [] = tt
    trimmed (c ∷ s) = elim (Bool-cases (c == b'#')) [
      | inl e ↦ rw e tt
      | inr e ↦ rw e (read_sides-HasHash (split_at b'=' (c ∷ s)))
    ]

store-IsValid :
    (t : RuleTable) (ok : Bool) (x : Option AppRule × Bool) → IsValid t → IsValid (store t ok x).0
store-IsValid t ok (none, fine) v = v
store-IsValid t ok (some r, fine) v = (insert-Inserts t r v).valid

load_lines-IsValid :
    (t : RuleTable) (ok : Bool) (lines : List Bytes) → IsValid t → IsValid (load_lines t ok lines).0
unfolding load_lines
load_lines-IsValid t ok [] v = v
load_lines-IsValid t ok (line ∷ lines) v =
    load_lines-IsValid (store t ok (read_line line)).0 (store t ok (read_line line)).1 lines
      (store-IsValid t ok (read_line line) v)

-- Whatever the file holds, however many rules it has, and whatever the 64 slots held before, the
-- table is valid after `load_rules`.
pub load_rules-IsValid :
    (file : Option Bytes) (t : RuleTable)
    → length t.slots ≡ rule_capacity
    → IsValid (load_rules file t).0
unfolding load_rules
load_rules-IsValid none t w = clear-IsValid t w
load_rules-IsValid (some src) t w =
    load_lines-IsValid (clear t) true (split_lines (take 4095 src)) (clear-IsValid t w)

-- What a round does while there is room.
record Stores (t : RuleTable) (ok : Bool) (x : Option AppRule × Bool) : Type 0 where
  room : (store t ok x).0.count ≤ t.count + is_rule x.0
  reads : (k : ℕ) → lookup (store t ok x).0 k ≡ or_else (assigned x.0 k) (lookup t k)
  flag : (store t ok x).1 ≡ (ok && x.1)

store-Stores :
    (t : RuleTable) (ok : Bool) (x : Option AppRule × Bool)
    → IsValid t
    → HasHash x.0
    → t.count + is_rule x.0 ≤ 32
    → Stores t ok x
unfolding HasHash
store-Stores t ok (none, fine) v h le = record {
  room = omega arith;
  reads = λ k. refl;
  flag = refl;
}
store-Stores t ok (some r, fine) v h le =
    let ins = insert-Inserts t r v in
    let accept : is_accepted t r ≡ true = ground arith in
    record {
      room = insert-count t r;
      reads = λ k.
          ins.reads k
          ∙ elim (Bool-cases (k == r.app_hash)) [ inl e ↦ rw (accept, e) | inr e ↦ rw (accept, e) ];
      flag = rw (ins.accepted, accept) (ground arith);
    }

clear-count : (t : RuleTable) → (clear t).count ≡ 0
unfolding clear
clear-count t = refl

pub record Loads (t : RuleTable) (ok : Bool) (lines : List Bytes) (out : RuleTable × Bool)
    : Type 0 where
  pub reads : (k : ℕ) → lookup out.0 k ≡ or_else (last_rule lines k) (lookup t k)
  pub flag : out.1 ≡ (ok && all_fine lines)

load_lines-Loads :
    (t : RuleTable) (ok : Bool) (lines : List Bytes)
    → IsValid t
    → t.count + rule_lines lines ≤ 32
    → Loads t ok lines (load_lines t ok lines)
unfolding load_lines last_rule rule_lines all_fine
load_lines-Loads t ok [] v le = record { reads = λ k. refl; flag = ground arith }
load_lines-Loads t ok (line ∷ lines) v le =
    let x = read_line line in
    let first = store-Stores t ok x v (read_line-HasHash line) (omega arith) in
    let rest =
      load_lines-Loads (store t ok x).0 (store t ok x).1 lines (store-IsValid t ok x v)
        (omega (arith, first.room)) in
    record {
      reads = λ k.
          rest.reads k
          ∙ ap (or_else (last_rule lines k)) (first.reads k)
          ∙ sym (or_else_assoc (last_rule lines k) (assigned x.0 k) (lookup t k));
      flag =
          rest.flag
          ∙ ap (λ (b : Bool). b && all_fine lines) first.flag
          ∙ and_assoc ok x.1 (all_fine lines);
    }

or_else_none {ℓ} : {A : Type ℓ} (o : Option A) → or_else o none ≡ o
or_else_none none = refl
or_else_none (some a) = refl

abbrev pub file_lines : Bytes → List Bytes
file_lines src = split_lines (take 4095 src)

-- For a file of at most 32 lines with a rule, and a table of 64 slots whatever they held before: a
-- hash has after `load_rules` the rule of the last line that gives it one, and no rule if no line
-- does; the result is `true` exactly if no line has an error.
pub load_rules-lookup :
    (src : Bytes) (t : RuleTable)
    → length t.slots ≡ rule_capacity
    → rule_lines (file_lines src) ≤ 32
    → ((k : ℕ) → lookup (load_rules (some src) t).0 k ≡ last_rule (file_lines src) k)
      × ((load_rules (some src) t).1 ≡ all_fine (file_lines src))
unfolding load_rules
load_rules-lookup src t w le =
    let empty : (clear t).count ≡ 0 = clear-count t in
    let loads =
      load_lines-Loads (clear t) true (file_lines src) (clear-IsValid t w) (omega arith) in
    (
      λ k.
          loads.reads k
          ∙ ap (or_else (last_rule (file_lines src) k)) (lookup-clear t k)
          ∙ or_else_none (last_rule (file_lines src) k),
      loads.flag,
    )
