-- ===== src/Scope/Rules.antt =====
-- scope/rules.{hpp,cpp}: the open-addressing table from application hashes to rules.
pub mod Probe
pub mod Inv
pub mod Map
use mathlib.Core.List.{map}
use loginext.Config.Profile.{SensitivityMode}
use loginext.Presets.{PresetId}
use loginext.Prelude.{
  ℕ, zero, suc, ◌+◌, ◌/◌, ◌%◌, Bool, true, false, leb, ◌==◌, if◌then◌else◌, Option, none, some, ℤ,
  pos, negsuc, List, [], ◌∷◌, get_or, set, replicate,
}

abbrev pub rule_capacity : ℕ
rule_capacity = 64

abbrev pub invert_inherit : ℤ
invert_inherit = negsuc 0

abbrev pub invert_off : ℤ
invert_off = pos 0

abbrev pub invert_on : ℤ
invert_on = pos 1

-- `app_hash` is a `uint32_t`; 0 marks an empty slot.
pub record AppRule : Type 0 where
  pub app_hash : ℕ
  pub preset : PresetId
  pub mode : SensitivityMode
  pub invert : ℤ

pub record RuleTable : Type 0 where
  pub slots : List AppRule
  pub count : ℕ

-- `AppRule{}`: all bytes zero
abbrev pub empty_slot : AppRule
empty_slot = record {
  app_hash = 0;
  preset = PresetId.tab_nav;
  mode = SensitivityMode.low;
  invert = pos 0;
}

-- `RuleTable{}`
abbrev pub fresh : RuleTable
fresh = record { slots = replicate rule_capacity empty_slot; count = 0 }

abbrev pub vacate : AppRule → AppRule
vacate r = record r { app_hash = 0 }

-- The loop of `clear` runs over all the slots.
unfoldable pub clear : RuleTable → RuleTable
clear t = record { slots = map vacate t.slots; count = 0 }

-- `x & mask` with the mask `rule_capacity - 1`, which is 2 ^ 6 - 1.
abbrev pub wrap : ℕ → ℕ
wrap x = x % rule_capacity

-- The slot that is `step` behind the slot `i`.
abbrev pub slot : List AppRule → ℕ → ℕ → AppRule
slot slots i step = get_or slots (wrap (i + step)) empty_slot

-- The loop of `lookup`, with the rounds left and `step`; the function gives the slots in probe order.
unfoldable pub lookup_from : (ℕ → AppRule) → ℕ → ℕ → ℕ → Option AppRule
lookup_from at app_hash zero step = none
lookup_from at app_hash (suc n) step =
    let rest = lookup_from at app_hash n (step + 1) in
    if (at step).app_hash == 0
    then none
    else if (at step).app_hash == app_hash
    then some (at step)
    else rest

unfoldable pub lookup : RuleTable → ℕ → Option AppRule
unfolding lookup_from
lookup t app_hash =
    if app_hash == 0
    then none
    else lookup_from (slot t.slots (wrap app_hash)) app_hash rule_capacity 0

-- The loop of `insert`. The flag is the function's result.
unfoldable pub insert_from : RuleTable → AppRule → ℕ → ℕ → ℕ → RuleTable × Bool
insert_from t rule i zero step = (t, false)
insert_from t rule i (suc n) step =
    let r = slot t.slots i step in
    let rest = insert_from t rule i n (step + 1) in
    if r.app_hash == 0
    then (record { slots = set t.slots (wrap (i + step)) rule; count = t.count + 1 }, true)
    else if r.app_hash == rule.app_hash
    then (
      record t {
        slots =
            set t.slots (wrap (i + step))
              (record r { preset = rule.preset; mode = rule.mode; invert = rule.invert });
      },
      true,
    )
    else rest

-- The arguments after the table are the fields of `rule`.
unfoldable pub insert : RuleTable → AppRule → RuleTable × Bool
unfolding insert_from
insert t rule =
    if rule.app_hash == 0
    then (t, false)
    else if leb (rule_capacity / 2) t.count
    then (t, false)
    else insert_from t rule (wrap rule.app_hash) rule_capacity 0
