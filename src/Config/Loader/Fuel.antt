-- ===== src/Config/Loader/Fuel.antt =====
-- Each step of the parser leaves fewer bytes, so the loop does not run out of its fuel.
use mathlib.Core.Option
use loginext.Config.Loader.{
  ◌>>=◌, peek, choose_bool, consume, skip_ws, match_lit, string_body, parse_string_view, parse_bool,
  skip_value, set_mode, set_invert, set_preset, after_member, apply_value, parse_member,
  parse_members, sensitivity,
}
use loginext.Config.Settings.{Settings}
use loginext.Presets.{preset_id_from_str}
use loginext.Prelude.{
  ℕ, zero, suc, ◌+◌, ◌-◌, ◌≤◌, ◌<◌, ◌≡◌, refl, Bool, true, false, ◌||◌, ◌==◌, if◌then◌else◌, Option,
  none, some, [], ◌∷◌, length, Bytes, codes, eq_bytes, Option-cases, Bool-cases, inl, inr, arith,
}

-- What is left of a result is no longer than `n`.
abbrev Leaves {ℓ} : {A : Type ℓ} → ℕ → Option (A × Bytes) → Type 0
Leaves n none = Unit
Leaves n (some (a, r)) = length r ≤ n

length-skip_ws : (s : Bytes) → length (skip_ws s) ≤ length s
unfolding skip_ws
length-skip_ws [] = omega arith
length-skip_ws (c ∷ s) = ground (arith, length-skip_ws s)

length-consume : (c : ℕ) (s : Bytes) {r : Bytes} → consume c s ≡ some r → length r + 1 ≡ length s
length-consume c [] h = cc
length-consume c (x ∷ s) h = ground arith

abbrev LeavesRest : ℕ → Option Bytes → Type 0
LeavesRest n none = Unit
LeavesRest n (some r) = length r ≤ n

match_lit-LeavesRest : (lit s : Bytes) → LeavesRest (length s) (match_lit lit s)
unfolding match_lit
match_lit-LeavesRest [] s = omega arith
match_lit-LeavesRest (x ∷ lit) [] = tt
match_lit-LeavesRest (x ∷ lit) (c ∷ s) = elim (Bool-cases (x == c)) [
  | inl e ↦ rw e (LeavesRest-suc (length s) (match_lit lit s) (match_lit-LeavesRest lit s))
  | inr e ↦ rw e tt
]
  where
    LeavesRest-suc : (n : ℕ) (o : Option Bytes) → LeavesRest n o → LeavesRest (suc n) o
    LeavesRest-suc n none h = tt
    LeavesRest-suc n (some r) h = omega arith

string_body-Leaves : (s : Bytes) → Leaves (length s) (string_body s)
unfolding string_body
string_body-Leaves [] = tt
string_body-Leaves (c ∷ s) = ground (arith, string_body-Leaves s)

bind-Leaves {ℓ κ} :
    {A : Type ℓ} {B : Type κ} (n : ℕ) (m : Option (A × Bytes)) (f : A × Bytes → Option (B × Bytes))
    → Leaves n m
    → ((x : A × Bytes) → length x.1 ≤ n → Leaves n (f x))
    → Leaves n (m >>= f)
bind-Leaves n none f h k = tt
bind-Leaves n (some (a, r)) f h k = k (a, r) h

Leaves-mono {ℓ} : {A : Type ℓ} (n m : ℕ) (o : Option (A × Bytes)) → n ≤ m → Leaves n o → Leaves m o
Leaves-mono n m none le h = tt
Leaves-mono n m (some (a, r)) le h = omega arith

-- A string takes at least its quote.
parse_string_view-Leaves : (s : Bytes) (n : ℕ) → length s ≤ suc n → Leaves n (parse_string_view s)
unfolding parse_string_view
parse_string_view-Leaves s n le = elim (Option-cases (consume b'"' s)) [
  | inl e ↦ rw e tt
  | inr (r, e) ↦ rw e (
      Leaves-mono (length r) n (string_body r) (omega (arith, length-consume b'"' s e))
        (string_body-Leaves r))
]

parse_bool-Leaves : (s : Bytes) → Leaves (length s) (parse_bool s)
unfolding parse_bool
parse_bool-Leaves s =
    chosen (match_lit (codes "true") s) (match_lit (codes "false") s)
      (match_lit-LeavesRest (codes "true") s) (match_lit-LeavesRest (codes "false") s)
  where
    chosen :
        (a b : Option Bytes)
        → LeavesRest (length s) a
        → LeavesRest (length s) b
        → Leaves (length s) (choose_bool a b)
    chosen (some r) b h k = h
    chosen none (some r) h k = k
    chosen none none h k = tt

map_snd-LeavesRest {ℓ} :
    {A : Type ℓ} (n : ℕ) (o : Option (A × Bytes))
    → Leaves n o
    → LeavesRest n (Option.map (λ (r : A × Bytes). r.1) o)
map_snd-LeavesRest n none h = tt
map_snd-LeavesRest n (some (a, r)) h = h

skip_value-LeavesRest : (s : Bytes) → LeavesRest (length s) (skip_value s)
unfolding skip_value
skip_value-LeavesRest s = elim (Bool-cases (peek s == b'"')) [
  | inl e ↦ rw e (
      map_snd-LeavesRest (length s) (parse_string_view s)
        (parse_string_view-Leaves s (length s) (omega arith)))
  | inr e ↦ elim (Bool-cases (peek s == b't' || peek s == b'f')) [
    | inl e' ↦ rw (e, e') (map_snd-LeavesRest (length s) (parse_bool s) (parse_bool-Leaves s))
    | inr e' ↦ rw (e, e') tt
  ]
]

keep-Leaves :
    {A : Type 0} (n : ℕ) (o : Option A) (r : Bytes) {B : Type 0} (f : A → B)
    → length r ≤ n
    → Leaves n (o >>= (λ a. some (f a, r)))
keep-Leaves n none r f h = tt
keep-Leaves n (some a) r f h = h

apply_value-Leaves :
    (key : Bytes) (out : Settings) (s : Bytes) → Leaves (length s) (apply_value key out s)
unfolding apply_value
apply_value-Leaves key out s =
    pick (eq_bytes key (codes "sensitivity")) (eq_bytes key (codes "invert_hwheel"))
      (eq_bytes key (codes "active_preset"))
  where
    n : ℕ
    n = length s

    text : Leaves n (parse_string_view s)
    text = parse_string_view-Leaves s n (omega arith)

    skipped : (o : Option Bytes) → LeavesRest n o → Leaves n (Option.map (λ r. (out, r)) o)
    skipped none h = tt
    skipped (some r) h = h

    pick :
        (a b c : Bool)
        → Leaves n (
            if a
            then set_mode out s
            else if b
            then set_invert out s
            else if c
            then set_preset out s
            else Option.map (λ r. (out, r)) (skip_value s))
    pick true b c =
        bind-Leaves n (parse_string_view s) _ text
          (λ x h. keep-Leaves n (sensitivity x.0) x.1 (λ m. record out { mode = m }) h)
    pick false true c = bind-Leaves n (parse_bool s) _ (parse_bool-Leaves s) (λ x h. h)
    pick false false true = bind-Leaves n (parse_string_view s) _ text (λ x h.
        keep-Leaves n (preset_id_from_str x.0) x.1 (λ id. record out { active_preset = id }) h)
    pick false false false = skipped (skip_value s) (skip_value-LeavesRest s)

bind_rest-Leaves {κ} :
    {B : Type κ} (n : ℕ) (m : Option Bytes) (f : Bytes → Option (B × Bytes))
    → LeavesRest n m
    → ((r : Bytes) → length r ≤ n → Leaves n (f r))
    → Leaves n (m >>= f)
bind_rest-Leaves n none f h k = tt
bind_rest-Leaves n (some r) f h k = k r h

consume-LeavesRest : (c n : ℕ) (s : Bytes) → length s ≤ n → LeavesRest n (consume c s)
consume-LeavesRest c n [] h = tt
consume-LeavesRest c n (x ∷ s) h = elim (Bool-cases (x == c)) [
  | inl e ↦ rw e (omega arith)
  | inr e ↦ rw e tt
]

parse_member-Leaves :
    (s : Bytes) (out : Settings) (n : ℕ) → length s ≤ suc n → Leaves n (parse_member s out)
unfolding parse_member
parse_member-Leaves s out n le =
    bind-Leaves n (parse_string_view (skip_ws s)) _
      (parse_string_view-Leaves (skip_ws s) n (omega (arith, length-skip_ws s)))
      (λ x h.
        bind_rest-Leaves n (consume b':' (skip_ws x.1)) _
          (consume-LeavesRest b':' n (skip_ws x.1) (omega (arith, length-skip_ws x.1)))
          (λ r h'.
            bind-Leaves n (apply_value x.0 out (skip_ws r)) _
              (Leaves-mono (length (skip_ws r)) n (apply_value x.0 out (skip_ws r))
                (omega (arith, length-skip_ws r)) (apply_value-Leaves x.0 out (skip_ws r)))
              (λ y h''. omega (arith, length-skip_ws y.1))))

-- Two loops that agree on fewer than `n` bytes agree after a round.
module _ (f g : Bytes → Settings → Option Settings) (n : ℕ)
    (agree : (r : Bytes) (out : Settings) → length r < n → f r out ≡ g r out) where
  after_member_agree :
      (out : Settings) (r : Bytes) (c : Option Bytes)
      → length r ≤ n
      → consume b',' r ≡ c
      → after_member f out r c ≡ after_member g out r c
  after_member_agree out r none le e = refl
  after_member_agree out r (some r') le e = agree r' out (omega (arith, length-consume b',' r e))

  round_agree :
      (o : Option (Settings × Bytes))
      → Leaves n o
      → (o >>= (λ x. after_member f x.0 x.1 (consume b',' x.1)))
        ≡ (o >>= (λ x. after_member g x.0 x.1 (consume b',' x.1)))
  round_agree none l = refl
  round_agree (some (out, r)) l = after_member_agree out r (consume b',' r) l refl

-- The loop of `parse` returns what it would return with any larger fuel, if the fuel is more than
-- the number of bytes: it never stops for want of fuel.
pub parse_members_fuel :
    (n m : ℕ) (s : Bytes) (out : Settings)
    → length s < n
    → length s < m
    → parse_members n s out ≡ parse_members m s out
unfolding parse_members
parse_members_fuel zero m s out h k = absurd (omega arith)
parse_members_fuel (suc n) zero s out h k = absurd (omega arith)
parse_members_fuel (suc n) (suc m) s out h k =
    let ih = λ (r : Bytes) (out' : Settings) (lt : length r < length s - 1).
      parse_members_fuel n m r out' (omega arith) (omega arith) in
    round_agree (parse_members n) (parse_members m) (length s - 1) ih (parse_member s out)
      (parse_member-Leaves s out (length s - 1) (omega arith))
