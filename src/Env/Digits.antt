-- ===== src/Env/Digits.antt =====
-- Decimal numbers, printed with "%u" and read with `strtoul`.
use loginext.Env.{digits, decimal, is_digit, is_space, read_digits, strtoul, to_id, ulong_max}
use loginext.Prelude.{
  ℕ, zero, suc, ◌+◌, ◌*◌, ◌-◌, ◌/◌, ◌%◌, ◌^◌, ◌<◌, ◌≡◌, refl, ap, ◌∙◌, true, false, ◌==◌, min, [],
  ◌∷◌, Bytes, Bool-cases, inl, inr, arith,
}

digits_last :
    (fuel n : ℕ) (s : Bytes) → (n / 10 == 0) ≡ true → digits (suc fuel) n s ≡ (b'0' + n % 10) ∷ s
unfolding digits
digits_last fuel n s e = rw (digits, e)

digits_more :
    (fuel n : ℕ) (s : Bytes)
    → (n / 10 == 0) ≡ false
    → digits (suc fuel) n s ≡ digits fuel (n / 10) ((b'0' + n % 10) ∷ s)
unfolding digits
digits_more fuel n s e = rw (digits, e)

read_digit :
    (k d : ℕ) (s : Bytes) → d < 10 → read_digits k ((b'0' + d) ∷ s) ≡ read_digits (k * 10 + d) s
read_digit k d s h =
    let e : is_digit (b'0' + d) ≡ true = ground arith in
    let e' : b'0' + d - b'0' ≡ d = omega arith in rw (e, e') refl

read_digits-last :
    (fuel n : ℕ) (s : Bytes)
    → (n / 10 == 0) ≡ true
    → read_digits 0 (digits (suc fuel) n s) ≡ read_digits n s
read_digits-last fuel n s e =
    let same : 0 * 10 + n % 10 ≡ n = ground arith in
    rw (digits_last fuel n s e)
      (read_digit 0 (n % 10) s (omega arith) ∙ ap (λ k. read_digits k s) same)

read_digits-digits :
    (fuel n : ℕ) (s : Bytes)
    → n < 10 ^ suc fuel
    → read_digits 0 (digits (suc fuel) n s) ≡ read_digits n s
read_digits-digits zero n s h = read_digits-last zero n s (ground arith)
read_digits-digits (suc fuel) n s h = elim (Bool-cases (n / 10 == 0)) [
  | inl e ↦ read_digits-last (suc fuel) n s e
  | inr e ↦
      let same : n / 10 * 10 + n % 10 ≡ n = omega arith in
      rw (digits_more (suc fuel) n s e) (
        read_digits-digits fuel (n / 10) ((b'0' + n % 10) ∷ s)
          (smaller (10 ^ suc fuel) (omega arith))
        ∙ read_digit (n / 10) (n % 10) s (omega arith)
        ∙ ap (λ k. read_digits k s) same)
]
  where
    smaller : (p : ℕ) → n < 10 * p → n / 10 < p
    smaller p h = omega arith

abbrev IsDigits : Bytes → Type 0
IsDigits [] = ⊥
IsDigits (c ∷ s) = is_digit c ≡ true

digits-IsDigits : (fuel n : ℕ) (s : Bytes) → IsDigits s → IsDigits (digits fuel n s)
unfolding digits
digits-IsDigits zero n s d = d
digits-IsDigits (suc fuel) n s d =
    let c : is_digit (b'0' + n % 10) ≡ true = ground arith in
    elim (Bool-cases (n / 10 == 0)) [
      | inl e ↦ rw e c
      | inr e ↦ rw e (digits-IsDigits fuel (n / 10) ((b'0' + n % 10) ∷ s) c)
    ]

strtoul_digits : (s : Bytes) → IsDigits s → strtoul s ≡ min ulong_max (read_digits 0 s)
unfolding strtoul
strtoul_digits [] d = elim d [ ]
strtoul_digits (c ∷ s) d =
    let space : is_space c ≡ false = ground arith in
    let minus : (c == b'-') ≡ false = ground arith in
    let plus : (c == b'+') ≡ false = ground arith in rw (space, minus, plus) refl

-- Every number of 32 bits is printed with at most ten digits, so that `strtoul` reads it back.
pub to_id-decimal : (n : ℕ) → n < 2 ^ 32 → to_id (decimal n) ≡ n
to_id-decimal n h =
    rw (strtoul_digits (decimal n) (first n), read_digits-digits 9 n [] (omega arith))
      (ground arith)
  where
    first : (n : ℕ) → IsDigits (decimal n)
    first n = elim (Bool-cases (n / 10 == 0)) [
      | inl e ↦ rw (digits_last 9 n [] e) (ground arith)
      | inr e ↦ rw (digits_more 9 n [] e) (digits-IsDigits 9 (n / 10) _ (ground arith))
    ]
