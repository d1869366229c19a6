-- ===== src/Ipc/Dispatch/Escape.antt =====
-- The escaping of names in responses.
use loginext.Ipc.Dispatch.{escape_from, json_escape_into}
use mathlib.Core.Option
use loginext.Prelude.{
  ℕ, ◌+◌, ◌*◌, ◌≤◌, ◌<◌, ◌≡◌, ◌≢◌, refl, Bool, true, false, ◌&&◌, ◌||◌, leb, ◌==◌, if◌then◌else◌,
  Option, none, some, [], ◌∷◌, ◌++◌, length, Bytes, Bool-cases, inl, inr, arith,
}

-- No control character.
abbrev pub is_printable : Bytes → Bool
is_printable [] = true
is_printable (c ∷ s) = leb 32 c && is_printable s

pub escape_from-length : (cap n : ℕ) (s : Bytes) → n < cap → n + length (escape_from cap n s) < cap
unfolding escape_from
escape_from-length cap n [] lt = omega arith
escape_from-length cap n (c ∷ s) lt = ground (
  arith,
  escape_from-length cap (n + 2) s,
  escape_from-length cap (n + 1) s,
  escape_from-length cap n s lt,
)

pub escape_from-is_printable : (cap n : ℕ) (s : Bytes) → is_printable (escape_from cap n s) ≡ true
unfolding escape_from
escape_from-is_printable cap n [] = refl
escape_from-is_printable cap n (c ∷ s) = ground (
  arith,
  escape_from-is_printable cap (n + 2) s,
  escape_from-is_printable cap (n + 1) s,
  escape_from-is_printable cap n s,
)

-- What a JSON reader makes of the inside of a string, up to its closing quote.
unfoldable pub read_json : Bytes → Option (Bytes × Bytes)
read_json [] = none
read_json (c ∷ []) = if c == b'"' then some ([], []) else none
read_json (c ∷ d ∷ s) =
    let escaped = Option.map (λ (r : Bytes × Bytes). (d ∷ r.0, r.1)) (read_json s) in
    let plain = Option.map (λ (r : Bytes × Bytes). (c ∷ r.0, r.1)) (read_json (d ∷ s)) in
    if c == b'"' then some ([], d ∷ s) else if c == b'\\' then escaped else plain

read_json_end : (rest : Bytes) → read_json (b'"' ∷ rest) ≡ some ([], rest)
unfolding read_json
read_json_end [] = refl
read_json_end (d ∷ s) = refl

read_json_plain :
    (c : ℕ) (t : Bytes)
    → c ≢ b'"'
    → c ≢ b'\\'
    → read_json (c ∷ t) ≡ Option.map (λ (r : Bytes × Bytes). (c ∷ r.0, r.1)) (read_json t)
unfolding read_json
read_json_plain c [] q b = ground arith
read_json_plain c (d ∷ s) q b = ground arith

read_json_escaped :
    (d : ℕ) (t : Bytes)
    → read_json (b'\\' ∷ d ∷ t) ≡ Option.map (λ (r : Bytes × Bytes). (d ∷ r.0, r.1)) (read_json t)
unfolding read_json
read_json_escaped d t = refl

escape_from_plain :
    (cap n c : ℕ) (s : Bytes)
    → n + 2 < cap
    → c ≢ b'"'
    → c ≢ b'\\'
    → 32 ≤ c
    → escape_from cap n (c ∷ s) ≡ c ∷ escape_from cap (n + 1) s
unfolding escape_from
escape_from_plain cap n c s lt q b p = ground arith

escape_from_quote :
    (cap n c : ℕ) (s : Bytes)
    → n + 2 < cap
    → (c == b'"' || c == b'\\') ≡ true
    → escape_from cap n (c ∷ s) ≡ b'\\' ∷ c ∷ escape_from cap (n + 2) s
unfolding escape_from
escape_from_quote cap n c s lt q = ground arith

read_json-escape_from :
    (cap n : ℕ) (s rest : Bytes)
    → n + 2 * length s < cap
    → is_printable s ≡ true
    → read_json (escape_from cap n s ++ b'"' ∷ rest) ≡ some (s, rest)
unfolding escape_from
read_json-escape_from cap n [] rest lt p = read_json_end rest
read_json-escape_from cap n (c ∷ s) rest lt p = elim (Bool-cases (c == b'"' || c == b'\\')) [
  | inl e ↦ rw (
    escape_from_quote cap n c s (omega arith) e,
    read_json_escaped c (escape_from cap (n + 2) s ++ b'"' ∷ rest),
    read_json-escape_from cap (n + 2) s rest (omega arith) (ground arith),
  )
  | inr e ↦
      let q : c ≢ b'"' = ground arith in
      let b : c ≢ b'\\' = ground arith in
      rw (
        escape_from_plain cap n c s (omega arith) q b (ground arith),
        read_json_plain c (escape_from cap (n + 1) s ++ b'"' ∷ rest) q b,
        read_json-escape_from cap (n + 1) s rest (omega arith) (ground arith),
      )
]

-- A text without control characters that is shorter than half of the buffer is escaped without loss:
-- a JSON reader gets it back, up to the closing quote.
pub read_json-json_escape_into :
    (cap : ℕ) (s rest : Bytes)
    → 2 * length s < cap
    → is_printable s ≡ true
    → read_json (json_escape_into cap s ++ b'"' ∷ rest) ≡ some (s, rest)
unfolding json_escape_into
read_json-json_escape_into cap s rest lt p =
    let nz : (cap == 0) ≡ false = ground arith in
    rw nz (read_json-escape_from cap 0 s rest (omega arith) p)
