-- ===== src/Scope/AppHash.antt =====
-- scope/app_hash.hpp: the 32-bit FNV-1a hash of an application id.
use Prim.Native.Nat.{bit_xor}
use mathlib.Core.List.{map}
use loginext.Prelude.{
  ℕ, ◌+◌, ◌*◌, ◌%◌, ◌^◌, ◌<◌, ◌≡◌, refl, ap, ◌∙◌, ◌&&◌, leb, ◌==◌, if◌then◌else◌, [], ◌∷◌, Bytes,
  arith,
}

abbrev pub fnv_offset : ℕ
fnv_offset = 0x811c9dc5

abbrev pub fnv_prime : ℕ
fnv_prime = 0x01000193

-- ASCII letters in lower case; the sum stays a byte.
unfoldable pub to_lower : ℕ → ℕ
to_lower c = if leb b'A' c && leb c b'Z' then c + 32 else c

-- One round, on `uint32_t`.
unfoldable pub mix : ℕ → ℕ → ℕ
mix h c = bit_xor h c * fnv_prime % 2 ^ 32

unfoldable pub hash_from : ℕ → Bytes → ℕ
hash_from h [] = h
hash_from h (c ∷ s) = hash_from (mix h (to_lower c)) s

unfoldable pub hash_app : Bytes → ℕ
hash_app s = let h = hash_from fnv_offset s in if h == 0 then fnv_prime else h

to_lower_idem : (c : ℕ) → to_lower (to_lower c) ≡ to_lower c
unfolding to_lower
to_lower_idem c = ground arith

hash_from-to_lower : (s : Bytes) (h : ℕ) → hash_from h (map to_lower s) ≡ hash_from h s
unfolding hash_from
hash_from-to_lower [] h = refl
hash_from-to_lower (c ∷ s) h =
    ap (λ x. hash_from (mix h x) (map to_lower s)) (to_lower_idem c)
    ∙ hash_from-to_lower s (mix h (to_lower c))

hash_from-lt : (s : Bytes) (h : ℕ) → h < 2 ^ 32 → hash_from h s < 2 ^ 32
unfolding hash_from mix
hash_from-lt [] h lt = lt
hash_from-lt (c ∷ s) h lt = hash_from-lt s (mix h (to_lower c)) (omega arith)

-- The hash does not see the case of ASCII letters, is never the sentinel 0, and fits in 32 bits.
pub hash_app_lem :
    (s : Bytes)
    → (hash_app (map to_lower s) ≡ hash_app s) × (0 < hash_app s) × (hash_app s < 2 ^ 32)
hash_app_lem s = (
  unfold hash_app in rw (hash_from-to_lower s fnv_offset),
  unfold hash_app in ground arith,
  unfold hash_app in ground (arith, hash_from-lt s fnv_offset),
)
