-- ===== src/Scope/Listener/Hyprland/Lines.antt =====
-- What a line of the Hyprland socket publishes.
use loginext.Scope.Listener.Hyprland.{until_nul, tag, tag_len, until_comma, class_hash, on_line}
use loginext.Scope.Listener.Published.{Publishes, publish_and_log-Publishes, key_hash}
use loginext.Scope.Listener.{Listener, first_text}
use loginext.Prelude.{
  ℕ, zero, suc, ◌≡◌, refl, ap, ◌∙◌, Bool, true, false, not, ◌&&◌, ltb, ◌==◌, some, [], ◌∷◌, ◌++◌,
  length, length-append, take, take-take, Bytes, codes, arith,
}

-- A text without NUL and comma
abbrev pub is_plain : Bytes → Bool
is_plain [] = true
is_plain (c ∷ s) = not (c == 0) && not (c == b',') && is_plain s

until_nul_plain : (n : ℕ) (s : Bytes) → is_plain s ≡ true → until_nul (take n s) ≡ take n s
until_nul_plain zero s p = refl
until_nul_plain (suc n) [] p = refl
until_nul_plain (suc n) (c ∷ s) p =
    let e : (c == 0) ≡ false = ground arith in
    rw e (ap (λ t. c ∷ t) (until_nul_plain n s (ground arith)))

until_comma_plain : (s t : Bytes) → is_plain s ≡ true → until_comma (s ++ b',' ∷ t) ≡ s
until_comma_plain [] t p = refl
until_comma_plain (c ∷ s) t p =
    let e : (c == b',') ≡ false = ground arith in
    rw e (ap (λ u. c ∷ u) (until_comma_plain s t (ground arith)))

first_text_same : (s : Bytes) → first_text (some s) (some s) ≡ s
first_text_same [] = refl
first_text_same (c ∷ s) = refl

class_hash_lem : (s : Bytes) → class_hash s ≡ key_hash s
class_hash_lem [] = refl
class_hash_lem (c ∷ s) = refl

-- For any class without NUL and comma and any title: the line of a focus change publishes the class, with
-- its hash (0 if it is empty), its first 127 bytes as the name, and the source "hyprland".
pub on_line-Publishes :
    (l : Listener) (cls title : Bytes)
    → is_plain cls ≡ true
    → Publishes (codes "hyprland") cls (on_line l (tag ++ (cls ++ b',' ∷ title)))
unfolding on_line
on_line-Publishes l cls title p =
    let long : ltb tag_len (length (tag ++ (cls ++ b',' ∷ title))) ≡ true =
      ground (arith, length-append cls (b',' ∷ title)) in
    let name : take 127
          (first_text (some (until_nul (take 127 cls))) (some (until_nul (take 127 cls))))
        ≡ take 127 cls =
      ap (take 127) (first_text_same (until_nul (take 127 cls)) ∙ until_nul_plain 127 cls p)
      ∙ take-take 127 cls in
    rw (long, until_comma_plain cls title p)
      (publish_and_log-Publishes l (class_hash cls) (codes "hyprland") cls _ _ name
        (class_hash_lem cls))
