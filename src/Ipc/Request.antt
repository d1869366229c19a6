-- ===== src/Ipc/Request.antt =====
-- ipc/dispatch.cpp: what is taken from a request line.
use mathlib.Core.Option
use loginext.Config.Loader.{◌>>=◌, match_lit}
use loginext.Prelude.{
  leb, ◌==◌, ◌||◌, if◌then◌else◌, Option, none, some, ℕ, [], ◌∷◌, ◌++◌, length, Bytes, codes,
}

-- `find` of the needle, and what follows it; `none` is `npos`.
unfoldable pub find_after : Bytes → Bytes → Option Bytes
find_after needle [] = match_lit needle []
find_after needle (c ∷ s) = elim (match_lit needle (c ∷ s)) [
  | some r ↦ some r
  | none ↦ find_after needle s
]

unfoldable pub skip_blanks : Bytes → Bytes
skip_blanks [] = []
skip_blanks (c ∷ s) = if c == b' ' || c == b'\t' then skip_blanks s else c ∷ s

-- The text up to the next quote; without one there is no value.
unfoldable pub until_quote : Bytes → Option Bytes
until_quote [] = none
until_quote (c ∷ s) =
    let rest = Option.map (λ (r : Bytes). c ∷ r) (until_quote s) in
    if c == b'"' then some [] else rest

abbrev pub expect : ℕ → Bytes → Option Bytes
expect c [] = none
expect c (x ∷ s) = if x == c then some s else none

abbrev pub or_empty : Option Bytes → Bytes
or_empty none = []
or_empty (some v) = v

abbrev pub quoted : Bytes → Bytes
quoted key = codes "\"" ++ key ++ codes "\""

-- Empty on a miss, and if the needle does not fit its buffer of 64 bytes.
unfoldable pub extract_string : Bytes → Bytes → Bytes
extract_string line key = if leb 64 (length (quoted key)) then [] else or_empty found
  where
    found : Option Bytes
    found = do
      r ← find_after (quoted key) line
      r' ← expect b':' (skip_blanks r)
      r'' ← expect b'"' (skip_blanks r')
      until_quote r''

-- A carriage return at the end
unfoldable pub strip_cr : Bytes → Bytes
strip_cr [] = []
strip_cr (c ∷ []) = if c == b'\r' then [] else c ∷ []
strip_cr (c ∷ d ∷ s) = c ∷ strip_cr (d ∷ s)
