-- ===== src/Rbac/Pattern.antt =====
-- crates/himadri-core/src/rbac.rs, `pattern_matches`. A text is read by its code points; the source
-- works on the bytes of the same texts. `value[pos..]` is the list that is left.
use Prim.Native.Char.{code}
use himadri.Common.{
  ℕ, ◌+◌, ◌-◌, String, Bool, true, false, not, ◌||◌, ◌&&◌, List, [], ◌∷◌, Option, none, some, ◌==◌,
  if◌then◌else◌, length,
}

abbrev pub codes : String → List ℕ
codes String.[] = []
codes (String.◌∷◌ c s) = code c ∷ codes s

abbrev pub star : ℕ
star = b'*'

unfoldable pub eq_codes : List ℕ → List ℕ → Bool
eq_codes [] [] = true
eq_codes [] (y ∷ ys) = false
eq_codes (x ∷ xs) [] = false
eq_codes (x ∷ xs) (y ∷ ys) = x == y && eq_codes xs ys

-- What is left of the text after the part, if the text starts with it.
unfoldable pub strip_prefix : List ℕ → List ℕ → Option (List ℕ)
strip_prefix [] xs = some xs
strip_prefix (p ∷ ps) [] = none
strip_prefix (p ∷ ps) (x ∷ xs) = if p == x then strip_prefix ps xs else none

-- What is left after the first occurrence of the part: `find`, and the step over the part.
unfoldable pub find_after : List ℕ → List ℕ → Option (List ℕ)
find_after part [] = strip_prefix part []
find_after part (x ∷ xs) = elim (strip_prefix part (x ∷ xs)) [
  | none ↦ find_after part xs
  | some rest ↦ some rest
]

unfoldable pub ends_with : List ℕ → List ℕ → Bool
ends_with part [] = eq_codes part []
ends_with part (x ∷ xs) = eq_codes part (x ∷ xs) || ends_with part xs

abbrev pub push : ℕ → List (List ℕ) → List (List ℕ)
push c [] = (c ∷ []) ∷ []
push c (part ∷ parts) = (c ∷ part) ∷ parts

-- `pattern.split('*')`
unfoldable pub split : List ℕ → List (List ℕ)
split [] = [] ∷ []
split (c ∷ cs) = let parts = split cs in if c == star then [] ∷ parts else push c parts

abbrev is_empty : List ℕ → Bool
is_empty [] = true
is_empty (x ∷ xs) = false

-- The loop over the parts, from the part with the index `i` on; `last` is the last index.
unfoldable pub match_parts : ℕ → ℕ → List (List ℕ) → List ℕ → Bool
match_parts i last [] value = true
match_parts i last ([] ∷ parts) value = match_parts (i + 1) last parts value
match_parts i last ((c ∷ part) ∷ parts) value =
    if i == 0
    then elim (strip_prefix (c ∷ part) value) [
      | none ↦ false
      | some rest ↦ match_parts (i + 1) last parts rest
    ]
    else if i == last
    then ends_with (c ∷ part) value
    else elim (find_after (c ∷ part) value) [
      | none ↦ false
      | some rest ↦ match_parts (i + 1) last parts rest
    ]

unfoldable pub has_star : List ℕ → Bool
has_star [] = false
has_star (c ∷ cs) = c == star || has_star cs

unfoldable pub pattern_matches : String → String → Bool
unfolding has_star split match_parts strip_prefix find_after ends_with eq_codes
pattern_matches pattern value =
    if eq_codes (codes pattern) (star ∷ [])
    then true
    else if not (has_star (codes pattern))
    then eq_codes (codes pattern) (codes value)
    else let parts = split (codes pattern) in match_parts 0 (length parts - 1) parts (codes value)

unfoldable pub any_match : List String → String → Bool
any_match [] value = false
any_match (p ∷ patterns) value = pattern_matches p value || any_match patterns value
