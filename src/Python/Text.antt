-- ===== src/Python/Text.antt =====
-- Operations on texts that the program walks, as lists of code points.
use Prim.Native.Char.{code}
use Prim.Native.String.{count}
use text.Mathlib.Text
use computecloud_node.Prelude.{
  String, ◌<>◌, str_eq, zero, suc, ◌-◌, ℕ, Bool, true, false, List, [], ◌∷◌, ◌&&◌, ◌||◌, ◌==◌,
  if◌then◌else◌, Option, none, some,
}
use computecloud_node.Python.Convert.{is_space, strip_left}

-- `s.startswith(p)`
unfoldable pub starts_with : List ℕ → List ℕ → Bool
starts_with s [] = true
starts_with [] (d ∷ p) = false
starts_with (c ∷ s) (d ∷ p) = c == d && starts_with s p

-- `p in s`
unfoldable pub is_infix : List ℕ → List ℕ → Bool
unfolding starts_with
is_infix p [] = starts_with [] p
is_infix p (c ∷ s) = starts_with (c ∷ s) p || is_infix p s

-- `s == t`
unfoldable pub same_text : List ℕ → List ℕ → Bool
same_text [] [] = true
same_text [] (d ∷ t) = false
same_text (c ∷ s) [] = false
same_text (c ∷ s) (d ∷ t) = c == d && same_text s t

abbrev onto_first : ℕ → List (List ℕ) → List (List ℕ)
onto_first c [] = (c ∷ []) ∷ []
onto_first c (part ∷ parts) = (c ∷ part) ∷ parts

-- `s.split(sep)` for a separator of one character.
unfoldable pub split : ℕ → List ℕ → List (List ℕ)
split sep [] = [] ∷ []
split sep (c ∷ s) = let rest = split sep s in if c == sep then [] ∷ rest else onto_first c rest

-- The text from its first space on.
unfoldable pub from_space : List ℕ → List ℕ
from_space [] = []
from_space (c ∷ s) = if is_space c then c ∷ s else from_space s

-- `s.split(None, 1)[1]`, or `none` if the text has fewer than two words.
unfoldable pub second_part : List ℕ → Option (List ℕ)
unfolding strip_left from_space
second_part s = elim (strip_left (from_space (strip_left s))) [ [] ↦ none | c ∷ t ↦ some (c ∷ t) ]

-- The loop of `s.replace(pattern, new)`: after a match the rest of the pattern is skipped.
str_replace_loop : String → String → ℕ → String → String
str_replace_loop pattern new skip String.[] = ""
str_replace_loop pattern new (suc skip) (String.◌∷◌ c s) = str_replace_loop pattern new skip s
str_replace_loop pattern new zero (String.◌∷◌ c s) =
    let hit = Text.starts_with (String.◌∷◌ c s) pattern in
    let rest = str_replace_loop pattern new (if hit then count pattern - 1 else 0) s in
    if hit then new <> rest else String.◌∷◌ c rest

-- `s.replace(pattern, new)` for a pattern that is not empty.
unfoldable pub str_replace : String → String → String → String
unfolding str_replace_loop
str_replace pattern new s = str_replace_loop pattern new 0 s

str_strip_left : String → String
str_strip_left String.[] = ""
str_strip_left (String.◌∷◌ c s) =
    let rest = str_strip_left s in if is_space (code c) then rest else String.◌∷◌ c s

-- `s` without the characters at its end that pass the test.
unfoldable pub strip_end : (ℕ → Bool) → String → String
strip_end drops String.[] = ""
strip_end drops (String.◌∷◌ c s) =
    let rest = strip_end drops s in
    if str_eq rest "" && drops (code c) then "" else String.◌∷◌ c rest

-- `s.strip()` of a string.
unfoldable pub str_strip : String → String
unfolding str_strip_left strip_end
str_strip s = strip_end is_space (str_strip_left s)

-- `sep.join(parts)`
unfoldable pub join : String → List String → String
join sep [] = ""
join sep (part ∷ []) = part
join sep (part ∷ next ∷ parts) = part <> sep <> join sep (next ∷ parts)
