-- ===== src/CommandLine/Paths.antt =====
-- The dotted paths of executors.
use computecloud_node.Prelude.{
  ℕ, ◌≡◌, refl, ap, Bool, true, Option, none, some, List, [], ◌∷◌, ◌++◌, all, not, ◌==◌, arith, inl,
  inr, Bool-cases,
}
use computecloud_node.CommandLine.{after_char, rpartition}

abbrev pub is_undotted : List ℕ → Bool
is_undotted = all (λ c. not (c == b'.'))

-- What a partition has found: the last dot with what is before and after it, or no dot.
abbrev pub IsSplit : List ℕ → Option (List ℕ × List ℕ) → Type 0
IsSplit name none = is_undotted name ≡ true
IsSplit name (some (module_path, attr)) =
    (name ≡ module_path ++ b'.' ∷ attr) × (is_undotted attr ≡ true)

after_char-IsSplit :
    (c : ℕ) (name : List ℕ) (found : Option (List ℕ × List ℕ))
    → IsSplit name found
    → IsSplit (c ∷ name) (after_char c name found)
after_char-IsSplit c name (some (module_path, attr)) (same, plain) = (ap (λ t. c ∷ t) same, plain)
after_char-IsSplit c name none plain = elim (Bool-cases (c == b'.')) [
  | inl dot ↦ rw dot (ground (arith, dot), plain)
  | inr other ↦ rw other (rw (other, plain))
]

-- `rpartition` finds the last dot of a name: the name is the module path, a dot and the attribute,
-- which has no dot. It finds nothing exactly where the name has none.
pub rpartition-IsSplit : (name : List ℕ) → IsSplit name (rpartition name)
unfolding rpartition
rpartition-IsSplit [] = refl
rpartition-IsSplit (c ∷ name) =
    after_char-IsSplit c name (rpartition name) (rpartition-IsSplit name)
