-- ===== src/Prelude/Equality.antt =====
-- Python's `==`, `in`, `list.remove` and `dict` for every type whose equality can be decided.
use Prim.Native.Nat.{ℕ, ◌+◌}
use Prim.Native.String.{String}
use mathlib.Core.Path.{◌≡◌, refl}
use mathlib.Core.Logic.{ite, dite}
use mathlib.Core.Bool.{Bool, true, false, ◌||◌, Bool-discrete}
use mathlib.Core.Option.{Option, none, some}
use mathlib.Core.List.{List, [], ◌∷◌, ◌++◌}
use native.Mathlib.Omega.{arith}
use native.Mathlib.Decide.{ℕ_discrete}
use text.Mathlib.Text.{◌==◌ as str_eq}
use text.Mathlib.TextEquality.{eq_iff}
use computecloud_node.Prelude.Tests.{if◌then◌else◌}
use computecloud_node.Prelude.Lists.{length}

pub record Eq {ℓ} (A : Type ℓ) : Type ℓ where
  pub dec : Discrete A

module _ {ℓ} {A : Type ℓ} ⦃e : Eq A⦄ where
  infix 50 ◌≟◌
  abbrev pub ◌≟◌ : A → A → Bool
  a ≟ b = ite (e.dec a b) true false

  -- `a in xs`
  abbrev pub contains : A → List A → Bool
  contains a [] = false
  contains a (x ∷ xs) = a ≟ x || contains a xs

  -- `xs.remove(a)`, where `a in xs`
  unfoldable pub remove : A → List A → List A
  remove a [] = []
  remove a (x ∷ xs) = if a ≟ x then xs else x ∷ remove a xs

  -- The list without any occurrence of an element.
  unfoldable pub without : A → List A → List A
  without a [] = []
  without a (x ∷ xs) = let rest = without a xs in if a ≟ x then rest else x ∷ rest

  -- No element stands twice.
  abbrev pub Nodup : List A → Type 0
  Nodup [] = Unit
  Nodup (x ∷ xs) = (contains x xs ≡ false) × Nodup xs

  pub contains-append :
      (a : A) (xs ys : List A) → contains a (xs ++ ys) ≡ (contains a xs || contains a ys)
  contains-append a [] ys = refl
  contains-append a (x ∷ xs) ys = ground (arith, contains-append a xs ys)

  pub contains-without :
      (a b : A) (xs : List A) → contains a (without b xs) ≡ (if a ≟ b then false else contains a xs)
  unfolding without
  contains-without a b [] = ground arith
  contains-without a b (x ∷ xs) = ground (arith, contains-without a b xs)

  pub contains-remove :
      (a b : A) (xs : List A)
      → Nodup xs
      → contains a (remove b xs) ≡ (if a ≟ b then false else contains a xs)
  unfolding remove
  contains-remove a b [] h = ground arith
  contains-remove a b (x ∷ xs) (fresh, h) = ground (arith, contains-remove a b xs h)

  pub length-remove :
      (a : A) (xs : List A) → contains a xs ≡ true → length (remove a xs) + 1 ≡ length xs
  unfolding remove
  length-remove a [] h = ground arith
  length-remove a (x ∷ xs) h = ground (arith, length-remove a xs)

  pub remove-Nodup : (a : A) (xs : List A) → Nodup xs → Nodup (remove a xs)
  unfolding remove
  remove-Nodup a [] h = tt
  remove-Nodup a (x ∷ xs) (fresh, h) = ground (arith, remove-Nodup a xs h, contains-remove x a xs h)

  pub append-Nodup : (a : A) (xs : List A) → Nodup xs → contains a xs ≡ false → Nodup (xs ++ a ∷ [])
  append-Nodup a [] h f = (refl, tt)
  append-Nodup a (x ∷ xs) (fresh, h) f =
      ground (arith, append-Nodup a xs h, contains-append x xs (a ∷ []))

module _ {ℓ κ} {K : Type ℓ} {V : Type κ} ⦃e : Eq K⦄ where
  -- `d.get(k)`
  unfoldable pub lookup : K → List (K × V) → Option V
  lookup k [] = none
  lookup k ((j, v) ∷ d) = if k ≟ j then some v else lookup k d

  -- `k in d`
  abbrev pub has : K → List (K × V) → Bool
  has k d = elim (lookup k d) [ none ↦ false | some v ↦ true ]

  -- `d[k] = v`
  unfoldable pub insert : K → V → List (K × V) → List (K × V)
  insert k v [] = (k, v) ∷ []
  insert k v ((j, w) ∷ d) = if k ≟ j then (j, v) ∷ d else (j, w) ∷ insert k v d

  -- `d.pop(k, None)`. The keys of a `dict` differ, so that there is at most one entry.
  unfoldable pub erase : K → List (K × V) → List (K × V)
  erase k [] = []
  erase k ((j, w) ∷ d) = let rest = erase k d in if k ≟ j then rest else (j, w) ∷ rest

  abbrev pub NodupKeys : List (K × V) → Type κ
  NodupKeys [] = Unit
  NodupKeys ((k, v) ∷ d) = (lookup k d ≡ none) × NodupKeys d

  pub lookup-insert :
      (j k : K) (v : V) (d : List (K × V))
      → lookup j (insert k v d) ≡ (if j ≟ k then some v else lookup j d)
  unfolding lookup insert
  lookup-insert j k v [] = refl
  lookup-insert j k v ((i, w) ∷ d) = ground (arith, lookup-insert j k v d)

  pub lookup-erase :
      (j k : K) (d : List (K × V)) → lookup j (erase k d) ≡ (if j ≟ k then none else lookup j d)
  unfolding lookup erase
  lookup-erase j k [] = ground arith
  lookup-erase j k ((i, w) ∷ d) = ground (arith, lookup-erase j k d)

  pub insert-NodupKeys : (k : K) (v : V) (d : List (K × V)) → NodupKeys d → NodupKeys (insert k v d)
  unfolding insert lookup
  insert-NodupKeys k v [] h = (refl, tt)
  insert-NodupKeys k v ((j, w) ∷ d) (fresh, h) =
      ground (arith, insert-NodupKeys k v d h, lookup-insert j k v d)

  pub erase-NodupKeys : (k : K) (d : List (K × V)) → NodupKeys d → NodupKeys (erase k d)
  unfolding erase
  erase-NodupKeys k [] h = tt
  erase-NodupKeys k ((j, w) ∷ d) (fresh, h) =
      ground (arith, erase-NodupKeys k d h, lookup-erase j k d)

  pub length-insert :
      (k : K) (v : V) (d : List (K × V))
      → length (insert k v d) ≡ (if has k d then length d else length d + 1)
  unfolding insert lookup
  length-insert k v [] = refl
  length-insert k v ((j, w) ∷ d) = ground (arith, length-insert k v d)

  pub erase_absent : (k : K) (d : List (K × V)) → lookup k d ≡ none → erase k d ≡ d
  unfolding erase lookup
  erase_absent k [] h = refl
  erase_absent k ((j, w) ∷ d) h = ground (arith, erase_absent k d)

  pub length-erase :
      (k : K) (d : List (K × V)) → NodupKeys d → has k d ≡ true → length (erase k d) + 1 ≡ length d
  unfolding erase lookup
  length-erase k [] h p = ground arith
  length-erase k ((j, w) ∷ d) (fresh, h) p = ground (arith, length-erase k d h, erase_absent k d)

instance abbrev pub nat_eq : Eq ℕ
nat_eq = record { dec = ℕ_discrete }

instance unfoldable pub string_eq : Eq String
string_eq = record {
  dec = λ s t.
      dite (Bool-discrete (str_eq s t) true) (λ same. yes ((eq_iff s t).0 same))
        (λ differ. no (λ p. differ ((eq_iff s t).1 p)));
}

text_discrete : Discrete (List ℕ)
text_discrete = hlevel ℕ_discrete

-- Texts as lists of code points, and shapes.
instance unfoldable pub text_eq : Eq (List ℕ)
unfolding text_discrete
text_eq = record { dec = text_discrete }
