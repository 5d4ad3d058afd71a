-- ===== src/Python/Effect.antt =====
-- Calls that change a state: a state goes in, and the value that is returned or the exception that is
-- raised comes out, with the state after it. A raise keeps the changes that were made before it.
use computecloud_node.Python.Errors.{Result, ok, raise}

abbrev pub Effect : Type 0 → Type 0 → Type 0
Effect S A = S → Result A × S

module _ {S A B : Type 0} where
  abbrev pub continue : (A → Effect S B) → Result A × S → Result B × S
  continue next (ok value, s) = next value s
  continue next (raise exc, s) = (raise exc, s)

  infixl 5 ◌>>=◌
  abbrev pub ◌>>=◌ : Effect S A → (A → Effect S B) → Effect S B
  ◌>>=◌ m next s = continue next (m s)

module _ {S A : Type 0} where
  -- A call that changes nothing.
  abbrev pub lift : Result A → Effect S A
  lift result s = (result, s)

  -- A property of the state that a call keeps, whether it returns or raises.
  abbrev pub Keeps : (S → Type 0) → Effect S A → Type 0
  Keeps holds m = (s : S) → holds s → holds (m s).1

  pub lift-Keeps : (holds : S → Type 0) (result : Result A) → Keeps holds (lift result)
  lift-Keeps holds result s h = h

module _ {S A B : Type 0} (holds : S → Type 0) (next : A → Effect S B) where
  continue-Keeps :
      ((a : A) → Keeps holds (next a)) → (p : Result A × S) → holds p.1 → holds (continue next p).1
  continue-Keeps each (ok value, s) h = each value s h
  continue-Keeps each (raise exc, s) h = h

  pub then_Keeps :
      (m : Effect S A) → Keeps holds m → ((a : A) → Keeps holds (next a)) → Keeps holds (m >>= next)
  then_Keeps m first each s h = continue-Keeps each (m s) (first s h)
