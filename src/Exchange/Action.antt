-- ===== src/Exchange/Action.antt =====
-- Actions of a worker: a state of the network goes in; a result or an exception comes out, with the
-- state after it. `none` is a loop that ran out of fuel.
use computecloud_node.Prelude.{Option, none, some}
use computecloud_node.Python.{Result, ok, raise}

abbrev pub Action : Type 0 → Type 0 → Type 0
Action S A = S → Option (Result A × S)

module _ {S A : Type 0} where
  abbrev pub give : Result A → Action S A
  give result s = some (result, s)

  abbrev pub run_once : (S → Result A × S) → Action S A
  run_once act s = some (act s)

module _ {S A B : Type 0} where
  -- The first action, then the second on what it returns; an exception ends both.
  abbrev pub and_then : Action S A → (A → Action S B) → Action S B
  and_then act next s = elim (act s) [
    | none ↦ none
    | some (raise exc, s') ↦ some (raise exc, s')
    | some (ok value, s') ↦ next value s'
  ]
