-- ===== src/Tensor/Nested.antt =====
-- src/computecloud_node/tensor_format.py: nested lists and their shapes.
use computecloud_node.Prelude.{
  ℕ, zero, suc, ◌+◌, ◌*◌, Option, none, some, List, [], ◌∷◌, ◌++◌, take, drop, ◌==◌, if◌then◌else◌,
}
use computecloud_node.Prelude.Int.{pos}
use computecloud_node.Python.{
  Result, ok, raise, value_error, Value, null, bool, int, float, str, arr, obj, Items, nil, cons,
  list_of, items_of,
}

-- `_prod`, of dimensions that `_validate_shape` has let through.
unfoldable pub prod : List ℕ → ℕ
prod [] = 1
prod (d ∷ ds) = d * prod ds

-- An element that is no list: `bool` becomes `int`, and what is no number raises.
abbrev pub number_of : Value → Result Value
number_of (bool b) = ok (int (pos (if b then 1 else 0)))
number_of (int z) = ok (int z)
number_of (float bits) = ok (float bits)
number_of _ = raise value_error

-- The loop of `_flatten` over its stack, whose top comes first. `none`: out of fuel.
unfoldable pub flatten_loop : ℕ → List Value → List Value → Option (Result (List Value))
flatten_loop zero stack out = none
flatten_loop (suc fuel) [] out = some (ok out)
flatten_loop (suc fuel) (item ∷ stack) out = elim item [
  | arr xs ↦ flatten_loop fuel (list_of xs ++ stack) out
  | other ↦ elim (number_of other) [
    | raise exc ↦ some (raise exc)
    | ok v ↦ flatten_loop fuel stack (out ++ v ∷ [])
  ]
]

-- The lists and elements of a nested list.
unfoldable mutual
  pub size : Value → ℕ
  size (arr xs) = suc (size_items xs)
  size (int z) = 1
  size (float bits) = 1
  size (str s) = 1
  size (bool b) = 1
  size null = 1
  size (obj d) = 1

  pub size_items : Items → ℕ
  size_items nil = 0
  size_items (cons x xs) = size x + size_items xs

-- `_flatten`. Each round takes one list or element off the stack, so that this fuel is enough.
unfoldable pub flatten : Value → Option (Result (List Value))
unfolding flatten_loop size
flatten nested = flatten_loop (suc (size nested)) (nested ∷ []) []

-- `_infer_shape`
unfoldable mutual
  pub infer_shape : Value → List ℕ
  infer_shape (arr xs) = count_items xs ∷ infer_first xs
  infer_shape (int z) = []
  infer_shape (float bits) = []
  infer_shape (str s) = []
  infer_shape (bool b) = []
  infer_shape null = []
  infer_shape (obj d) = []

  pub infer_first : Items → List ℕ
  infer_first nil = []
  infer_first (cons x xs) = infer_shape x

  pub count_items : Items → ℕ
  count_items nil = 0
  count_items (cons x xs) = suc (count_items xs)

abbrev pub first_or_empty : List Value → Value
first_or_empty [] = arr nil
first_or_empty (v ∷ vs) = v

abbrev pub empties : ℕ → Items
empties zero = nil
empties (suc n) = cons (arr nil) (empties n)

-- `[_reshape(flat[i * chunk:(i + 1) * chunk], rest) for i in range(i, i + n)]`
unfoldable pub rows : (List Value → Value) → ℕ → List Value → ℕ → ℕ → Items
rows reshape_rest chunk flat i zero = nil
rows reshape_rest chunk flat i (suc n) =
    cons (reshape_rest (take chunk (drop (i * chunk) flat)))
      (rows reshape_rest chunk flat (i + 1) n)

-- `_reshape`
unfoldable pub reshape : List ℕ → List Value → Value
unfolding rows prod
reshape [] flat = first_or_empty flat
reshape (d ∷ []) flat = arr (items_of flat)
reshape (d ∷ e ∷ rest) flat =
    let chunk_size = prod (e ∷ rest) in
    let whole = rows (reshape (e ∷ rest)) chunk_size flat 0 d in
    if chunk_size == 0 then arr (empties d) else arr whole
