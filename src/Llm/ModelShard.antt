-- ===== src/Llm/ModelShard.antt =====
-- src/computecloud_node/llm/model_shard.py: `TorchShardModule.load_state_dict`. A key is the list of its
-- code points. The module's own tensors are an association list; torch gives the shape of a tensor.
pub mod Loading
pub mod Forward
mod Tests
use computecloud_node.Prelude.{
  ℕ, ◌+◌, ◌-◌, ◌*◌, Bool, true, false, Option, none, some, List, [], ◌∷◌, ◌++◌, drop, ◌&&◌, not,
  ◌==◌, if◌then◌else◌,
}
use computecloud_node.Prelude.Equality.{◌≟◌, contains, lookup, insert, text_eq}
use computecloud_node.Prelude.Int.{ℤ, pos, ltb_ℤ, ◌-ℤ◌}
use computecloud_node.Python.{ok, raise, value_error, codes, is_digit, decimal_ℤ}
use computecloud_node.Python.Effect.{Effect, ◌>>=◌, lift}
use computecloud_node.Python.Text.{starts_with}

-- `(\d+)\.` at the start of a text: the number, and what follows it.
unfoldable pub read_index : Option ℕ → List ℕ → Option (ℕ × List ℕ)
read_index seen [] = none
read_index none (c ∷ s) =
    let rest = read_index (some (c - 48)) s in if is_digit c then rest else none
read_index (some n) (c ∷ s) =
    let rest = read_index (some (n * 10 + (c - 48))) s in
    if is_digit c then rest else if c == b'.' then some (n, s) else none

abbrev pub onto : ℕ → Option (List ℕ) → Option (List ℕ)
onto c none = none
onto c (some s) = some (c ∷ s)

-- `(.+)$` on a whole text: at least one character, and no line feed but one at the end.
unfoldable pub read_line : List ℕ → Option (List ℕ)
read_line [] = none
read_line (c ∷ []) = if c == 10 then none else some (c ∷ [])
read_line (c ∷ d ∷ []) =
    if c == 10 then none else if d == 10 then some (c ∷ []) else some (c ∷ d ∷ [])
read_line (c ∷ d ∷ e ∷ s) =
    let rest = read_line (d ∷ e ∷ s) in if c == 10 then none else onto c rest

abbrev pub line_at : ℕ → Option (List ℕ) → Option (ℕ × List ℕ)
line_at i none = none
line_at i (some tail) = some (i, tail)

abbrev pub with_line : Option (ℕ × List ℕ) → Option (ℕ × List ℕ)
with_line none = none
with_line (some (i, s)) = line_at i (read_line s)

abbrev pub model_prefix : List ℕ
model_prefix = codes "model."

abbrev pub layers_prefix : List ℕ
layers_prefix = codes "layers."

-- `re.match(r"^layers\.(\d+)\.(.+)$", lk)`
unfoldable pub match_layer : List ℕ → Option (ℕ × List ℕ)
unfolding read_index read_line starts_with
match_layer lk =
    if starts_with lk layers_prefix then with_line (read_index none (drop 7 lk)) else none

-- The key of a layer's tensor in the module; `none` is a layer that is not in the shard's range.
unfoldable pub renamed : ℤ → ℤ → List ℕ → Option (ℕ × List ℕ) → Option (List ℕ)
renamed start end lk none = some lk
renamed start end lk (some (orig_idx, tail)) =
    let local_idx = pos orig_idx -ℤ start in
    if not (ltb_ℤ local_idx (pos 0)) && ltb_ℤ local_idx (end -ℤ start)
    then some (layers_prefix ++ (codes (decimal_ℤ local_idx) ++ b'.' ∷ tail))
    else none

-- `key[6:] if key.startswith("model.") else key`
abbrev pub without_model : List ℕ → List ℕ
without_model key = if starts_with key model_prefix then drop 6 key else key

-- The key under which a tensor is looked for in the module.
unfoldable pub local_key : ℤ → ℤ → List ℕ → Option (List ℕ)
unfolding match_layer renamed starts_with
local_key start end key = renamed start end (without_model key) (match_layer (without_model key))

-- The shard's range and the module's own tensors; `shape` is `tensor.shape`.
module _ {T : Type 0} (shape : T → List ℕ) (start end : ℤ) where
  abbrev pub Own : Type 0
  Own = List (List ℕ × T)

  -- `own[lk].copy_(val)`, after the test of the shape, with the key that was loaded. That `copy_` converts
  -- to the type and device of `own[lk]` is left out: the tensor that is kept is `val`.
  unfoldable pub copy_into : List ℕ → T → Option T → Effect Own (List (List ℕ))
  copy_into lk val none own = (ok [], own)
  copy_into lk val (some old) own =
      if shape val ≟ shape old then (ok (lk ∷ []), insert lk val own) else (raise value_error, own)

  -- One round of the loop.
  unfoldable pub load_one : Option (List ℕ) → T → Effect Own (List (List ℕ))
  unfolding copy_into
  load_one none val own = (ok [], own)
  load_one (some lk) val own = copy_into lk val (lookup lk own) own

  -- `loaded[lk] = True`
  abbrev pub noted : List (List ℕ) → List (List ℕ) → List (List ℕ)
  noted [] loaded = loaded
  noted (lk ∷ rest) loaded = if contains lk loaded then loaded else lk ∷ loaded

  -- `load_state_dict`, with the keys of `loaded`, the last first.
  unfoldable pub load_loop : List (List ℕ × T) → List (List ℕ) → Effect Own (List (List ℕ))
  unfolding load_one local_key
  load_loop [] loaded = lift (ok loaded)
  load_loop ((key, val) ∷ state_dict) loaded = do
    found ← load_one (local_key start end key) val
    load_loop state_dict (noted found loaded)

  unfoldable pub load_state_dict : List (List ℕ × T) → Effect Own (List (List ℕ))
  unfolding load_loop
  load_state_dict state_dict = load_loop state_dict []
