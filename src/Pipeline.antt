-- ===== src/Pipeline.antt =====
-- src/computecloud_node/pipeline_executor.py: the toy layer transform, `PipelineShardExecutor`,
-- `LocalPipelineRunner` and `run_reference`. The children hold the proofs.
pub mod Bounds
pub mod Equivalence
mod Tests
use Prim.Native.Nat.{compare, Ordering}
use mathlib.Core.List.{foldl}
use computecloud_node.Prelude.{
  ℕ, zero, suc, ◌+◌, ◌-◌, ◌*◌, ◌%◌, String, ◌<>◌, Bool, true, false, Option, none, some, List, [],
  ◌∷◌, map, take, drop, length, ◌==◌, not, ◌&&◌, ◌||◌, if◌then◌else◌,
}
use computecloud_node.Prelude.Int.{ℤ, pos, negsuc, ◌+ℤ◌, ◌*ℤ◌, mod_ℤ, eqb_ℤ}
use computecloud_node.Python.{
  Result, ok, raise, value_error, type_error, runtime_error, ◌>>=◌, ◌>>◌, check, Value, null, bool,
  int, float, str, arr, obj, Items, nil, cons, Fields, empty, entry, int_items, to_list, truthy,
  is_none, decimal, to_int,
}
use computecloud_node.Python.Dict.{lookup, get, get_or, get_item, has, put}
use computecloud_node.Python.Runtime.{Runtime, to_str}

-- `_MODULUS`
abbrev pub modulus : ℕ
modulus = 1_000_000_007

-- `int.from_bytes(bytes, "big")`
abbrev pub from_bytes_big : List ℕ → ℕ
from_bytes_big = foldl (λ n b. n * 256 + b) 0

-- `_apply_layer`
unfoldable pub apply_layer : List ℤ → ℕ → ℕ → List ℤ
apply_layer values mult bias = map (λ v. pos (mod_ℤ (v *ℤ pos mult +ℤ pos bias) modulus)) values

-- `[int(v) for v in values]` where `isinstance(v, int)` holds of each: `none` if it does not.
unfoldable pub as_ints : Items → Option (List ℤ)
as_ints nil = some []
as_ints (cons (int z) xs) = elim (as_ints xs) [ none ↦ none | some zs ↦ some (z ∷ zs) ]
as_ints (cons (bool b) xs) = elim (as_ints xs) [
  | none ↦ none
  | some zs ↦ some (pos (if b then 1 else 0) ∷ zs)
]
as_ints (cons null xs) = none
as_ints (cons (float bits) xs) = none
as_ints (cons (str s) xs) = none
as_ints (cons (arr ys) xs) = none
as_ints (cons (obj d) xs) = none

-- The input check of `execute`: a list, and integers only.
abbrev pub input_ints : Value → Result (List ℤ)
input_ints (arr xs) = elim (as_ints xs) [ none ↦ raise value_error | some zs ↦ ok zs ]
input_ints _ = raise value_error

-- The range check of `execute`, `start_layer < 0 or end_layer < start_layer`.
abbrev pub layer_range : ℤ → ℤ → Result (ℕ × ℕ)
layer_range (pos s) (pos e) = elim (compare e s) [ Ordering.lt ↦ raise value_error | _ ↦ ok (s, e) ]
layer_range _ _ = raise value_error

-- The dict that `execute` returns.
abbrev pub shard_output : List ℤ → ℤ → ℤ → Value
shard_output out shard_index shard_count = obj (
    entry "output_activations" (arr (int_items out)) (
      entry "shard_index" (int shard_index)
        (entry "is_final" (bool (eqb_ℤ shard_index (shard_count +ℤ negsuc 0))) empty)))

-- What `TaskExecutor.execute` returns, as a function of the payload: a dict, `None` (null), or a
-- raised exception.
abbrev pub Executor : Type 0
Executor = Value → Result Value

module _ (rt : Runtime) where
  -- `_layer_params`
  unfoldable pub layer_params : String → ℕ → ℕ × ℕ
  layer_params model_name layer_index =
      let digest = rt.sha256 (model_name <> ":" <> decimal layer_index) in
      (
        from_bytes_big (take 8 digest) % (modulus - 1) + 1,
        from_bytes_big (take 8 (drop 8 digest)) % modulus,
      )

  -- The loop of `_run_layers`, by the rounds that are left.
  unfoldable pub run_layers_loop : String → ℕ → ℕ → List ℤ → List ℤ
  run_layers_loop model_name zero i out = out
  run_layers_loop model_name (suc rounds) i out =
      let (mult, bias) = layer_params model_name i in
      run_layers_loop model_name rounds (i + 1) (apply_layer out mult bias)

  -- `_run_layers`
  unfoldable pub run_layers : String → ℕ → ℕ → List ℤ → List ℤ
  run_layers model_name start_layer end_layer values =
      run_layers_loop model_name (end_layer - start_layer) start_layer values

  unfoldable pub run_reference : String → ℕ → List ℤ → List ℤ
  run_reference model_name total_layers values = run_layers model_name 0 total_layers values

  -- `PipelineShardExecutor.execute`
  unfoldable pub execute : Executor
  execute (obj payload) = do
    let model_name = get "model_name" payload
    check (truthy model_name) value_error
    let start_layer = get "start_layer" payload
    let end_layer = get "end_layer" payload
    check (not (is_none start_layer || is_none end_layer)) value_error
    start_layer' ← to_int start_layer
    end_layer' ← to_int end_layer
    let shard_index = get "shard_index" payload
    let shard_count = get "shard_count" payload
    check (not (is_none shard_index || is_none shard_count)) value_error
    shard_index' ← to_int shard_index
    shard_count' ← to_int shard_count
    inputs ← input_ints (get "input_activations" payload)
    (first, last) ← layer_range start_layer' end_layer'
    ok (
        shard_output (run_layers (to_str rt model_name) first last inputs) shard_index'
          shard_count')
  execute _ = raise value_error

-- The order check of `LocalPipelineRunner.run`, from position `i` on, for `n` payloads.
unfoldable pub check_order : ℕ → ℕ → List Fields → Result (Unit {0})
check_order n i [] = ok tt
check_order n i (p ∷ ps) =
    let rest = check_order n (i + 1) ps in
    do
      index ← to_int (get_or "shard_index" (int (negsuc 0)) p)
      check (eqb_ℤ index (pos i)) value_error
      count ← to_int (get_or "shard_count" (int (negsuc 0)) p)
      check (eqb_ℤ count (pos n)) value_error
      rest

-- `out is None or "output_activations" not in out`, and the list that is taken from it.
unfoldable pub output_of : Value → Result Items
output_of (obj out) = elim (lookup "output_activations" out) [
  | none ↦ raise runtime_error
  | some v ↦ to_list v
]
output_of _ = raise runtime_error

module _ (executor : Executor) where
  -- The loop of `run` over the payloads.
  unfoldable pub run_loop : Items → Value → List Fields → Result Value
  run_loop activations last_output [] = ok last_output
  run_loop activations last_output (payload ∷ ps) = do
    out ← executor (obj (put "input_activations" (arr activations) payload))
    activations' ← output_of out
    run_loop activations' out ps

  -- `LocalPipelineRunner.run`
  unfoldable pub run : List Fields → List ℤ → Result Value
  unfolding run_loop
  run shard_payloads initial_input = do
    check (not (length shard_payloads == 0)) value_error
    check_order (length shard_payloads) 0 shard_payloads
    run_loop (int_items initial_input) null shard_payloads
