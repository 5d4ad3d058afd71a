-- ===== src/Pipeline/Tests.antt =====
-- Runs of a pipeline of two shards, and the theorems at concrete inputs.
use computecloud_node.Prelude.{ℕ, ◌≡◌, refl, true, List, [], ◌∷◌, arith, All, length}
use mathlib.Core.List.{map, foldl}
use computecloud_node.Prelude.Int.{pos, negsuc, mod_ℤ, ◌+ℤ◌, ◌*ℤ◌}
use computecloud_node.Python.{
  ok, raise, value_error, str, int, arr, obj, bool, Fields, empty, entry, int_items, to_int,
  decimal,
}
use computecloud_node.Python.Dict.{lookup}
use computecloud_node.Python.Runtime.{Runtime}
use computecloud_node.Pipeline.{
  run_layers, run_layers_loop, apply_layer, run_reference, execute, run, check_order, layer_params,
}
use computecloud_node.Pipeline.Bounds.{InRange, run_layers-InRange}
use computecloud_node.Pipeline.Equivalence.{IsShard, run-run_reference}

-- A stand-in for the digest: every layer has the multiplier 3 and the bias 5.
abbrev rt : Runtime
rt = record {
  sha256 = λ s. 0 ∷ 0 ∷ 0 ∷ 0 ∷ 0 ∷ 0 ∷ 0 ∷ 2 ∷ 0 ∷ 0 ∷ 0 ∷ 0 ∷ 0 ∷ 0 ∷ 0 ∷ 5 ∷ [];
  display = λ v. "";
}

abbrev shard : ℕ → ℕ → ℕ → Fields
shard i s e = entry "model_name" (str "toy") (
    entry "start_layer" (int (pos s)) (
      entry "end_layer" (int (pos e))
        (entry "shard_index" (int (pos i)) (entry "shard_count" (int (pos 2)) empty))))

abbrev shards : List Fields
shards = shard 0 0 2 ∷ shard 1 2 3 ∷ []

shard_0-IsShard : IsShard "toy" 2 0 0 2 (shard 0 0 2)
unfolding lookup
shard_0-IsShard = record {
  model = refl;
  named = refl;
  start = refl;
  stop = refl;
  index = refl;
  count = refl;
  ordered = omega arith;
}

shard_1-IsShard : IsShard "toy" 2 1 2 3 (shard 1 2 3)
unfolding lookup
shard_1-IsShard = record {
  model = refl;
  named = refl;
  start = refl;
  stop = refl;
  index = refl;
  count = refl;
  ordered = omega arith;
}

reference_runs : run_reference rt "toy" 3 (pos 1 ∷ negsuc 0 ∷ []) ≡ pos 92 ∷ pos 38 ∷ []
unfolding run_reference run_layers run_layers_loop layer_params apply_layer mod_ℤ ◌+ℤ◌ ◌*ℤ◌ decimal
    map foldl
reference_runs = refl

wrong_order : run (execute rt) (shard 1 2 3 ∷ shard 0 0 2 ∷ []) [] ≡ raise value_error
unfolding run check_order to_int lookup
wrong_order = refl

run-run_reference_example :
    run (execute rt) shards (pos 1 ∷ [])
    ≡ ok (
        obj (
          entry "output_activations"
            (arr (int_items (run_reference rt "toy" 3 (pos 1 ∷ []))))
            (entry "shard_index" (int (pos 1)) (entry "is_final" (bool true) empty))))
run-run_reference_example =
    run-run_reference rt "toy" 3 shards (pos 1 ∷ []) (λ h. cc)
      (2, shard_0-IsShard, (3, shard_1-IsShard, refl))

run_layers-InRange_example :
    All InRange (run_layers rt "toy" 0 3 (negsuc 6 ∷ []))
    × (length (run_layers rt "toy" 0 3 (negsuc 6 ∷ [])) ≡ length (negsuc 6 ∷ []))
run_layers-InRange_example = run_layers-InRange rt "toy" 0 3 (negsuc 6 ∷ []) (omega arith)
