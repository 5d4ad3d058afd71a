-- ===== src/Pipeline/Equivalence.antt =====
-- A pipeline of shards computes what `run_reference` computes in one pass.
use native.Mathlib.Nat.{suc-add, add-zero, zero-add}
use computecloud_node.Prelude.{
  ℕ, zero, suc, ◌+◌, ◌-◌, ◌≤◌, String, ◌≡◌, refl, ◌≢◌, ◌∙◌, true, false, some, List, [], ◌∷◌,
  length, arith, str_eq,
}
use computecloud_node.Prelude.Int.{ℤ, pos, ◌+ℤ◌}
use computecloud_node.Python.{
  ok, Value, null, bool, int, str, arr, obj, Fields, empty, entry, int_items, to_int, to_list,
  truthy,
}
use computecloud_node.Python.Dict.{lookup, put, lookup-put_self, lookup-put_ne}
use computecloud_node.Python.Runtime.{Runtime}
use computecloud_node.Pipeline.{
  as_ints, shard_output, run_layers_loop, run_layers, run_reference, execute, check_order,
  output_of, run_loop, run,
}

-- The payload `p` is shard `i` of `n`, of the layers from `s` to `e` of the model `m`.
pub record IsShard (m : String) (n i s e : ℕ) (p : Fields) : Type 0 where
  pub model : lookup "model_name" p ≡ some (str m)
  pub named : str_eq m "" ≡ false
  pub start : lookup "start_layer" p ≡ some (int (pos s))
  pub stop : lookup "end_layer" p ≡ some (int (pos e))
  pub index : lookup "shard_index" p ≡ some (int (pos i))
  pub count : lookup "shard_count" p ≡ some (int (pos n))
  pub ordered : s ≤ e

-- The payloads are the shards from position `i` on, in order, and their layer ranges follow one
-- another from layer `s` to layer `total`.
abbrev pub Chain : String → ℕ → ℕ → ℕ → ℕ → List Fields → Type 0
Chain m n i s total [] = s ≡ total
Chain m n i s total (p ∷ ps) = (e : ℕ) × IsShard m n i s e p × Chain m n (suc i) e total ps

as_ints-int_items : (xs : List ℤ) → as_ints (int_items xs) ≡ some xs
unfolding as_ints
as_ints-int_items [] = refl
as_ints-int_items (x ∷ xs) = rw (as_ints-int_items xs)

shift : (i a : ℕ) → i + 1 + a ≡ i + suc a
shift i a = omega arith

Chain-le : (m : String) (n i s total : ℕ) (ps : List Fields) → Chain m n i s total ps → s ≤ total
Chain-le m n i s total [] h = omega arith
Chain-le m n i s total (p ∷ ps) (e, shard, chain) =
    omega (arith, Chain-le m n (suc i) e total ps chain, shard.ordered)

module _ (rt : Runtime) (m : String) where
  run_layers_loop-add :
      (a b i : ℕ) (v : List ℤ)
      → run_layers_loop rt m (a + b) i v
        ≡ run_layers_loop rt m b (i + a) (run_layers_loop rt m a i v)
  unfolding run_layers_loop
  run_layers_loop-add zero b i v = rw (zero-add, add-zero)
  run_layers_loop-add (suc a) b i v =
      rw (suc-add a b, run_layers_loop-add a b (i + 1) _) (rw (shift i a))

  -- Running two adjacent layer ranges one after the other is running their union.
  pub run_layers-split :
      (s e t : ℕ) (v : List ℤ)
      → s ≤ e
      → e ≤ t
      → run_layers rt m e t (run_layers rt m s e v) ≡ run_layers rt m s t v
  unfolding run_layers
  run_layers-split s e t v h k =
      let gap : t - s ≡ (e - s) + (t - e) = omega arith in
      let reach : s + (e - s) ≡ e = omega arith in
      rw (gap, run_layers_loop-add (e - s) (t - e) s v, reach)

  pub execute-IsShard :
      (n i s e : ℕ) (p : Fields) (xs : List ℤ)
      → IsShard m n i s e p
      → lookup "input_activations" p ≡ some (arr (int_items xs))
      → execute rt (obj p) ≡ ok (shard_output (run_layers rt m s e xs) (pos i) (pos n))
  unfolding execute truthy to_int
  execute-IsShard n i s e p xs shard input = ground (arith, as_ints-int_items xs)

  -- A shard keeps its fields when another field is put.
  put-IsShard :
      (n i s e : ℕ) (p : Fields) (v : Value)
      → IsShard m n i s e p
      → IsShard m n i s e (put "input_activations" v p)
  put-IsShard n i s e p v shard = record {
    model = lookup-put_ne "input_activations" "model_name" v p refl ∙ shard.model;
    named = shard.named;
    start = lookup-put_ne "input_activations" "start_layer" v p refl ∙ shard.start;
    stop = lookup-put_ne "input_activations" "end_layer" v p refl ∙ shard.stop;
    index = lookup-put_ne "input_activations" "shard_index" v p refl ∙ shard.index;
    count = lookup-put_ne "input_activations" "shard_count" v p refl ∙ shard.count;
    ordered = shard.ordered;
  }

  execute-shard :
      (n i s e : ℕ) (p : Fields) (xs : List ℤ)
      → IsShard m n i s e p
      → execute rt (obj (put "input_activations" (arr (int_items xs)) p))
        ≡ ok (shard_output (run_layers rt m s e xs) (pos i) (pos n))
  execute-shard n i s e p xs h =
      execute-IsShard n i s e (put "input_activations" (arr (int_items xs)) p) xs
        (put-IsShard n i s e p (arr (int_items xs)) h)
        (lookup-put_self "input_activations" (arr (int_items xs)) p)

  pub output_of-shard_output :
      (out : List ℤ) (i n : ℤ) → output_of (shard_output out i n) ≡ ok (int_items out)
  unfolding output_of lookup to_list
  output_of-shard_output out i n = refl

  check_order-Chain :
      (n i s total : ℕ) (ps : List Fields) → Chain m n i s total ps → check_order n i ps ≡ ok tt
  unfolding check_order to_int
  check_order-Chain n i s total [] h = refl
  check_order-Chain n i s total (p ∷ ps) (e, shard, chain) =
      ground (arith, check_order-Chain n (suc i) e total ps chain)

  run_loop-Chain :
      (n i s total : ℕ) (xs : List ℤ) (last : Value) (ps : List Fields)
      → Chain m n i s total ps
      → ps ≢ []
      → i + length ps ≡ n
      → run_loop (execute rt) (int_items xs) last ps
        ≡ ok (shard_output (run_layers rt m s total xs) (pos (n - 1)) (pos n))
  unfolding run_loop
  run_loop-Chain n i s total xs last [] h ne c = absurd (ne refl)
  run_loop-Chain n i s total xs last (p ∷ []) (e, shard, chain) ne c =
      let here : i ≡ n - 1 = omega arith in
      rw (execute-shard n i s e p xs shard, output_of-shard_output, chain, here)
  run_loop-Chain n i s total xs last (p ∷ q ∷ ps) (e, shard, chain) ne c =
      let rest =
        run_loop-Chain n (suc i) e total (run_layers rt m s e xs)
          (shard_output (run_layers rt m s e xs) (pos i) (pos n)) (q ∷ ps) chain (λ h. cc)
          (omega arith) in
      rw (execute-shard n i s e p xs shard, output_of-shard_output)
        (rest
          ∙ rw (
              run_layers-split s e total xs shard.ordered
                (Chain-le m n (suc i) e total (q ∷ ps) chain)))

  -- Shard payloads that cover the layers from 0 to `total` in adjacent ranges, in order, are run by
  -- `LocalPipelineRunner` with `PipelineShardExecutor` without an exception; the final output has
  -- the activations of the single pass over all layers, the index of the last shard, and
  -- `is_final` true. At least one shard is needed, and a model name that is not empty.
  pub run-run_reference :
      (total : ℕ) (ps : List Fields) (input : List ℤ)
      → ps ≢ []
      → Chain m (length ps) 0 0 total ps
      → run (execute rt) ps input
        ≡ ok (
            obj (
              entry "output_activations" (arr (int_items (run_reference rt m total input))) (
                entry "shard_index"
                  (int (pos (length ps - 1)))
                  (entry "is_final" (bool true) empty))))
  unfolding run run_reference ◌+ℤ◌
  run-run_reference total [] input ne chain = absurd (ne refl)
  run-run_reference total (p ∷ ps) input ne chain =
      rw
        (
          check_order-Chain (length (p ∷ ps)) 0 0 total (p ∷ ps) chain,
          run_loop-Chain (length (p ∷ ps)) 0 0 total input null (p ∷ ps) chain ne (omega arith),
        )
        (ground arith)
