-- ===== src/Exchange/Shards.antt =====
-- A shard that goes through the exchange computes its layers of the model.
use computecloud_node.Prelude.{
  ℕ, ◌≤◌, String, ◌≡◌, refl, ◌∙◌, false, none, some, List, arith, str_eq, fun_ext, ap,
}
use computecloud_node.Prelude.Int.{ℤ, pos}
use computecloud_node.Python.{
  Result, ok, Value, int, str, arr, obj, Fields, int_items, Items, ◌>>=◌,
}
use computecloud_node.Python.Dict.{lookup, put, lookup-put_self, lookup-put_ne}
use computecloud_node.Python.Runtime.{Runtime, to_str}
use computecloud_node.Pipeline.{shard_output, run_layers, execute, output_of}
use computecloud_node.Pipeline.Equivalence.{IsShard, execute-IsShard, output_of-shard_output}
use computecloud_node.Exchange.{Net, poll_for_input, post_output}
use computecloud_node.Exchange.Action.{give, run_once, and_then}
use computecloud_node.Exchange.PipelineWorker.{
  accept_activations, step_payload, activation_url, shard_result, activations_body, exchange_shard,
}

-- The shard specification that the coordinator sends: layers `s` to `e` of the model `m`.
pub record IsSpec (m : String) (s e : ℕ) (spec : Fields) : Type 0 where
  pub model : lookup "model_name" spec ≡ some (str m)
  pub named : str_eq m "" ≡ false
  pub start : lookup "start_layer" spec ≡ some (int (pos s))
  pub stop : lookup "end_layer" spec ≡ some (int (pos e))
  pub no_index : lookup "shard_index" spec ≡ none
  pub no_count : lookup "shard_count" spec ≡ none
  pub ordered : s ≤ e

module _ (m : String) (n i s e : ℕ) (spec : Fields) (xs : List ℤ)
    (is_spec : IsSpec m s e spec) where
  abbrev with_input : Fields
  with_input = put "input_activations" (arr (int_items xs)) spec

  abbrev with_index : Fields
  with_index = put "shard_index" (int (pos i)) with_input

  step_payload_lem :
      step_payload spec xs (pos i) (pos n) ≡ put "shard_count" (int (pos n)) with_index
  unfolding step_payload
  step_payload_lem =
      let no_index =
        lookup-put_ne "input_activations" "shard_index" (arr (int_items xs)) spec refl
        ∙ is_spec.no_index in
      let no_count =
        lookup-put_ne "shard_index" "shard_count" (int (pos i)) with_input refl
        ∙ lookup-put_ne "input_activations" "shard_count" (arr (int_items xs)) spec refl
        ∙ is_spec.no_count in
      ground (arith, no_index, no_count)

  kept :
      (k : String) (v : Value)
      → str_eq "shard_count" k ≡ false
      → str_eq "shard_index" k ≡ false
      → str_eq "input_activations" k ≡ false
      → lookup k spec ≡ some v
      → lookup k (step_payload spec xs (pos i) (pos n)) ≡ some v
  kept k v a b c h = rw step_payload_lem (
      lookup-put_ne "shard_count" k (int (pos n)) with_index a
      ∙ lookup-put_ne "shard_index" k (int (pos i)) with_input b
      ∙ lookup-put_ne "input_activations" k (arr (int_items xs)) spec c
      ∙ h)

  step_payload-IsShard : IsShard m n i s e (step_payload spec xs (pos i) (pos n))
  step_payload-IsShard = record {
    model = kept "model_name" (str m) refl refl refl is_spec.model;
    named = is_spec.named;
    start = kept "start_layer" (int (pos s)) refl refl refl is_spec.start;
    stop = kept "end_layer" (int (pos e)) refl refl refl is_spec.stop;
    index = rw step_payload_lem (
        lookup-put_ne "shard_count" "shard_index" (int (pos n)) with_index refl
        ∙ lookup-put_self "shard_index" (int (pos i)) with_input);
    count = rw step_payload_lem (lookup-put_self "shard_count" (int (pos n)) with_index);
    ordered = is_spec.ordered;
  }

  step_payload-input :
      lookup "input_activations" (step_payload spec xs (pos i) (pos n)) ≡ some (arr (int_items xs))
  step_payload-input = rw step_payload_lem (
      lookup-put_ne "shard_count" "input_activations" (int (pos n)) with_index refl
      ∙ lookup-put_ne "shard_index" "input_activations" (int (pos i)) with_input refl
      ∙ lookup-put_self "input_activations" (arr (int_items xs)) spec)

module _ (rt : Runtime) (net : Net) (interval timeout : ℕ) where
  computed :
      (m : String) (n i s e : ℕ) (spec : Fields) (xs : List ℤ)
      → IsSpec m s e spec
      → execute rt (obj (step_payload spec xs (pos i) (pos n)))
        ≡ ok (shard_output (run_layers rt m s e xs) (pos i) (pos n))
  computed m n i s e spec xs is_spec =
      execute-IsShard rt m n i s e (step_payload spec xs (pos i) (pos n)) xs
        (step_payload-IsShard m n i s e spec xs is_spec)
        (step_payload-input m n i s e spec xs is_spec)

  -- With `PipelineShardExecutor`, a shard task of the layers `s` to `e` polls its own position, runs
  -- these layers on the list that comes, posts the outcome to the same place, and returns it. It
  -- does no more, and ends earlier exactly if the poll or the post raises.
  pub exchange_shard-run_layers :
      (m : String) (n i s e : ℕ) (spec : Fields) (run_id : Value)
      → IsSpec m s e spec
      → exchange_shard rt net
          (execute rt)
          interval
          timeout
          (record { run_id = run_id; shard_index = pos i; shard_count = pos n; shard_spec = spec })
        ≡ (let url = activation_url (to_str rt run_id) (pos i) in
            and_then (poll_for_input net accept_activations url interval timeout) (λ xs.
              and_then
                (run_once
                  (post_output net url (activations_body (int_items (run_layers rt m s e xs)))))
                (λ posted.
                  give (ok (shard_result (int_items (run_layers rt m s e xs)) (pos i) (pos n))))))
  unfolding exchange_shard
  exchange_shard-run_layers m n i s e spec run_id is_spec =
      let url = activation_url (to_str rt run_id) (pos i) in
      let outputs : List ℤ → Result Items =
        λ xs. execute rt (obj (step_payload spec xs (pos i) (pos n))) >>= output_of in
      let run : (xs : List ℤ) → outputs xs ≡ ok (int_items (run_layers rt m s e xs)) = λ xs.
        rw (computed m n i s e spec xs is_spec)
          (output_of-shard_output rt m (run_layers rt m s e xs) (pos i) (pos n)) in
      ap
        (λ (f : List ℤ → Result Items).
          and_then (poll_for_input net accept_activations url interval timeout) (λ xs.
            and_then (give (f xs)) (λ out.
              and_then (run_once (post_output net url (activations_body out)))
                (λ posted. give (ok (shard_result out (pos i) (pos n)))))))
        (fun_ext run)
