-- ===== src/Exchange/PipelineWorker.antt =====
-- src/computecloud_node/pipeline_worker.py: one shard of a pipeline run. The texts of the log are
-- not modelled.
use computecloud_node.Prelude.{
  ℕ, String, ◌<>◌, Bool, false, Option, none, some, List, [], ◌∷◌, ◌==◌, if◌then◌else◌,
}
use computecloud_node.Prelude.Int.{ℤ, negsuc, ◌+ℤ◌, eqb_ℤ}
use computecloud_node.Python.{
  Result, ok, raise, type_error, other_error, ◌>>=◌, Value, bool, int, arr, obj, Items, nil, cons,
  Fields, empty, entry, int_items, truthy, is_text, to_int, decimal_ℤ,
}
use computecloud_node.Python.Dict.{get, get_item, put, set_default}
use computecloud_node.Python.Runtime.{Runtime, to_str}
use computecloud_node.Pipeline.{Executor, output_of}
use computecloud_node.Exchange.{Net, Response, poll_for_input, post_output}
use computecloud_node.Exchange.Action.{Action, give, run_once, and_then}

-- `is_shard_task`
unfoldable pub is_shard_task : Value → Bool
is_shard_task (obj payload) = is_text (get "kind" payload) "pipeline_shard"
is_shard_task _ = false

-- `[int(v) for v in acts]`
unfoldable pub ints_of : Items → Result (List ℤ)
unfolding to_int
ints_of nil = ok []
ints_of (cons v vs) = let rest = ints_of vs in do z ← to_int v; zs ← rest; ok (z ∷ zs)

abbrev pub listed_activations : Value → Option (Result (List ℤ))
listed_activations (arr acts) = some (ints_of acts)
listed_activations _ = none

-- What `_poll_for_input` does with the JSON body of a response with status 200.
abbrev pub activations_of : Result Value → Option (Result (List ℤ))
activations_of (raise exc) = some (raise exc)
activations_of (ok (obj body)) = listed_activations (get "activations" body)
activations_of (ok _) = some (raise other_error)

unfoldable pub accept_activations : Response → Option (Result (List ℤ))
unfolding ints_of
accept_activations r = if r.status_code == 200 then activations_of r.body else none

-- `dict(v or {})`. A list of pairs, which `dict` would take too, counts as an exception here.
unfoldable pub dict_or_empty : Value → Result Fields
unfolding truthy
dict_or_empty (obj d) = ok d
dict_or_empty v = if truthy v then raise type_error else ok empty

-- The payload of the executor.
unfoldable pub step_payload : Fields → List ℤ → ℤ → ℤ → Fields
step_payload shard_spec activations shard_index shard_count =
    set_default "shard_count" (int shard_count) (
      set_default "shard_index" (int shard_index)
        (put "input_activations" (arr (int_items activations)) shard_spec))

abbrev pub activation_url : String → ℤ → String
activation_url run_id shard_index =
    "/api/v1/pipeline/" <> run_id <> "/activation/" <> decimal_ℤ shard_index

-- The dict that `execute_shard` returns.
abbrev pub shard_result : Items → ℤ → ℤ → Value
shard_result outputs shard_index shard_count = obj (
    entry "output_activations" (arr outputs) (
      entry "shard_index" (int shard_index)
        (entry "is_final" (bool (eqb_ℤ shard_index (shard_count +ℤ negsuc 0))) empty)))

abbrev pub activations_body : Items → Value
activations_body outputs = obj (entry "activations" (arr outputs) empty)

-- What `execute_shard` reads from its payload before it polls.
pub record ShardTask : Type 0 where
  pub run_id : Value
  pub shard_index : ℤ
  pub shard_count : ℤ
  pub shard_spec : Fields

unfoldable pub shard_task : Fields → Result ShardTask
shard_task payload = do
  run_id ← get_item "pipeline_run_id" payload
  index ← get_item "shard_index" payload
  shard_index ← to_int index
  count ← get_item "shard_count" payload
  shard_count ← to_int count
  shard_spec ← dict_or_empty (get "shard_spec" payload)
  ok (record {
    run_id = run_id;
    shard_index = shard_index;
    shard_count = shard_count;
    shard_spec = shard_spec;
  })

module _ (rt : Runtime) (net : Net) (executor : Executor) (interval timeout : ℕ) where
  -- `execute_shard` from the poll on.
  unfoldable pub exchange_shard : ShardTask → Action net.State Value
  exchange_shard task =
      let url = activation_url (to_str rt task.run_id) task.shard_index in
      and_then (poll_for_input net accept_activations url interval timeout) (λ activations.
        and_then
          (give (do
            out ←
                executor
                  (obj (step_payload task.shard_spec activations task.shard_index task.shard_count))
            output_of out))
          (λ outputs.
            and_then (run_once (post_output net url (activations_body outputs)))
              (λ posted. give (ok (shard_result outputs task.shard_index task.shard_count)))))

  -- `PipelineShardWorker.execute_shard`
  unfoldable pub execute_shard : Fields → Action net.State Value
  execute_shard payload = and_then (give (shard_task payload)) exchange_shard
