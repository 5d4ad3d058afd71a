-- ===== src/Exchange/Routing.antt =====
-- Which worker takes a task: `ShardAwareExecutor` of src/computecloud_node/shard_executor_adapter.py and
-- `DataShardAwareExecutor` of src/computecloud_node/data_worker.py.
use computecloud_node.Prelude.{
  String, ◌≡◌, refl, Bool, true, false, Option, none, some, arith, ◌||◌, if◌then◌else◌,
}
use computecloud_node.Prelude.Int.{ℤ, negsuc}
use computecloud_node.Python.{
  ok, raise, value_error, Value, null, bool, int, float, str, arr, obj, Fields, empty, is_text,
  to_int,
}
use computecloud_node.Python.Dict.{get, get_or}
use computecloud_node.Exchange.Action.{Action, give, and_then}
use computecloud_node.Exchange.PipelineWorker.{is_shard_task}
use computecloud_node.Exchange.DataWorker.{is_data_shard_task}

abbrev pub Worker : Type 0 → Type 0
Worker S = Fields → Action S Value

abbrev pub Fallback : Type 0 → Type 0
Fallback S = Value → Action S Value

-- `kind == text` of a payload that is a dict.
abbrev pub is_kind : Value → String → Bool
is_kind (obj payload) text = is_text (get "kind" payload) text
is_kind _ text = false

abbrev pub fields : Value → Fields
fields (obj payload) = payload
fields _ = empty

module _ {S : Type 0} where
  -- The call of an executor that may not be configured.
  abbrev pub call : {A : Type 0} → Option (A → Action S Value) → A → Action S Value
  call none x = give (raise value_error)
  call (some run) x = run x

  module _ (fallback : Option (Fallback S)) where
    -- `ShardAwareExecutor.execute`. Its log line reads the shard's index as a number.
    unfoldable pub shard_aware_execute : Worker S → Fallback S
    shard_aware_execute shard_worker payload =
        if is_shard_task payload
        then and_then (give (to_int (get_or "shard_index" (int (negsuc 0)) (fields payload))))
            (λ logged. shard_worker (fields payload))
        else call fallback payload

    -- `DataShardAwareExecutor.execute`
    unfoldable pub data_aware_execute :
        Worker S → Option (Fallback S) → Option (Worker S) → Fallback S
    data_aware_execute data_worker llm_executor pipeline_worker payload =
        if is_data_shard_task payload
        then data_worker (fields payload)
        else if is_kind payload "llm_shard"
        then call llm_executor payload
        else if is_kind payload "pipeline_shard"
        then call pipeline_worker (fields payload)
        else call fallback payload

-- The kind of a task is that of a data shard, a merge, or a shard of a language model.
abbrev pub is_new_kind : Value → Bool
is_new_kind payload = is_data_shard_task payload || is_kind payload "llm_shard"

module _ {S : Type 0} (fallback : Option (Fallback S)) (shard_worker : Worker S) where
  -- On every task that is neither a data shard, a merge nor a language model's shard, and whose
  -- shard index, if it is a pipeline shard, reads as a number, `DataShardAwareExecutor` with a
  -- pipeline worker does what `ShardAwareExecutor` does with that worker.
  pub data_aware_execute-shard_aware_execute :
      (data_worker : Worker S) (llm_executor : Option (Fallback S)) (payload : Value) (index : ℤ)
      → is_new_kind payload ≡ false
      → (is_shard_task payload ≡ true
          → to_int (get_or "shard_index" (int (negsuc 0)) (fields payload)) ≡ ok index)
      → data_aware_execute fallback data_worker llm_executor (some shard_worker) payload
        ≡ shard_aware_execute fallback shard_worker payload
  unfolding data_aware_execute shard_aware_execute is_shard_task is_data_shard_task
  data_aware_execute-shard_aware_execute data_worker llm_executor (obj d) index old numbered =
      ground (arith, numbered)
  data_aware_execute-shard_aware_execute data_worker llm_executor null index old numbered = refl
  data_aware_execute-shard_aware_execute data_worker llm_executor (bool b) index old numbered = refl
  data_aware_execute-shard_aware_execute data_worker llm_executor (int z) index old numbered = refl
  data_aware_execute-shard_aware_execute data_worker llm_executor (float b) index old numbered =
      refl
  data_aware_execute-shard_aware_execute data_worker llm_executor (str t) index old numbered = refl
  data_aware_execute-shard_aware_execute data_worker llm_executor (arr xs) index old numbered = refl
