-- ===== src/Exchange/DataWorker.antt =====
-- src/computecloud_node/data_worker.py: one data shard, or the merge of the shards' outputs.
use computecloud_node.Prelude.{
  ℕ, String, ◌<>◌, Bool, true, false, Option, none, some, ◌==◌, ◌||◌, ◌&&◌, if◌then◌else◌,
}
use computecloud_node.Prelude.Int.{ℤ, pos}
use computecloud_node.Python.{
  Result, ok, raise, other_error, ◌>>=◌, Value, bool, int, str, arr, obj, Items, nil, cons, Fields,
  empty, entry, truthy, is_text, is_list, is_number, is_str, to_int, decimal_ℤ,
}
use computecloud_node.Python.Dict.{get, get_or, get_item, has, put}
use computecloud_node.Python.Text.{str_replace}
use computecloud_node.Python.Runtime.{Runtime, to_str}
use computecloud_node.Pipeline.{Executor}
use computecloud_node.Exchange.{Net, Response, poll_for_input, post_output}
use computecloud_node.Exchange.Action.{Action, give, run_once, and_then}
use computecloud_node.Exchange.PipelineWorker.{dict_or_empty}

-- `is_data_shard_task`
unfoldable pub is_data_shard_task : Value → Bool
is_data_shard_task (obj payload) =
    is_text (get "kind" payload) "data_shard" || is_text (get "kind" payload) "data_merge"
is_data_shard_task _ = false

-- What `_poll_for_input` does with a response.
abbrev pub field_data : Result Value → Result Value
field_data (raise exc) = raise exc
field_data (ok (obj body)) = ok (get "data" body)
field_data (ok _) = raise other_error

unfoldable pub accept_data : Response → Option (Result Value)
accept_data r = if r.status_code == 200 then some (field_data r.body) else none

abbrev pub data_url : String → ℤ → String
data_url run_id shard_index = "/api/v1/data/" <> run_id <> "/shard/" <> decimal_ℤ shard_index

abbrev pub all_items : (Value → Bool) → Items → Bool
all_items p nil = true
all_items p (cons x xs) = p x && all_items p xs

abbrev pub extend : Items → Items → Items
extend nil ys = ys
extend (cons x xs) ys = cons x (extend xs ys)

abbrev pub elements : Value → Items
elements (arr xs) = xs
elements _ = nil

-- The loop `merged.extend(x)` over a list of lists.
unfoldable pub extend_loop : Items → Items → Items
extend_loop merged nil = merged
extend_loop merged (cons x xs) = extend_loop (extend merged (elements x)) xs

-- `"\n".join(text of x for x in items)`
unfoldable pub join_lines : (Value → String) → Items → String
join_lines text nil = ""
join_lines text (cons x nil) = text x
join_lines text (cons x (cons y ys)) = text x <> "\n" <> join_lines text (cons y ys)

-- `[v if isinstance(v, list)] else [int(v)]`, the input of a model shard.
unfoldable pub model_input : Value → Result Items
unfolding to_int
model_input (arr xs) = ok xs
model_input v = do z ← to_int v; ok (cons (int z) nil)

-- What the model shard's output gives: `out["output_activations"]`, else the input.
unfoldable pub model_output : Value → Value → Value
model_output input_data (obj out) = get_or "output_activations" input_data out
model_output input_data _ = input_data

-- `payload.get("shard_spec") or {}`. A value of another type makes `.get` raise.
abbrev pub spec_of : Fields → Result Fields
spec_of payload = dict_or_empty (get "shard_spec" payload)

-- `spec.get("command") or payload.get("command")`
abbrev pub command_of : Fields → Fields → Value
command_of spec payload =
    if truthy (get "command" spec) then get "command" spec else get "command" payload

abbrev pub is_model_shard : Fields → Fields → Bool
is_model_shard spec payload =
    is_text (get_or "workload_type" (str "") payload) "model_sharding" || has "start_layer" spec

-- The dict that `execute_shard` returns.
abbrev pub data_result : Value → ℤ → ℤ → Value → Bool → Value
data_result output shard_index shard_count topology is_merge = obj (
    entry "output" output (
      entry "shard_index" (int shard_index) (
        entry "shard_count" (int shard_count)
          (entry "topology" topology (entry "is_merge" (bool is_merge) empty)))))

-- What `execute_shard` reads from its payload before it polls.
pub record DataTask : Type 0 where
  pub run_id : Value
  pub shard_index : ℤ
  pub shard_count : ℤ
  pub topology : Value
  pub is_merge : Bool

unfoldable pub data_task : Fields → Result DataTask
data_task payload = do
  run_id ← get_item "data_run_id" payload
  index ← get_item "shard_index" payload
  shard_index ← to_int index
  shard_count ← to_int (get_or "shard_count" (int (pos 0)) payload)
  ok (record {
    run_id = run_id;
    shard_index = shard_index;
    shard_count = shard_count;
    topology = get_or "topology" (str "parallel") payload;
    is_merge = is_text (get "kind" payload) "data_merge";
  })

-- The temporary files, and the node's executor, which can read them: a text becomes a file whose
-- path is given back, and `os.unlink` removes it.
pub record Workspace (S : Type 0) : Type 0 where
  pub write_temp : String → Action S String
  pub unlink : String → S → S
  pub execute : Value → Action S Value

module _ (rt : Runtime) where
  -- The text of the temporary file.
  unfoldable pub input_text : Value → String
  unfolding join_lines
  input_text (arr xs) = join_lines (to_str rt) xs
  input_text v = to_str rt v

  -- The text that a command's result gives.
  unfoldable pub command_output : Value → Value
  command_output (obj empty) = str (rt.display (obj empty))
  command_output (obj (entry k v d)) =
      get_or "stdout" (str (rt.display (obj (entry k v d)))) (entry k v d)
  command_output v = str (to_str rt v)

  -- `sum` is the built-in sum of integers and floats.
  unfoldable pub compute_merge : (Items → Value) → Value → Value
  unfolding extend_loop join_lines
  compute_merge sum (arr xs) =
      if all_items is_list xs
      then arr (extend_loop nil xs)
      else if all_items is_number xs
      then sum xs
      else if all_items is_str xs
      then str (join_lines (to_str rt) xs)
      else arr xs
  compute_merge sum v = v

  module _ {S : Type 0} (ws : Workspace S) where
    -- `command.replace(...)` raises if the command is no text.
    abbrev pub execute_command : Value → String → Action S Value
    execute_command (str command) path =
        ws.execute (obj (entry "command" (str (str_replace "{input_file}" path command)) empty))
    execute_command _ path = give (raise other_error)

    -- The `try` and `finally` of `_run_command_shard`: the file is removed on both ways out.
    unfoldable pub with_file : Value → String → Action S Value
    unfolding command_output
    with_file command path s = elim (execute_command command path s) [
      | none ↦ none
      | some (raise exc, s') ↦ some (raise exc, ws.unlink path s')
      | some (ok result, s') ↦ some (ok (command_output result), ws.unlink path s')
    ]

    -- `_run_command_shard`
    unfoldable pub run_command_shard : Value → Value → Action S Value
    run_command_shard command input_data =
        and_then (ws.write_temp (input_text input_data)) (with_file command)

    -- The model branch of `_compute_shard`.
    unfoldable pub model_shard : Executor → Fields → Value → Fields → Result Value
    model_shard executor spec input_data payload = do
      inputs ← model_input input_data
      out ← executor (
          obj (
            put "input_activations" (arr inputs) (
              put "shard_count" (get_or "shard_count" (int (pos 1)) payload)
                (put "shard_index" (get_or "shard_index" (int (pos 0)) payload) spec))))
      ok (model_output input_data out)

    -- `_compute_shard`; `has_executor` is `self._executor is not None`.
    unfoldable pub compute_shard : Executor → Bool → Value → Fields → Action S Value
    compute_shard executor has_executor input_data payload =
        and_then (give (spec_of payload)) (λ spec.
          if is_model_shard spec payload
          then give (model_shard executor spec input_data payload)
          else if truthy (command_of spec payload) && has_executor
          then run_command_shard (command_of spec payload) input_data
          else give (ok input_data))

module _ (rt : Runtime) (net : Net) (task : DataTask) where
  -- `_poll_for_input`
  unfoldable pub poll_data : ℕ → ℕ → Action net.State Value
  poll_data interval timeout =
      poll_for_input net accept_data (data_url (to_str rt task.run_id) task.shard_index) interval
        timeout

  -- `_post_output`
  unfoldable pub post_data : Value → Action net.State (Unit {0})
  post_data output = run_once (
      post_output net (data_url (to_str rt task.run_id) task.shard_index)
        (obj (entry "data" output empty)))

module _ (rt : Runtime) (net : Net) (ws : Workspace net.State) (sum : Items → Value)
    (executor : Executor) (has_executor : Bool) (interval timeout : ℕ) where
  -- `execute_shard` from the poll on.
  unfoldable pub exchange_data : Fields → DataTask → Action net.State Value
  unfolding compute_merge poll_data post_data
  exchange_data payload task = and_then (poll_data rt net task interval timeout) (λ input_data.
      and_then
        (if task.is_merge
          then give (ok (compute_merge rt sum input_data))
          else compute_shard rt ws executor has_executor input_data payload)
        (λ output. and_then (post_data rt net task output) (λ posted.
          give (
            ok
              (data_result output task.shard_index task.shard_count task.topology task.is_merge)))))

  -- `DataShardWorker.execute_shard`
  unfoldable pub execute_shard : Fields → Action net.State Value
  execute_shard payload = and_then (give (data_task payload)) (exchange_data payload)
