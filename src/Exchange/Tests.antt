-- ===== src/Exchange/Tests.antt =====
-- A server that has the input after a while, and the theorems at concrete inputs.
use computecloud_node.Prelude.{
  ℕ, ◌+◌, ◌≡◌, refl, false, Option, none, some, List, [], ◌∷◌, ltb, arith, if◌then◌else◌,
}
use computecloud_node.Prelude.Int.{ℤ, pos, negsuc}
use computecloud_node.Python.{
  Result, ok, raise, Value, null, int, str, obj, arr, Fields, empty, entry, int_items, to_int,
  other_error, timeout_error,
}
use computecloud_node.Python.Dict.{lookup, get, get_or}
use computecloud_node.Python.Runtime.{Runtime, to_str}
use computecloud_node.Pipeline.{execute, run_layers}
use computecloud_node.Exchange.{
  Net, IsTimed, Response, poll_for_input, poll_loop, poll_round, post_output, post_loop,
}
use computecloud_node.Exchange.Action.{give, run_once, and_then}
use computecloud_node.Exchange.Polling.{Outcome, poll_for_input-Outcome}
use computecloud_node.Exchange.Posting.{Posted, post_output-Posted}
use computecloud_node.Exchange.PipelineWorker.{
  accept_activations, ints_of, activation_url, activations_body, shard_result, exchange_shard,
}
use computecloud_node.Exchange.DataWorker.{is_data_shard_task}
use computecloud_node.Exchange.Routing.{
  Worker, is_new_kind, fields, shard_aware_execute, data_aware_execute,
  data_aware_execute-shard_aware_execute,
}
use computecloud_node.Exchange.Shards.{IsSpec, exchange_shard-run_layers}

abbrev reply : ℕ → Value → Option Response
reply status body = some (record { status_code = status; body = ok body })

-- The state is the clock. The input is ready after 250 milliseconds.
abbrev net : Net
net = record {
  State = ℕ;
  now = λ s. s;
  get = λ url s. (
    if ltb s 250
        then reply 204 null
        else reply 200 (obj (entry "activations" (arr (int_items (pos 1 ∷ pos 2 ∷ []))) empty)),
    s + 1,
  );
  post = λ url body s. (if ltb s 150 then none else reply 201 null, s + 1);
  sleep = λ d s. d + s;
}

net-IsTimed : IsTimed net
net-IsTimed = record { get_later = λ url s. omega arith; sleep_later = λ d s. omega arith }

polls : poll_for_input net accept_activations "url" 200 1000 0 ≡ some (ok (pos 1 ∷ pos 2 ∷ []), 403)
unfolding poll_for_input poll_loop poll_round accept_activations ints_of to_int lookup
polls = refl

polls_in_vain :
    poll_for_input net accept_activations "url" 200 100 0 ≡ some (raise timeout_error, 201)
unfolding poll_for_input poll_loop poll_round accept_activations ints_of to_int lookup
polls_in_vain = refl

posts : post_output net "url" null 0 ≡ (ok tt, 203)
unfolding post_output post_loop
posts = refl

poll_for_input-Outcome_example :
    (result : Result (List ℤ)) × (s' : ℕ) × (poll_for_input net accept_activations "url" 200 1000 0
      ≡ some (result, s'))
    × Outcome net accept_activations "url" (0 + 1000) result s'
poll_for_input-Outcome_example =
    poll_for_input-Outcome net accept_activations "url" net-IsTimed 200 1000 (omega arith) 0

post_output-Posted_example :
    Posted net "url" null 3 (post_output net "url" null 0).0 0 (post_output net "url" null 0).1
post_output-Posted_example = post_output-Posted net "url" null 0

abbrev rt : Runtime
rt = record { sha256 = λ s. 1 ∷ 2 ∷ 3 ∷ []; display = λ v. "" }

abbrev spec : Fields
spec =
    entry "model_name" (str "toy")
      (entry "start_layer" (int (pos 0)) (entry "end_layer" (int (pos 2)) empty))

spec-IsSpec : IsSpec "toy" 0 2 spec
unfolding lookup
spec-IsSpec = record {
  model = refl;
  named = refl;
  start = refl;
  stop = refl;
  no_index = refl;
  no_count = refl;
  ordered = omega arith;
}

exchange_shard-run_layers_example :
    exchange_shard rt net
      (execute rt)
      200
      60000
      (record { run_id = str "run"; shard_index = pos 0; shard_count = pos 2; shard_spec = spec })
    ≡ (let url = activation_url (to_str rt (str "run")) (pos 0) in
        and_then (poll_for_input net accept_activations url 200 60000) (λ xs.
          and_then
            (run_once
              (post_output net url (activations_body (int_items (run_layers rt "toy" 0 2 xs)))))
            (λ posted.
              give (ok (shard_result (int_items (run_layers rt "toy" 0 2 xs)) (pos 0) (pos 2))))))
exchange_shard-run_layers_example =
    exchange_shard-run_layers rt net 200 60000 "toy" 2 0 0 2 spec (str "run") spec-IsSpec

abbrev task : Value
task = obj (entry "kind" (str "pipeline_shard") (entry "shard_index" (int (pos 3)) empty))

abbrev worker : Worker ℕ
worker payload = give (ok (get "shard_index" payload))

abbrev refuse : Worker ℕ
refuse payload = give (raise other_error)

task_is_old : is_new_kind task ≡ false
unfolding is_data_shard_task lookup
task_is_old = refl

task_numbered : to_int (get_or "shard_index" (int (negsuc 0)) (fields task)) ≡ ok (pos 3)
unfolding to_int lookup
task_numbered = refl

data_aware_execute-shard_aware_execute_example :
    data_aware_execute none refuse none (some worker) task ≡ shard_aware_execute none worker task
data_aware_execute-shard_aware_execute_example =
    data_aware_execute-shard_aware_execute none worker refuse none task (pos 3) task_is_old
      (λ shard. task_numbered)
