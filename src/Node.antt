-- ===== src/Node.antt =====
-- src/computecloud_node/node.py: how the node pulls tasks over HTTP, runs them and reports their
-- outcome. A task that runs in the thread pool is an entry of `running`; a step of `System` is a
-- call of `_poll_once`, or the end of a running task's `_execute_task`. Calls of the server's HTTP
-- interface are arguments: `none` where the client raises. The log is not modelled.
pub mod Capacity
pub mod Grpc
pub mod Heartbeat
pub mod Running
pub mod Transport
mod Sample
mod Tests
use computecloud_node.Prelude.{
  ℕ, ◌+◌, ◌-◌, String, ◌≡◌, Bool, true, false, Option, none, some, List, [], ◌∷◌, ◌++◌, leb, not,
  str_eq, if◌then◌else◌,
}
use computecloud_node.Python.{
  Exc, Result, ok, raise, other_error, runtime_error, ◌>>=◌, Value, null, bool, int, float, str,
  arr, obj, Fields, entry, empty, truthy,
}
use computecloud_node.Python.Dict.{lookup, get, get_or, get_item}
use computecloud_node.Exchange.{Response}

-- The fields of `ComputeNode` and of its configuration that these methods use.
pub record Node : Type 0 where
  pub node_id : Value
  pub max_concurrent_tasks : ℕ
  pub tasks_in_flight : ℕ

-- What `TaskExecutor.execute` gives for a payload, with the identifiers of the task and its job.
abbrev pub TaskExecutor : Type 0
TaskExecutor = Value → Value → Value → Result Value

pub data TaskError : Type 0 where
  no_error no_executor : TaskError
  failed : Exc → TaskError

-- `TaskResult`, without the execution time.
pub record TaskResult : Type 0 where
  pub success : Bool
  pub result : Value
  pub error : TaskError

-- The body that `_report_result_http` posts.
pub record Report : Type 0 where
  pub reporter : Value
  pub task_id : Value
  pub outcome : TaskResult

-- The outcome of a call of an executor, as `_execute_task` records it.
abbrev pub task_result : Result Value → TaskResult
task_result (ok outcome) = record { success = true; result = outcome; error = no_error }
task_result (raise exc) = record { success = false; result = null; error = failed exc }

-- The report that `_execute_task` sends for a task.
unfoldable pub execute_task : Option TaskExecutor → Node → Fields → Report
execute_task none n task = record {
  reporter = n.node_id;
  task_id = get_or "task_id" (str "") task;
  outcome = record { success = false; result = null; error = no_executor };
}
execute_task (some executor) n task =
    let task_id = get_or "task_id" (str "") task in
    record {
      reporter = n.node_id;
      task_id = task_id;
      outcome = task_result (executor task_id (get_or "job_id" (str "") task) (get "payload" task));
    }

-- The reply to `_register_http`, as `_RegResp`.
pub record RegResp : Type 0 where
  pub accepted : Value
  pub node_id : Value
  pub message : Value

abbrev pub registered : Node → RegResp → Result Node
registered n response =
    if truthy response.accepted
    then ok (if truthy response.node_id then record n { node_id = response.node_id } else n)
    else raise runtime_error

-- `is_success` is the test of `Response.raise_for_status`.
module _ (is_success : ℕ → Bool) where
  -- `resp.raise_for_status(); data = resp.json()`
  abbrev pub json_of : Option Response → Result Value
  json_of none = raise other_error
  json_of (some r) = if is_success r.status_code then r.body else raise other_error

  -- What follows the request in `_poll_once_http`: the task to submit, if there is one. A body that
  -- is no dict raises outside the `try`.
  abbrev pub pulled_task : Result Value → Result (Option Fields)
  pulled_task (raise exc) = ok none
  pulled_task (ok (obj body)) = ok (if truthy (get "has_task" body) then some body else none)
  pulled_task (ok _) = raise other_error

  -- `_poll_once` in HTTP mode: the task that goes to the thread pool, and the node after it.
  unfoldable pub poll_once : Option Response → Node → Result (Option Fields) × Node
  poll_once answer n =
      if leb n.max_concurrent_tasks n.tasks_in_flight
      then (ok none, n)
      else elim (pulled_task (json_of answer)) [
        | raise exc ↦ (raise exc, n)
        | ok none ↦ (ok none, n)
        | ok (some task) ↦ (ok (some task), record n { tasks_in_flight = n.tasks_in_flight + 1 })
      ]

  -- `_report_result_http`
  abbrev pub report_result : Option Response → Bool
  report_result none = false
  report_result (some r) = is_success r.status_code

  -- The end of `_execute_task`, after the report is sent: where the report raises, the task's thread
  -- ends before the counter is set back.
  unfoldable pub task_end : Option Response → Node → Node
  task_end answer n =
      if report_result answer then record n { tasks_in_flight = n.tasks_in_flight - 1 } else n

  -- `_register_http`, from the response on.
  unfoldable pub register_http : Option Response → Result RegResp
  register_http answer = do
    body ← json_of answer
    elim body [
      | obj d ↦ do
        accepted ← get_item "accepted" d
        ok (record {
          accepted = accepted;
          node_id = get_or "node_id" (str "") d;
          message = get_or "message" (str "") d;
        })
      | other ↦ raise other_error
    ]

  -- The end of `_connect_and_register`: a rejection raises, and a node id that comes is taken over.
  unfoldable pub connect_and_register : Option Response → Node → Result Node
  unfolding register_http
  connect_and_register answer n = register_http answer >>= registered n

-- The node with its thread pool. `lost` counts the tasks whose report has raised.
pub record System : Type 0 where
  pub node : Node
  pub running : List Fields
  pub lost : ℕ

abbrev pub submitted : Option Fields → List Fields
submitted none = []
submitted (some task) = task ∷ []

module _ (is_success : ℕ → Bool) where
  -- A poll, or the end of one of the running tasks.
  pub data Step : System → System → Type 0 where
    polled :
        {s : System} (answer : Option Response) (task : Option Fields) (n : Node)
        → poll_once is_success answer s.node ≡ (ok task, n)
        → Step s (record { node = n; running = s.running ++ submitted task; lost = s.lost })
    ended :
        {s : System} (answer : Option Response) (before after : List Fields) (task : Fields)
        → s.running ≡ before ++ task ∷ after
        → Step s (record {
          node = task_end is_success answer s.node;
          running = before ++ after;
          lost = if report_result is_success answer then s.lost else s.lost + 1;
        })

  pub data Steps : System → System → Type 0 where
    stop : {s : System} → Steps s s
    next : {s s' s'' : System} → Step s s' → Steps s' s'' → Steps s s''
