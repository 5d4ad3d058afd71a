-- ===== src/Node/Grpc.antt =====
-- src/computecloud_node/node.py: tasks over gRPC, `_poll_once_grpc`, the part of `_execute_task` that reads
-- a `TaskAssignment`, and the message of `_report_result_grpc`. The stub and protobuf are arguments.
pub mod Transports
mod Tests
use computecloud_node.Prelude.{ℕ, ◌+◌, Bool, true, false, Option, none, some, leb, if◌then◌else◌}
use computecloud_node.Python.{
  Result, ok, raise, other_error, Value, null, bool, str, obj, Fields, empty, entry, truthy,
}
use computecloud_node.Node.{
  Node, TaskExecutor, TaskError, no_error, TaskResult, Report, task_result, no_executor,
}

-- `TaskAssignment`, with `MessageToDict` of its payload; an unset payload has no fields.
pub record TaskAssignment : Type 0 where
  pub task_id : Value
  pub job_id : Value
  pub fields : Fields

-- What `PullTask` answers; `none` is a call that raises.
pub record PullTaskResponse : Type 0 where
  pub has_task : Bool
  pub task : TaskAssignment

-- `if not response.has_task`
abbrev pub assigned : Option PullTaskResponse → Option TaskAssignment
assigned none = none
assigned (some response) = if response.has_task then some response.task else none

abbrev pub taken : Option TaskAssignment → Node → Option TaskAssignment × Node
taken none n = (none, n)
taken (some task) n = (some task, record n { tasks_in_flight = n.tasks_in_flight + 1 })

-- `_poll_once` in gRPC mode: the task that goes to the thread pool, and the node after it.
unfoldable pub poll_once_grpc : Option PullTaskResponse → Node → Option TaskAssignment × Node
poll_once_grpc answer n =
    if leb n.max_concurrent_tasks n.tasks_in_flight then (none, n) else taken (assigned answer) n

-- The payload of an assignment: `None` unless it has a field.
abbrev pub assignment_payload : Fields → Value
assignment_payload empty = null
assignment_payload (entry k v rest) = obj (entry k v rest)

-- The report that `_execute_task` sends for an assignment.
unfoldable pub execute_assignment : Option TaskExecutor → Node → TaskAssignment → Report
execute_assignment none n task = record {
  reporter = n.node_id;
  task_id = task.task_id;
  outcome = record { success = false; result = null; error = no_executor };
}
execute_assignment (some executor) n task = record {
  reporter = n.node_id;
  task_id = task.task_id;
  outcome = task_result (executor task.task_id task.job_id (assignment_payload task.fields));
}

-- `TaskResult` of protobuf, whose `result` holds the fields of a dict.
pub record ProtoResult : Type 0 where
  pub task_id : Value
  pub success : Bool
  pub error : TaskError
  pub result : Fields

-- `if result.result: proto_result.result.update(result.result)`; what is no dict raises.
abbrev pub result_fields : Value → Result Fields
result_fields (obj fields) = ok fields
result_fields v = if truthy v then raise other_error else ok empty

abbrev pub message_of : Report → Result Fields → Result ProtoResult
message_of report (raise exc) = raise exc
message_of report (ok fields) = ok (record {
  task_id = report.task_id;
  success = report.outcome.success;
  error = report.outcome.error;
  result = fields;
})

-- The message of `_report_result_grpc`.
unfoldable pub proto_result : Report → Result ProtoResult
proto_result report = message_of report (result_fields report.outcome.result)
