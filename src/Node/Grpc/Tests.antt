-- ===== src/Node/Grpc/Tests.antt =====
-- One task over the two transports.
use computecloud_node.Prelude.{◌≡◌, refl, true}
use computecloud_node.Prelude.Int.{pos}
use computecloud_node.Python.{ok, raise, other_error, Value, null, int, str, obj, empty, entry}
use computecloud_node.Node.{Node, TaskExecutor, no_error}
use computecloud_node.Node.Grpc.{PullTaskResponse, proto_result}

abbrev node : Node
node = record { node_id = str "n"; max_concurrent_tasks = 2; tasks_in_flight = 1 }

abbrev response : PullTaskResponse
response = record {
  has_task = true;
  task = record {
    task_id = str "t";
    job_id = str "j";
    fields = entry "command" (str "true") empty;
  };
}

abbrev echo : TaskExecutor
echo task_id job_id payload = ok (obj (entry "echo" payload empty))

-- A result that is no dict does not go into the message.
refuses :
    proto_result (record {
      reporter = str "n";
      task_id = str "t";
      outcome = record { success = true; result = int (pos 1); error = no_error };
    })
    ≡ raise other_error
unfolding proto_result computecloud_node.Python.truthy
refuses = refl
