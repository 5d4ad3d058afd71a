-- ===== src/CommandLine/Isolation.antt =====
-- What the routing of the executors keeps apart.
use computecloud_node.Prelude.{ℕ, ◌≡◌, Bool, true, false, List, String}
use computecloud_node.Python.{Value, obj, Fields, truthy}
use computecloud_node.Python.Dict.{get}
use computecloud_node.Commands.{Finished}
use computecloud_node.Commands.Docker.{DockerExecutor, Machine}
use computecloud_node.Commands.Local.{Host, LocalProcessExecutor}
use computecloud_node.CommandLine.{Calls, auto, auto_execute, resolved_execute}

-- The same executors with another local host, and with other calls of Docker.
abbrev pub with_local : Host → LocalProcessExecutor → Calls → Calls
with_local host executor calls = record calls { local_host = host; local_executor = executor }

abbrev pub with_docker : DockerExecutor → Machine → (List String → ℕ → Finished) → Calls → Calls
with_docker executor machine run calls = record calls {
  docker_executor = executor;
  machine = machine;
  run_docker = run;
}

-- The executor `auto` keeps its two ways apart. What it gives for a payload with an image does not
-- depend on the local host, with Docker or without it: no such job runs in the node's shell. What it
-- gives for a payload without one does not depend on Docker.
pub resolved_execute-auto :
    (calls : Calls) (has_docker : Bool) (task_id job_id : Value) (payload : Fields)
    → (truthy (get "image" payload) ≡ true
        → (host : Host) (executor : LocalProcessExecutor)
        → resolved_execute
            (with_local host executor calls)
            (auto has_docker)
            task_id
            job_id
            (obj payload)
          ≡ resolved_execute calls (auto has_docker) task_id job_id (obj payload))
      × (truthy (get "image" payload) ≡ false
          → (executor : DockerExecutor) (machine : Machine) (run : List String → ℕ → Finished)
          → resolved_execute
              (with_docker executor machine run calls)
              (auto has_docker)
              task_id
              job_id
              (obj payload)
            ≡ resolved_execute calls (auto has_docker) task_id job_id (obj payload))
unfolding resolved_execute auto_execute
resolved_execute-auto calls has_docker task_id job_id payload =
    (λ image host executor. rw image, λ plain executor machine run. rw plain)
