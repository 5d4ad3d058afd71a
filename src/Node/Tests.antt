-- ===== src/Node/Tests.antt =====
-- A node that loses its only slot, and the theorems at concrete inputs.
use computecloud_node.Prelude.{
  ℕ, ◌+◌, ◌≡◌, refl, Bool, true, Option, none, some, List, [], ◌∷◌, leb, arith, ◌&&◌, ltb,
}
use computecloud_node.Python.{ok, str, bool, obj, Fields, empty, entry, truthy}
use computecloud_node.Python.Dict.{lookup}
use computecloud_node.Exchange.{Response}
use computecloud_node.Node.{
  System, Step, polled, ended, stop, next, poll_once, task_end, json_of, pulled_task,
}
use computecloud_node.Node.Capacity.{IsFresh, Accounted, Steps-Accounted, Steps-starved, Steps-pull}

abbrev is_success : ℕ → Bool
is_success status = leb 200 status && ltb status 300

abbrev task : Fields
task = entry "has_task" (bool true) (entry "task_id" (str "t1") empty)

abbrev offer : Option Response
offer = some (record { status_code = 200; body = ok (obj task) })

-- The node with a number of running tasks and of lost reports; it may run one task.
abbrev system : ℕ → List Fields → ℕ → System
system in_flight running lost = record {
  node = record { node_id = str "n"; max_concurrent_tasks = 1; tasks_in_flight = in_flight };
  running = running;
  lost = lost;
}

fresh : IsFresh (system 0 [] 0)
fresh = record { idle = refl; counted = refl; kept = refl }

pulls : poll_once is_success offer (system 0 [] 0).node ≡ (ok (some task), (system 1 [] 0).node)
unfolding poll_once truthy lookup
pulls = refl

takes : Step is_success (system 0 [] 0) (system 1 (task ∷ []) 0)
takes = polled offer (some task) (system 1 [] 0).node pulls

-- The report of the task raises.
loses : Step is_success (system 1 (task ∷ []) 0) (system 1 [] 1)
unfolding task_end
loses = ended none [] [] task refl

Steps-Accounted_example : Accounted (system 1 (task ∷ []) 0)
Steps-Accounted_example =
    Steps-Accounted is_success (system 0 [] 0) (system 1 (task ∷ []) 0) fresh (next takes stop)

Steps-starved_example :
    poll_once is_success offer (system 1 [] 1).node ≡ (ok none, (system 1 [] 1).node)
Steps-starved_example =
    Steps-starved is_success (system 0 [] 0) (system 1 [] 1) (system 1 [] 1) offer fresh
      (next takes (next loses stop)) (omega arith) stop

offered : pulled_task is_success (json_of is_success offer) ≡ ok (some task)
unfolding truthy lookup
offered = refl

Steps-pull_example :
    poll_once is_success offer (system 0 [] 0).node
    ≡ (ok (some task), record (system 0 [] 0).node { tasks_in_flight = 0 + 1 })
Steps-pull_example =
    Steps-pull is_success (system 0 [] 0) (system 0 [] 0) offer task fresh stop refl (omega arith)
      offered
