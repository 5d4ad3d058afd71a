-- ===== src/Node/Grpc/Transports.antt =====
-- The two transports treat a task in the same way.
use computecloud_node.Prelude.{ℕ, ◌≡◌, true, false, Option, none, some}
use computecloud_node.Python.{
  Result, ok, raise, Exc, Value, bool, obj, Fields, empty, entry, truthy,
}
use computecloud_node.Exchange.{Response}
use computecloud_node.Node.{Node, Report}
use computecloud_node.Node.Grpc.{PullTaskResponse, assignment_payload, ProtoResult}

-- The body of a pull over HTTP that tells what the response tells.
abbrev pub body_of : PullTaskResponse → Fields
body_of r = entry "has_task" (bool r.has_task) (
    entry "task_id" r.task.task_id
      (entry "job_id" r.task.job_id (entry "payload" (assignment_payload r.task.fields) empty)))

-- The HTTP response with that body.
abbrev pub http_of : ℕ → Option PullTaskResponse → Option Response
http_of code none = none
http_of code (some r) = some (record { status_code = code; body = ok (obj (body_of r)) })

-- The report for what a poll has given.
abbrev pub reported : {A B : Type 0} → (A → B) → Option A → Option B
reported report none = none
reported report (some task) = some (report task)

abbrev pub polled_task : Result (Option Fields) → Option Fields
polled_task (raise exc) = none
polled_task (ok task) = task

-- What HTTP sends as the result, and the fields that gRPC sends.
pub data Carries : Value → Fields → Type 0 where
  dict : (fields : Fields) → Carries (obj fields) fields
  nothing : (v : Value) → truthy v ≡ false → Carries v empty

-- What the two send for one answer: HTTP the report itself, gRPC the message that it makes of it.
pub data SentAlike : Option Report → Option (Result ProtoResult) → Type 0 where
  idle : SentAlike none none
  carried :
      (r : Report) (m : ProtoResult)
      → m.task_id ≡ r.task_id
      → m.success ≡ r.outcome.success
      → m.error ≡ r.outcome.error
      → Carries r.outcome.result m.result
      → SentAlike (some r) (some (ok m))
  unsent :
      (r : Report) (exc : Exc)
      → truthy r.outcome.result ≡ true
      → ((fields : Fields) → r.outcome.result ≡ obj fields → ⊥)
      → SentAlike (some r) (some (raise exc))
