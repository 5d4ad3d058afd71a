-- ===== src/CommandLine.antt =====
-- src/computecloud_node/__main__.py: `_resolve_executor`, `_maybe_autostart_docker` and `main`, from
-- the parsed arguments on. What `argparse` makes of the command line and of the environment is `Args`.
pub mod Isolation
pub mod Paths
mod Tests
use computecloud_node.Prelude.{
  ℕ, suc, ◌*◌, String, Bool, true, false, Option, none, some, List, [], ◌∷◌, ◌++◌, str_eq, not,
  ◌&&◌, ◌||◌, ◌==◌, if◌then◌else◌,
}
use computecloud_node.Prelude.Int.{ℤ, pos, ◌*ℤ◌}
use computecloud_node.Python.{
  Result, ok, raise, ◌>>=◌, value_error, runtime_error, other_error, Value, null, bool, str, obj,
  Fields, empty, entry, truthy, codes,
}
use computecloud_node.Python.Dict.{get}
use computecloud_node.Python.Runtime.{Runtime}
use computecloud_node.Config.{NodeCapabilities, NodeConfig}
use computecloud_node.Commands.{Finished}
use computecloud_node.Commands.Daemon.{Daemon, is_docker_available, ensure_docker_running}
use computecloud_node.Commands.Docker as Docker
use computecloud_node.Commands.Docker.{DockerExecutor, Machine}
use computecloud_node.Commands.Local as Local
use computecloud_node.Commands.Local.{Host, LocalProcessExecutor}
use computecloud_node.Node.{TaskExecutor}

-- What `_resolve_executor` gives. `auto` holds whether Docker was found, and `imported` the two parts of
-- a dotted path.
pub data Resolved : Type 0 where
  echo print local docker : Resolved
  auto : Bool → Resolved
  imported : List ℕ → List ℕ → Resolved

abbrev pub after_char : ℕ → List ℕ → Option (List ℕ × List ℕ) → Option (List ℕ × List ℕ)
after_char c name (some (module_path, attr)) = some (c ∷ module_path, attr)
after_char c name none = if c == b'.' then some ([], name) else none

-- `name.rpartition(".")`, where `none` is a name without a dot.
unfoldable pub rpartition : List ℕ → Option (List ℕ × List ℕ)
rpartition [] = none
rpartition (c ∷ name) = after_char c name (rpartition name)

-- The class at a dotted path; `can_import` says whether the import and the call of the class succeed.
abbrev pub import_class :
    (List ℕ → List ℕ → Result (Unit {0})) → Option (List ℕ × List ℕ) → Result Resolved
import_class can_import none = raise value_error
import_class can_import (some (module_path, attr)) =
    can_import module_path attr >>= (λ done. ok (imported module_path attr))

-- The executors that are built in; `available` is `DockerExecutor.is_docker_available()`.
unfoldable pub resolve_executor :
    (List ℕ → List ℕ → Result (Unit {0})) → Bool → String → Result Resolved
unfolding rpartition
resolve_executor can_import available name =
    if str_eq name "echo"
    then ok echo
    else if str_eq name "local"
    then ok local
    else if str_eq name "docker"
    then (if available then ok docker else raise runtime_error)
    else if str_eq name "auto"
    then ok (auto available)
    else if str_eq name "print"
    then ok print
    else import_class can_import (rpartition (codes name))

-- What the executors of a node call.
pub record Calls : Type 0 where
  pub rt : Runtime
  pub to_float : Value → Result ℕ
  pub local_host : Host
  pub local_executor : LocalProcessExecutor
  pub machine : Machine
  pub docker_executor : DockerExecutor
  pub run_docker : List String → ℕ → Finished
  pub imported_executor : List ℕ → List ℕ → TaskExecutor

-- A payload as a dict or `None`; another value raises where it is used as a dict.
abbrev pub with_dict : (Option Fields → Result Value) → Value → Result Value
with_dict run null = run none
with_dict run (obj payload) = run (some payload)
with_dict run other = raise other_error

module _ (calls : Calls) where
  abbrev pub run_local : Option Fields → Result Value
  run_local = Local.execute calls.rt calls.local_host calls.to_float calls.local_executor

  abbrev pub run_template : Option Fields → Result Value
  run_template =
      Docker.execute calls.rt calls.docker_executor calls.machine calls.to_float calls.run_docker

  -- `_Auto.execute`
  unfoldable pub auto_execute : Bool → Option Fields → Result Value
  auto_execute has_docker none = run_local none
  auto_execute has_docker (some payload) =
      if truthy (get "image" payload)
      then if has_docker then run_template (some payload) else raise runtime_error
      else run_local (some payload)

  -- The `execute` of an executor.
  unfoldable pub resolved_execute : Resolved → TaskExecutor
  unfolding auto_execute
  resolved_execute echo task_id job_id payload = ok (obj (entry "echo" payload empty))
  resolved_execute print task_id job_id payload = ok (obj (entry "received" (bool true) empty))
  resolved_execute local task_id job_id payload = with_dict run_local payload
  resolved_execute docker task_id job_id payload = with_dict run_template payload
  resolved_execute (auto has_docker) task_id job_id payload =
      with_dict (auto_execute has_docker) payload
  resolved_execute (imported module_path attr) task_id job_id payload =
      calls.imported_executor module_path attr task_id job_id payload

-- `executor_name not in ("docker", "auto")`
abbrev pub uses_docker : String → Bool
uses_docker name = str_eq name "docker" || str_eq name "auto"

-- The arguments, as `argparse` gives them.
pub record Args : Type 0 where
  pub host : String
  pub port : ℤ
  pub api_key : Option String
  pub max_tasks : ℤ
  pub tls : Bool
  pub http : Bool
  pub api_url : String
  pub executor : String
  pub cpu : Option Value
  pub cpu_cores : Value
  pub ram : Option ℤ
  pub memory_mb : ℤ
  pub gpu : ℤ
  pub gpu_model : Option String
  pub vram : ℤ
  pub disk : Option ℤ
  pub username : String
  pub password : String
  pub tags : List String
  pub no_docker_autostart : Bool

abbrev pub or_value : Option Value → Value → Value
or_value none default = default
or_value (some v) default = v

-- An amount in GB as MB, or the default.
abbrev pub mb_or : Option ℤ → ℤ → ℤ
mb_or none default = default
mb_or (some gb) default = gb *ℤ pos 1024

-- The configuration of `main`, before `__post_init__`.
unfoldable pub config_of_args : Value → Value → Args → NodeConfig
unfolding ◌*ℤ◌
config_of_args heartbeat_interval poll_interval args = record {
  server_host = args.host;
  server_port = args.port;
  api_key = args.api_key;
  node_id = none;
  endpoint = none;
  tags = args.tags;
  capabilities = record {
    cpu_cores = or_value args.cpu args.cpu_cores;
    memory_mb = mb_or args.ram args.memory_mb;
    gpu_count = args.gpu;
    disk_mb = mb_or args.disk (pos 8192);
    gpu_model = args.gpu_model;
    vram_mb = args.vram;
    llm_capable = false;
  };
  max_concurrent_tasks = args.max_tasks;
  heartbeat_interval_seconds = heartbeat_interval;
  poll_interval_seconds = poll_interval;
  use_tls = args.tls;
  use_http = args.http;
  http_base_url = args.api_url;
  username = args.username;
  password = args.password;
  workbench_executor = "auto";
}

module _ {S : Type 0} (machine : Machine) (daemon : Daemon S)
    (can_import : List ℕ → List ℕ → Result (Unit {0})) where
  -- The probe of `_maybe_autostart_docker`, with the start of the daemon.
  abbrev pub start_unless : ℕ → Bool × S → Option S
  start_unless fuel (true, s) = some s
  start_unless fuel (false, s) = elim (ensure_docker_running machine daemon fuel 120000 2000 s) [
    | none ↦ none
    | some (found, s') ↦ some s'
  ]

  -- `_maybe_autostart_docker`; `none` is a wait that needs more fuel.
  unfoldable pub maybe_autostart_docker : ℕ → String → Bool → S → Option S
  unfolding ensure_docker_running is_docker_available
  maybe_autostart_docker fuel executor_name enabled s =
      if enabled && uses_docker executor_name
      then start_unless fuel (is_docker_available machine daemon s)
      else some s

  abbrev pub resolved_after : String → Bool × S → Result Resolved × S
  resolved_after name (available, s) = (resolve_executor can_import available name, s)

  -- The call of `_resolve_executor`, with its probe.
  unfoldable pub resolve : String → S → Result Resolved × S
  unfolding resolve_executor is_docker_available
  resolve name s =
      if uses_docker name
      then resolved_after name (is_docker_available machine daemon s)
      else (resolve_executor can_import false name, s)

  -- `node.run()` in its `try`: the exit code.
  abbrev pub exit_code : Result (Unit {0}) → ℕ
  exit_code (ok done) = 0
  exit_code (raise exc) = 1

  abbrev pub run_node : (Resolved → S → Result (Unit {0}) × S) → Result Resolved × S → Result ℕ × S
  run_node run (raise exc, s) = (raise exc, s)
  run_node run (ok executor, s) = let (result, s') = run executor s in (ok (exit_code result), s')

  -- `main`, from the configuration on; `run` is the run of the node with its executor.
  unfoldable pub main :
      ℕ
      → (NodeConfig → Resolved → S → Result (Unit {0}) × S)
      → NodeConfig
      → Args
      → S
      → Option (Result ℕ × S)
  unfolding maybe_autostart_docker resolve
  main fuel run config args s =
      elim (maybe_autostart_docker fuel args.executor (not args.no_docker_autostart) s) [
        | none ↦ none
        | some s' ↦ some (run_node (run config) (resolve args.executor s'))
      ]
