-- ===== src/CommandLine/Tests.antt =====
-- The command line at concrete data.
use computecloud_node.Prelude.{
  ℕ, ◌+◌, ◌≡◌, refl, String, true, false, none, some, List, [], leb, arith,
}
use computecloud_node.Prelude.Int.{pos, ◌*ℤ◌}
use computecloud_node.Python.{
  Result, ok, raise, value_error, runtime_error, int, str, obj, Fields, empty, entry, truthy, codes,
}
use computecloud_node.Python.Dict.{get, lookup}
use computecloud_node.Config.{NodeConfig}
use computecloud_node.Commands.{Finished, completed, not_found}
use computecloud_node.Commands.Daemon.{
  Daemon, is_docker_available, ensure_docker_running, daemon_loop,
}
use computecloud_node.Commands.Daemon.Ensured.{IsTicking, Ensured, ensure_docker_running-Ensured}
use computecloud_node.Commands.Docker.{
  DockerExecutor, Machine, win32, launch_docker_desktop, find_docker, first_file,
  find_docker_desktop_app,
}
use computecloud_node.Commands.Local as Local
use computecloud_node.Commands.Local.{LocalProcessExecutor}
use computecloud_node.CommandLine.{
  Args, Calls, Resolved, auto, resolve_executor, resolved_execute, auto_execute, rpartition,
  config_of_args, main, maybe_autostart_docker, resolve,
}
use computecloud_node.CommandLine.Isolation.{with_local, with_docker, resolved_execute-auto}

abbrev dotted : List ℕ
dotted = codes "my.pkg.Executor"

splits : rpartition dotted ≡ some (codes "my.pkg", codes "Executor")
unfolding rpartition
splits = refl

unknown : resolve_executor (λ m a. ok tt) true "nothing" ≡ raise value_error
unfolding resolve_executor rpartition
unknown = refl

abbrev done : String → Finished
done out = completed (record { return_code = pos 0; stdout = out; stderr = "" })

abbrev machine : Machine
machine = record {
  platform = win32;
  which = λ s. some "docker.exe";
  path_under = λ s parts. "app.exe";
  is_file = λ s. true;
  is_dir = λ s. false;
}

abbrev host : Local.Host
host = record {
  words = λ s. [];
  which = λ s. none;
  run_shell = λ command timeout. done "shell";
  run_args = λ args timeout. done "args";
}

abbrev other_host : Local.Host
other_host = record {
  words = λ s. [];
  which = λ s. none;
  run_shell = λ command timeout. not_found;
  run_args = λ args timeout. not_found;
}

abbrev calls : Calls
calls = record {
  rt = record { sha256 = λ s. []; display = λ v. "" };
  to_float = λ v. raise value_error;
  local_host = host;
  local_executor = record { default_timeout_seconds = 300; shell = true };
  machine = machine;
  docker_executor = record {
    default_timeout_seconds = 600;
    allowed_image_prefixes = [];
    extra_docker_args = [];
  };
  run_docker = λ args timeout. done "docker";
  imported_executor = λ m a task_id job_id payload. ok payload;
}

abbrev template : Fields
template = entry "image" (str "python:3.12") (entry "command" (str "true") empty)

-- A node without Docker refuses a template job.
refuses :
    resolved_execute calls (auto false) (str "t") (str "j") (obj template) ≡ raise runtime_error
unfolding resolved_execute auto_execute lookup truthy
refuses = refl

resolved_execute-auto_example :
    (truthy (get "image" template) ≡ true
      → (h : Local.Host) (executor : LocalProcessExecutor)
      → resolved_execute
          (with_local h executor calls)
          (auto true)
          (str "t")
          (str "j")
          (obj template)
        ≡ resolved_execute calls (auto true) (str "t") (str "j") (obj template))
    × (truthy (get "image" template) ≡ false
        → (executor : DockerExecutor) (m : Machine) (run : List String → ℕ → Finished)
        → resolved_execute
            (with_docker executor m run calls)
            (auto true)
            (str "t")
            (str "j")
            (obj template)
          ≡ resolved_execute calls (auto true) (str "t") (str "j") (obj template))
resolved_execute-auto_example = resolved_execute-auto calls true (str "t") (str "j") template

-- A clock in milliseconds with a daemon that answers after five seconds.
abbrev daemon : Daemon ℕ
daemon = record {
  info = λ docker now. (leb 5000 now, now);
  popen = λ command now. (true, now);
  now = λ now. now;
  sleep = λ time now. time + now;
}

comes_up : ensure_docker_running machine daemon 100 120000 2000 0 ≡ some (true, 6000)
unfolding ensure_docker_running daemon_loop is_docker_available find_docker launch_docker_desktop
    find_docker_desktop_app first_file
comes_up = refl

daemon-IsTicking : IsTicking daemon
daemon-IsTicking = record {
  info_later = λ docker s. omega arith;
  sleep_later = λ time s. omega arith;
}

ensure_docker_running-Ensured_example :
    Ensured machine daemon (ensure_docker_running machine daemon 121 120 20 0)
ensure_docker_running-Ensured_example =
    ensure_docker_running-Ensured machine daemon 120 20 0 daemon-IsTicking (omega arith)

abbrev args : Args
args = record {
  host = "pool";
  port = pos 50051;
  api_key = none;
  max_tasks = pos 4;
  tls = false;
  http = true;
  api_url = "";
  executor = "auto";
  cpu = none;
  cpu_cores = int (pos 4);
  ram = some (pos 16);
  memory_mb = pos 4096;
  gpu = pos 0;
  gpu_model = none;
  vram = pos 0;
  disk = none;
  username = "";
  password = "";
  tags = [];
  no_docker_autostart = false;
}

abbrev config : NodeConfig
config = config_of_args (int (pos 10)) (int (pos 1)) args

ram_in_mb : config.capabilities.memory_mb ≡ pos 16384
unfolding config_of_args ◌*ℤ◌
ram_in_mb = refl

-- Docker comes up, and the executor `auto` finds it.
abbrev run : NodeConfig → Resolved → ℕ → Result (Unit {0}) × ℕ
run c (auto true) now = (ok tt, now)
run c other now = (raise runtime_error, now)

starts_docker : main machine daemon (λ m a. ok tt) 100 run config args 0 ≡ some (ok 0, 6000)
unfolding main maybe_autostart_docker resolve resolve_executor ensure_docker_running daemon_loop
    is_docker_available find_docker launch_docker_desktop find_docker_desktop_app first_file
starts_docker = refl
