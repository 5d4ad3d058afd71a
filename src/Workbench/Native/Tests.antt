-- ===== src/Workbench/Native/Tests.antt =====
-- A native session on a small machine.
use computecloud_node.Prelude.{
  ℕ, ◌+◌, ◌≡◌, refl, true, false, Option, none, some, List, [], ◌∷◌, leb, arith,
}
use computecloud_node.Prelude.Int.{pos}
use computecloud_node.Python.{Result, ok, raise, other_error, str, Fields, empty, entry, truthy}
use computecloud_node.Python.Dict.{lookup}
use computecloud_node.Python.Runtime.{Runtime}
use computecloud_node.Commands.{completed}
use computecloud_node.Workbench.{Machine, wait_for_port, wait_loop}
use computecloud_node.Workbench.Waiting.{IsTicking}
use computecloud_node.Workbench.Native.{
  NativeSession, NativeMachine, NativeSite, Signal, terminated, killed, start_native, prepared,
  prepare, inject_ssh_keys, environment, start_process, start_custom, process_started,
  awaited_native, kill_process, terminate_proc, kill_proc,
}
use computecloud_node.Workbench.Native.Processes.{Launched, start_native-Launched}

abbrev rt : Runtime
rt = record { sha256 = λ s. []; display = λ v. "" }

-- The port opens after two minutes: too late.
abbrev machine : Machine ℕ
machine = record {
  docker = "docker";
  run = λ args timeout w. (completed (record { return_code = pos 0; stdout = ""; stderr = "" }), w);
  connect = λ port w. (leb 120000 w, w);
  now = λ w. w;
  sleep = λ time w. w + time;
  token_urlsafe = λ w. ("token", w);
  allocate_host_port = λ w. (4000, w);
  loads = λ s. raise other_error;
  shlex_join = λ words. "";
}

abbrev host : NativeMachine ℕ
host = record {
  machine = machine;
  which = λ name. none;
  executable = "python";
  ws_dir = "/workspace";
  environ = empty;
  base_url = none;
  popen_shell = λ command env w. (some 77, w);
  popen = λ args env w. (some 78, w);
  os_kill = λ pid signal w. (true, w);
  terminate = λ pid w. (true, w);
  kill = λ pid w. (false, w);
  makedirs = λ path w. (ok tt, w);
  local_path = λ dir path. path;
  dirname = λ path. path;
  http_get = λ url token w. (none, w);
  write_file = λ path content w. w;
  append_keys = λ keys w. w;
  welcome = λ dir w. w;
}

ticking : IsTicking machine
ticking = record { connect_later = λ port w. omega arith; sleep_later = λ time w. omega arith }

abbrev custom : Fields
custom = entry "session_type" (str "custom") (entry "command" (str "sleep 9") empty)

abbrev fresh : NativeSite ℕ
fresh = record { site = record { world = 0; ran = [] }; started = []; signals = [] }

-- The same machine after two minutes.
abbrev late : NativeSite ℕ
late = record { site = record { world = 120000; ran = [] }; started = []; signals = [] }

abbrev processes : Option (Result NativeSession × NativeSite ℕ) → List ℕ × List Signal
processes none = ([], [])
processes (some (result, s)) = (s.started, s.signals)

given_up : processes (start_native rt host custom fresh) ≡ (77 ∷ [], terminated 77 true ∷ [])
unfolding start_native prepared prepare inject_ssh_keys environment start_process start_custom
    process_started awaited_native kill_process terminate_proc kill_proc wait_for_port wait_loop
    lookup truthy
given_up = refl

-- The same, where the process cannot be told to end, nor be killed.
abbrev deaf : NativeMachine ℕ
deaf = record host { terminate = λ pid w. (false, w) }

given_up_deaf :
    processes (start_native rt deaf custom fresh)
    ≡ (77 ∷ [], terminated 77 false ∷ killed 77 false ∷ [])
unfolding start_native prepared prepare inject_ssh_keys environment start_process start_custom
    process_started awaited_native kill_process terminate_proc kill_proc wait_for_port wait_loop
    lookup truthy
given_up_deaf = refl

opened : processes (start_native rt host custom late) ≡ (77 ∷ [], [])
unfolding start_native prepared prepare inject_ssh_keys environment start_process start_custom
    process_started awaited_native kill_process terminate_proc kill_proc wait_for_port wait_loop
    lookup truthy
opened = refl

start_native-Launched_example : Launched rt host [] [] (start_native rt host custom fresh)
start_native-Launched_example = start_native-Launched rt host ticking custom fresh
