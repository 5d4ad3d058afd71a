-- ===== src/Workbench/Tests.antt =====
-- A machine whose state is the clock, and whose `docker run` prints the name of a container.
use computecloud_node.Prelude.{
  ℕ, ◌+◌, String, ◌≡◌, refl, Option, none, some, List, [], ◌∷◌, ◌++◌, map, arith, leb, true,
}
use computecloud_node.Prelude.Int.{pos}
use computecloud_node.Python.{
  to_int, to_list, truthy, decimal, decimal_ℤ, Result, ok, raise, other_error, str, int, Fields,
  empty, entry, arr, cons, nil,
}
use computecloud_node.Python.Runtime.{Runtime}
use computecloud_node.Commands.{completed}
use computecloud_node.Python.Dict.{lookup}
use computecloud_node.Python.Text.{str_strip, strip_end, join}
use computecloud_node.Workbench.Sandbox.{IsSandboxed, docker_options-IsSandboxed}
use computecloud_node.Workbench.Command.{
  ssh_security_args, add_hosts, known_mining_pool_domains, docker_options, limits, pool_args,
  build_startup_parts, ssh_parts, quoted_keys, texts_of, keys_part,
}
use computecloud_node.Workbench.{
  run_docker, run, container_of, wait_loop, run_startup_parts_docker, parts_loop, image_entrypoint,
  DockerSession, Machine, Site, wait_for_port,
}
use computecloud_node.Workbench.Start.{
  requested, assembled, final_of, launched, booted, awaited, post_start, start_session,
}
use computecloud_node.Workbench.Service.{container_logs, logs_of, last_chars}
use computecloud_node.Workbench.Waiting.{IsTicking}
use computecloud_node.Workbench.Kept.{Keeps, start_session-Keeps, kept_from}

abbrev rt : Runtime
rt = record { sha256 = λ s. []; display = λ v. "8888" }

-- The port opens after 700 milliseconds.
abbrev host : Machine ℕ
host = record {
  docker = "docker";
  run = λ args timeout w.
      (completed (record { return_code = pos 0; stdout = "c1\n"; stderr = "" }), w);
  connect = λ port w. (leb 700 w, w);
  now = λ w. w;
  sleep = λ time w. w + time;
  token_urlsafe = λ w. ("token", w);
  allocate_host_port = λ w. (4000, w);
  loads = λ s. raise other_error;
  shlex_join = λ words. "";
}

ticking : IsTicking host
ticking = record { connect_later = λ port w. omega arith; sleep_later = λ time w. omega arith }

-- A session over SSH with a key.
abbrev session_data : Fields
session_data = entry "docker_image" (str "sshd") (
    entry "command" (str "") (
      entry "container_port" (int (pos 22)) (
        entry "session_type" (str "ssh")
          (entry "ssh_public_keys" (arr (cons (str "key ") nil)) empty))))

abbrev site : Site ℕ
site = record { world = 0; ran = [] }

start_session-Keeps_example :
    Keeps rt "bm90ZXM=" host (start_session rt "bm90ZXM=" host session_data site)
start_session-Keeps_example =
    start_session-Keeps rt "bm90ZXM=" host ticking session_data site (unfold kept_from in refl)

abbrev options : List String
options =
    "-d" ∷ "-p" ∷ "4000:8888" ∷ "--memory" ∷ "4096m" ∷ "--cpus" ∷ "8888" ∷ "--pids-limit" ∷ "512"
      ∷ "--ulimit" ∷ "nofile=4096:8192" ∷ "--tmpfs" ∷ "/tmp:rw,size=256m" ∷ ssh_security_args
    ++ add_hosts known_mining_pool_domains

session_options : docker_options rt 4000 (int (pos 22)) session_data ≡ ok options
unfolding docker_options limits pool_args add_hosts to_int decimal decimal_ℤ lookup truthy
session_options = refl

docker_options-IsSandboxed_example : IsSandboxed true options
unfolding lookup
docker_options-IsSandboxed_example =
    docker_options-IsSandboxed rt 4000 (int (pos 22)) session_data options session_options

-- The command of the session, and the addition of its key after the start.
abbrev started : Option (Result DockerSession × Site ℕ)
started = start_session rt "bm90ZXM=" host session_data site

abbrev processes : Option (Result DockerSession × Site ℕ) → List (List String)
processes none = []
processes (some (result, s)) = map (λ event. event.0) s.ran

session_processes :
    processes started
    ≡ ("docker" ∷ "run" ∷ options ++ "sshd" ∷ [])
      ∷ ("docker" ∷ "exec" ∷ "c1" ∷ "/bin/sh" ∷ "-c" ∷ keys_part ("'key'" ∷ []) ∷ [])
      ∷ []
unfolding start_session requested assembled final_of image_entrypoint launched booted awaited
    post_start docker_options limits pool_args add_hosts to_int decimal decimal_ℤ lookup
    build_startup_parts ssh_parts quoted_keys str_strip strip_end texts_of run_docker run
    container_of wait_for_port wait_loop run_startup_parts_docker parts_loop join truthy to_list
session_processes = refl

abbrev session : DockerSession
session = record { host_port = 4000; auth_token = "token"; container_id = "c1" }

session_logs : (container_logs host session "40" site).0 ≡ "c1"
unfolding container_logs logs_of last_chars run str_strip strip_end
session_logs = refl
