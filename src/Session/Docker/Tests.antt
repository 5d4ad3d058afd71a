-- ===== src/Session/Docker/Tests.antt =====
-- A session in a container that is found dead by the first round of its main loop.
use computecloud_node.Prelude.{
  ℕ, ◌+◌, ◌≡◌, refl, true, false, none, some, List, [], ◌∷◌, arith, leb, if◌then◌else◌,
}
use computecloud_node.Prelude.Int.{pos}
use computecloud_node.Python.{raise, other_error, str, int, Fields, empty, entry, codes}
use computecloud_node.Python.{to_int, decimal, decimal_ℤ, truthy, to_list}
use computecloud_node.Python.Dict.{lookup}
use computecloud_node.Python.Text.{str_strip, strip_end, join, starts_with}
use computecloud_node.Workbench.Command.{
  docker_options, limits, pool_args, add_hosts, build_startup_parts, ssh_parts, quoted_keys,
  texts_of,
}
use computecloud_node.Workbench.{
  run_docker, run, container_of, wait_for_port, wait_loop, run_startup_parts_docker, parts_loop,
  image_entrypoint,
}
use computecloud_node.Workbench.Start.{
  start_session, requested, assembled, final_of, launched, booted, awaited, post_start,
}
use computecloud_node.Workbench.Probe.{probe_session_service, banner_finding}
use computecloud_node.Python.Runtime.{Runtime}
use computecloud_node.Commands.{completed}
use computecloud_node.Workbench.{Machine, Site}
use computecloud_node.Workbench.Waiting.{IsTicking}
use computecloud_node.Workbench.Kept.{kept, kept_from}
use computecloud_node.Workbench.Probe.{opened}
use computecloud_node.Session.{Place}
use computecloud_node.Session.Running.{Tick, run_session_container}
use computecloud_node.Session.Swept.{Swept}
use computecloud_node.Session.Docker.{
  Service, docker_workbench, run_session_container-docker_workbench,
}

abbrev rt : Runtime
rt = record { sha256 = λ s. []; display = λ v. "22" }

-- The state is the clock, and `docker run` prints the name of a container.
abbrev host : Machine ℕ
host = record {
  docker = "docker";
  run = λ args timeout w.
      (completed (record { return_code = pos 0; stdout = "c1\n"; stderr = "" }), w);
  connect = λ port w. (true, w);
  now = λ w. w;
  sleep = λ time w. w + time;
  token_urlsafe = λ w. ("token", w);
  allocate_host_port = λ w. (4000, w);
  loads = λ s. raise other_error;
  shlex_join = λ words. "";
}

ticking : IsTicking host
ticking = record { connect_later = λ port w. omega arith; sleep_later = λ time w. omega arith }

-- The service answers from a clock of 5000 on.
abbrev service : Service ℕ
service = record {
  connect = λ port w. (opened (if leb 5000 w then some (codes "SSH-2.0") else none), w);
  post_ready = λ handle w. (true, w);
}

abbrev payload : Fields
payload = entry "docker_image" (str "sshd") (
    entry "command" (str "")
      (entry "container_port" (int (pos 22)) (entry "session_type" (str "ssh") empty)))

abbrev place : Place (Site ℕ)
place = record { world = record { world = 0; ran = [] }; reports = []; alerts = []; active = [] }

abbrev dead : Tick
dead = record { stopped = false; should_terminate = some false; alive = false; scan = none }

abbrev lower : List ℕ → List ℕ
lower s = s

nothing_yet : kept place.world.ran ≡ []
unfolding kept_from
nothing_yet = refl

run_session_container-docker_workbench_example :
    Swept
      (λ (s : Site ℕ). kept s.ran)
      "s"
      place
      (run_session_container lower
        (λ s. some 0)
        (some (docker_workbench rt "bm90ZXM=" host service payload))
        "s"
        (dead ∷ [])
        place)
run_session_container-docker_workbench_example =
    run_session_container-docker_workbench rt "bm90ZXM=" host service payload ticking lower
      (λ s. some 0) "s" (dead ∷ []) place nothing_yet

-- The container that died is left behind.
left_behind :
    kept
      (run_session_container lower
        (λ s. some 0)
        (some (docker_workbench rt "bm90ZXM=" host service payload))
        "s"
        (dead ∷ [])
        place).world.ran
    ≡ "c1" ∷ []
unfolding run_session_container docker_workbench start_session requested assembled final_of
    image_entrypoint launched booted awaited post_start docker_options limits pool_args add_hosts
    to_int decimal decimal_ℤ lookup build_startup_parts ssh_parts quoted_keys str_strip strip_end
    texts_of run_docker run container_of wait_for_port wait_loop run_startup_parts_docker parts_loop
    join truthy to_list kept_from probe_session_service banner_finding starts_with
left_behind = refl
