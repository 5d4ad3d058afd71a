-- ===== src/Workbench/Probe.antt =====
-- src/computecloud_node/workbench_executor.py: `_docker_available` and `probe_session_service`. The sockets
-- and processes are a parameter.
use computecloud_node.Prelude.{
  ℕ, String, Bool, false, Option, none, some, List, [], ◌∷◌, str_eq, not, if◌then◌else◌,
}
use computecloud_node.Commands.{Finished}
use computecloud_node.Commands.Docker.{Machine, win32, darwin, linux, installed_docker, non_empty}
use computecloud_node.Python.{codes}
use computecloud_node.Python.Text.{starts_with}
use computecloud_node.Workbench.{succeeded}

-- How a probe meets the service: the connection fails, or it opens; after it the read fails, or it gives
-- the first bytes that come.
pub data Connection : Type 0 where
  refused : Connection
  opened : Option (List ℕ) → Connection

-- What a probe finds; `healthy` is `None`.
pub data Finding : Type 0 where
  healthy no_banner unexpected_banner connect_failed : Finding

-- The bytes of an SSH server.
unfoldable pub banner_finding : List ℕ → Finding
banner_finding banner =
    if starts_with banner (codes "SSH-")
    then healthy
    else elim banner [ [] ↦ no_banner | c ∷ rest ↦ unexpected_banner ]

-- `probe_session_service`
unfoldable pub probe_session_service : Connection → String → Finding
unfolding banner_finding
probe_session_service refused session_type = connect_failed
probe_session_service (opened received) session_type =
    if not (str_eq session_type "ssh")
    then healthy
    else elim received [ none ↦ connect_failed | some banner ↦ banner_finding banner ]

-- The path of Docker: that of `which`, or on Windows that of Docker Desktop.
abbrev pub docker_path : Machine → Option String → Option String
docker_path host (some path) = some path
docker_path host none = elim host.platform [
  | win32 ↦ installed_docker host
  | darwin ↦ none
  | linux ↦ none
]

abbrev pub responds : (List String → ℕ → Finished) → Option String → Bool
responds run none = false
responds run (some path) =
    succeeded (run (path ∷ "info" ∷ "--format" ∷ "{{.ServerVersion}}" ∷ []) 10000)

-- `_docker_available`
unfoldable pub docker_available : Machine → (List String → ℕ → Finished) → Bool
docker_available host run = responds run (docker_path host (non_empty (host.which "docker")))
