-- ===== src/Commands/Tests.antt =====
-- Commands on a machine that answers at once, and the theorems at concrete inputs.
use computecloud_node.Prelude.{ℕ, ◌≡◌, refl, true, false, none, some, [], ◌∷◌, ◌++◌}
use computecloud_node.Prelude.Int.{pos}
use computecloud_node.Python.{
  Result, ok, raise, value_error, Value, str, int, Fields, empty, entry, truthy, to_int, decimal_ℤ,
  decimal,
}
use computecloud_node.Python.Dict.{lookup}
use computecloud_node.Python.Text.{starts_with}
use computecloud_node.Python.Runtime.{Runtime}
use computecloud_node.Commands.{
  CommandResult, completed, extract_command, first_command, command_text, extract_timeout,
}
use computecloud_node.Commands.Docker as Docker
use computecloud_node.Commands.Docker.{
  DockerExecutor, Machine, linux, build_docker_command, find_docker, docker_report,
}
use computecloud_node.Commands.Local.{Host, LocalProcessExecutor}
use computecloud_node.Commands.Hardening.{Ran, execute-Ran}

abbrev rt : Runtime
rt = record { sha256 = λ s. []; display = λ v. "2.0" }

abbrev to_float : Value → Result ℕ
to_float v = raise value_error

abbrev done : CommandResult
done = record { return_code = pos 7; stdout = "out"; stderr = "" }

abbrev payload : Fields
payload =
    entry "image" (str "python:3.12")
      (entry "memory_mb" (int (pos 512)) (entry "cmd" (str "true") empty))

abbrev host : Host
host = record {
  words = λ s. [];
  which = λ s. none;
  run_shell = λ command timeout. completed done;
  run_args = λ args timeout. completed done;
}

abbrev shell : LocalProcessExecutor
shell = record { default_timeout_seconds = 300; shell = true }

has_command : extract_command rt (some payload) ≡ ok "true"
unfolding extract_command first_command command_text lookup
has_command = refl

has_timeout : extract_timeout to_float 300 (some payload) ≡ ok 300
unfolding extract_timeout lookup
has_timeout = refl

abbrev docker : DockerExecutor
docker = record {
  default_timeout_seconds = 600;
  allowed_image_prefixes = "pytorch/" ∷ "python:" ∷ [];
  extra_docker_args = "--network" ∷ "none" ∷ [];
}

abbrev machine : Machine
machine = record {
  platform = linux;
  which = λ s. none;
  path_under = λ s parts. "";
  is_file = λ s. false;
  is_dir = λ s. false;
}

builds :
    build_docker_command rt docker machine to_float "python:3.12" "true" (some payload)
    ≡ ok (
        "docker" ∷ Docker.hardening
        ++ ("--memory" ∷ "512m" ∷ "--network" ∷ "none" ∷ "python:3.12" ∷ "/bin/sh" ∷ "-c" ∷ "true"
            ∷ []))
unfolding build_docker_command find_docker truthy to_int lookup decimal_ℤ decimal
builds = refl

executes :
    Docker.execute rt docker machine to_float (λ args timeout. completed done) (some payload)
    ≡ ok (docker_report "python:3.12" "true" done)
unfolding Docker.execute Docker.extract_image Docker.run extract_command first_command command_text
    extract_timeout build_docker_command find_docker truthy to_int lookup starts_with
executes = refl

execute-Ran_example :
    Ran rt docker machine to_float
      (λ args timeout. completed done)
      (some payload)
      (docker_report "python:3.12" "true" done)
execute-Ran_example =
    execute-Ran rt docker machine to_float (λ args timeout. completed done) (some payload)
      (docker_report "python:3.12" "true" done) executes
