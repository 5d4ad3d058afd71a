-- ===== src/Commands/Docker.antt =====
-- src/computecloud_node/docker_executor.py: `DockerExecutor`, and the start of the Docker daemon.
use computecloud_node.Prelude.{
  ℕ, String, ◌<>◌, Bool, true, false, Option, none, some, List, [], ◌∷◌, ◌++◌, any, str_eq,
  if◌then◌else◌,
}
use computecloud_node.Prelude.Int.{negsuc}
use computecloud_node.Python.{
  Result, ok, raise, value_error, os_error, ◌>>=◌, Value, int, float, str, obj, Fields, empty,
  entry, truthy, to_int, decimal_ℤ, codes,
}
use computecloud_node.Python.Dict.{get}
use computecloud_node.Python.Text.{starts_with}
use computecloud_node.Python.Runtime.{Runtime, to_str}
use computecloud_node.Commands.{
  CommandResult, Finished, completed, timed_out, not_found, crashed, or_empty, extract_command,
  extract_timeout,
}

pub record DockerExecutor : Type 0 where
  pub default_timeout_seconds : ℕ
  pub allowed_image_prefixes : List String
  pub extra_docker_args : List String

pub data Platform : Type 0 where
  win32 darwin linux : Platform

-- The machine: `sys.platform`, `shutil.which`, `os.environ.get(name, "")` with the parts of a path
-- under it (`os.path.join`), and `os.path.isfile`.
pub record Machine : Type 0 where
  pub platform : Platform
  pub which : String → Option String
  pub path_under : String → List String → String
  pub is_file : String → Bool
  pub is_dir : String → Bool

-- The loop `for c in candidates: if c and os.path.isfile(c)`
unfoldable pub first_file : (String → Bool) → List String → Option String
first_file is_file [] = none
first_file is_file (c ∷ cs) =
    let rest = first_file is_file cs in
    if str_eq c "" then rest else if is_file c then some c else rest

abbrev pub non_empty : Option String → Option String
non_empty none = none
non_empty (some s) = if str_eq s "" then none else some s

abbrev pub or_docker : Option String → String
or_docker none = "docker"
or_docker (some path) = path

module _ (host : Machine) where
  abbrev pub installed_docker : Option String
  installed_docker = first_file host.is_file (
      host.path_under "LOCALAPPDATA"
        ("Programs" ∷ "DockerDesktop" ∷ "resources" ∷ "bin" ∷ "docker.exe" ∷ [])
      ∷ host.path_under "ProgramFiles"
          ("Docker" ∷ "Docker" ∷ "resources" ∷ "bin" ∷ "docker.exe" ∷ [])
      ∷ [])

  -- `_find_docker`
  unfoldable pub find_docker : String
  unfolding first_file
  find_docker = elim host.platform [
    | win32 ↦ elim (non_empty (host.which "docker")) [
      | some path ↦ path
      | none ↦ or_docker installed_docker
    ]
    | darwin ↦ "docker"
    | linux ↦ "docker"
  ]

  -- `_find_docker_desktop_app`
  unfoldable pub find_docker_desktop_app : Option String
  unfolding first_file
  find_docker_desktop_app = elim host.platform [
    | win32 ↦ first_file host.is_file (
        host.path_under "LOCALAPPDATA" ("Programs" ∷ "DockerDesktop" ∷ "Docker Desktop.exe" ∷ [])
        ∷ host.path_under "ProgramFiles" ("Docker" ∷ "Docker" ∷ "Docker Desktop.exe" ∷ [])
        ∷ [])
    | darwin ↦ none
    | linux ↦ none
  ]

  -- `_launch_docker_desktop`; `popen` starts a command, and says whether it raises no `OSError`.
  unfoldable pub launch_docker_desktop : {S : Type 0} → (List String → S → Bool × S) → S → Bool × S
  unfolding find_docker_desktop_app
  launch_docker_desktop popen s = elim host.platform [
    | win32 ↦ elim (non_empty find_docker_desktop_app) [
      | none ↦ (false, s)
      | some app ↦ popen (app ∷ []) s
    ]
    | darwin ↦
        if host.is_dir "/Applications/Docker.app"
        then popen ("open" ∷ "-a" ∷ "Docker" ∷ []) s
        else (false, s)
    | linux ↦ (false, s)
  ]

-- The fixed start of the argument list.
abbrev pub hardening : List String
hardening =
    "run" ∷ "--rm" ∷ "--security-opt" ∷ "no-new-privileges" ∷ "--cap-drop" ∷ "ALL" ∷ "--pids-limit"
    ∷ "256" ∷ "--ulimit" ∷ "nofile=1024:4096" ∷ "--read-only" ∷ "--tmpfs" ∷ "/tmp:rw,size=64m" ∷ []

-- The dict that `execute` returns.
abbrev pub docker_report : String → String → CommandResult → Value
docker_report image command result = obj (
    entry "image" (str image) (
      entry "command" (str command) (
        entry "return_code" (int result.return_code)
          (entry "stdout" (str result.stdout) (entry "stderr" (str result.stderr) empty)))))

-- `any(image.startswith(p) for p in prefixes)`
abbrev pub has_prefix : List String → String → Bool
has_prefix prefixes image = any (λ p. starts_with (codes image) (codes p)) prefixes

-- `not self.allowed_image_prefixes or any(...)`
abbrev pub is_allowed : List String → String → Bool
is_allowed [] image = true
is_allowed (p ∷ ps) image = has_prefix (p ∷ ps) image

abbrev pub fields_of : Option Fields → Fields
fields_of none = empty
fields_of (some d) = d

module _ (rt : Runtime) (ex : DockerExecutor) where
  -- `_extract_image`
  unfoldable pub extract_image : Option Fields → Result String
  extract_image none = raise value_error
  extract_image (some payload) =
      let image = to_str rt (get "image" payload) in
      if truthy (get "image" payload)
      then if is_allowed ex.allowed_image_prefixes image then ok image else raise value_error
      else raise value_error

  module _ (host : Machine) (to_float : Value → Result ℕ) where
    abbrev pub gpu_args : Fields → List String
    gpu_args payload = if truthy (get "gpu" payload) then "--gpus" ∷ "all" ∷ [] else []

    abbrev pub memory_args : Fields → Result (List String)
    memory_args payload =
        if truthy (get "memory_mb" payload)
        then to_int (get "memory_mb" payload)
          >>= (λ mb. ok ("--memory" ∷ (decimal_ℤ mb <> "m") ∷ []))
        else ok []

    abbrev pub cpu_args : Fields → Result (List String)
    cpu_args payload =
        if truthy (get "cpu_cores" payload)
        then to_float (get "cpu_cores" payload)
          >>= (λ cores. ok ("--cpus" ∷ rt.display (float cores) ∷ []))
        else ok []

    -- `_build_docker_command`
    unfoldable pub build_docker_command : String → String → Option Fields → Result (List String)
    unfolding find_docker
    build_docker_command image command payload = do
      let d = fields_of payload
      memory ← memory_args d
      cpus ← cpu_args d
      ok (
          find_docker host ∷ hardening
          ++ (gpu_args d
              ++ (memory
                  ++ (cpus ++ (ex.extra_docker_args ++ image ∷ "/bin/sh" ∷ "-c" ∷ command ∷ [])))))

    -- `_run`, for the way `subprocess.run` ends.
    unfoldable pub run : ℕ → Finished → Result CommandResult
    run timeout (completed result) = ok result
    run timeout (timed_out out err) = ok (record {
      return_code = negsuc 0;
      stdout = or_empty out;
      stderr = "Container timed out after " <> rt.display (float timeout) <> "s";
    })
    run timeout not_found = ok (record {
      return_code = negsuc 0;
      stdout = "";
      stderr = "docker CLI not found — install Docker to run template jobs";
    })
    run timeout crashed = raise os_error

    -- `DockerExecutor.execute`; `subprocess_run` is `subprocess.run` with arguments and a time-out.
    unfoldable pub execute : (List String → ℕ → Finished) → Option Fields → Result Value
    unfolding run
    execute subprocess_run payload = do
      image ← extract_image payload
      command ← extract_command rt payload
      timeout ← extract_timeout to_float ex.default_timeout_seconds payload
      docker_cmd ← build_docker_command image command payload
      result ← run timeout (subprocess_run docker_cmd timeout)
      ok (docker_report image command result)
