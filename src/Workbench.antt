-- ===== src/Workbench.antt =====
-- src/computecloud_node/workbench_executor.py: sessions in Docker containers. The machine (processes,
-- sockets, the clock) acts on a world that is a parameter; what processes were run, and how they
-- ended, is kept in `Site`. Times are milliseconds.
pub mod Command
pub mod Start
pub mod Waiting
pub mod Kept
pub mod Stopping
pub mod Service
pub mod Sandbox
pub mod Native
pub mod Probe
mod Tests
use computecloud_node.Prelude.{
  ℕ, zero, suc, ◌+◌, String, Bool, true, false, Option, none, some, List, [], ◌∷◌, ◌++◌, map, ◌&&◌,
  ltb, str_eq, if◌then◌else◌,
}
use computecloud_node.Prelude.Int.{pos, eqb_ℤ}
use computecloud_node.Python.{
  Result, ok, raise, os_error, workbench_error, other_error, ◌>>=◌, Value, str, obj, arr, nil,
  list_of, truthy, to_list,
}
use computecloud_node.Python.Dict.{get, get_or}
use computecloud_node.Python.Runtime.{Runtime, to_str}
use computecloud_node.Python.Text.{str_strip, join}
use computecloud_node.Commands.{Finished, completed, timed_out, not_found, crashed}

-- `SessionHandle` of a Docker session.
pub record DockerSession : Type 0 where
  pub host_port : ℕ
  pub auth_token : String
  pub container_id : String

-- `_find_docker()`, `subprocess.run` with its time-out, a connection to a local port, the clock,
-- `secrets.token_urlsafe(12)`, `_allocate_host_port`, `json.loads` and `shlex.join`.
pub record Machine (W : Type 0) : Type 0 where
  pub docker : String
  pub run : List String → ℕ → W → Finished × W
  pub connect : ℕ → W → Bool × W
  pub now : W → ℕ
  pub sleep : ℕ → W → W
  pub token_urlsafe : W → String × W
  pub allocate_host_port : W → ℕ × W
  pub loads : String → Result Value
  pub shlex_join : List String → String

-- The world, and the processes that were run.
pub record Site (W : Type 0) : Type 0 where
  pub world : W
  pub ran : List (List String × Finished)

-- `v.get(key, default)`: an `AttributeError` if `v` is no dict.
abbrev pub get_of : Value → String → Value → Result Value
get_of (obj d) key default = ok (get_or key default d)
get_of _ key default = raise other_error

-- `returncode == 0`
abbrev pub succeeded : Finished → Bool
succeeded (completed r) = eqb_ℤ r.return_code (pos 0)
succeeded (timed_out out err) = false
succeeded not_found = false
succeeded crashed = false

-- `v or []`, as it is iterated over.
abbrev pub items_or_empty : Value → Result (List Value)
items_or_empty v = if truthy v then to_list v >>= (λ xs. ok (list_of xs)) else ok []

-- What `_run_docker` makes of the end of `docker run`.
unfoldable pub container_of : Finished → Result String
container_of (completed r) =
    if succeeded (completed r) then ok (str_strip r.stdout) else raise workbench_error
container_of (timed_out out err) = raise workbench_error
container_of not_found = raise workbench_error
container_of crashed = raise os_error

module _ {W : Type 0} (host : Machine W) where
  -- A call of the machine that runs no process.
  abbrev pub act {ℓ} : {A : Type ℓ} → (W → A × W) → Site W → A × Site W
  act f s = let (a, w) = f s.world in (a, record s { world = w })

  abbrev pub pause : ℕ → Site W → Site W
  pause time s = record s { world = host.sleep time s.world }

  -- `subprocess.run`
  unfoldable pub run : List String → ℕ → Site W → Finished × Site W
  run args timeout s =
      let (finished, w) = host.run args timeout s.world in
      (finished, record { world = w; ran = s.ran ++ (args, finished) ∷ [] })

  -- The loop of `_wait_for_port`. `none`: out of fuel.
  unfoldable pub wait_loop : ℕ → ℕ → ℕ → Site W → Option (Bool × Site W)
  wait_loop zero port deadline s = none
  wait_loop (suc fuel) port deadline s = elim (ltb (host.now s.world) deadline) [
    | false ↦ some (false, s)
    | true ↦
        let (opened, s') = act (host.connect port) s in
        elim opened [ true ↦ some (true, s') | false ↦ wait_loop fuel port deadline (pause 500 s') ]
  ]

  -- `_wait_for_port`: each round sleeps, so that this fuel is enough.
  unfoldable pub wait_for_port : ℕ → ℕ → Site W → Option (Bool × Site W)
  unfolding wait_loop
  wait_for_port port timeout s = wait_loop (timeout + 1) port (host.now s.world + timeout) s

  -- `_stop_container`; exceptions are passed over.
  unfoldable pub stop_container : String → Site W → Site W
  unfolding run
  stop_container container_id s =
      let stopped = run (host.docker ∷ "stop" ∷ container_id ∷ []) 10000 s in
      (run (host.docker ∷ "rm" ∷ "-f" ∷ "-v" ∷ container_id ∷ []) 10000 stopped.1).1

  -- `_run_docker`
  unfoldable pub run_docker : List String → Site W → Result String × Site W
  unfolding run container_of
  run_docker docker_cmd s =
      let (finished, s') = run docker_cmd 120000 s in (container_of finished, s')

  -- What `_image_entrypoint` reads in the configuration of the image.
  unfoldable pub entrypoint_of : Runtime → Finished → Result (List String)
  entrypoint_of rt (completed r) = do
    cfg ← if succeeded (completed r) then host.loads r.stdout else raise other_error
    entrypoint ← get_of cfg "Entrypoint" (arr nil)
    ep ← items_or_empty entrypoint
    command ← get_of cfg "Cmd" (arr nil)
    cmd ← items_or_empty command
    ok (map (to_str rt) (ep ++ cmd))
  entrypoint_of rt _ = raise other_error

  -- `except Exception: return []`
  abbrev pub or_none : Result (List String) → List String
  or_none (raise exc) = []
  or_none (ok texts) = texts

  -- `_image_entrypoint`
  unfoldable pub image_entrypoint : Runtime → Value → Site W → List String × Site W
  unfolding run entrypoint_of
  image_entrypoint rt (str image) s =
      let (finished, s') =
        run (host.docker ∷ "image" ∷ "inspect" ∷ "--format" ∷ "{{json .Config}}" ∷ image ∷ []) 30000
          s in
      (or_none (entrypoint_of rt finished), s')
  image_entrypoint rt _ s = ([], s)

  -- The loop of `_run_startup_parts_docker` over the attempts that are left.
  unfoldable pub parts_loop : ℕ → List String → Site W → Site W
  unfolding run
  parts_loop zero args s = s
  parts_loop (suc attempts) args s =
      let (finished, s') = run args 60000 s in
      let rest = parts_loop attempts args (pause 2000 s') in if succeeded finished then s' else rest

  -- `_run_startup_parts_docker`
  unfoldable pub run_startup_parts_docker : String → List String → Site W → Site W
  unfolding parts_loop
  run_startup_parts_docker container_id startup_parts s =
      parts_loop 3
        (host.docker ∷ "exec" ∷ container_id ∷ "/bin/sh" ∷ "-c" ∷ join " && " startup_parts ∷ []) s

  -- `stop_session`
  unfoldable pub stop_session : DockerSession → Site W → Site W
  unfolding stop_container
  stop_session handle s =
      if str_eq handle.container_id "" then s else stop_container handle.container_id s

  -- `is_session_alive`
  unfoldable pub is_session_alive : DockerSession → Site W → Bool × Site W
  unfolding run
  is_session_alive handle s =
      let (finished, s') =
        run (host.docker ∷ "inspect" ∷ "-f" ∷ "{{.State.Running}}" ∷ handle.container_id ∷ []) 5000
          s in
      if str_eq handle.container_id ""
      then (false, s)
      else (succeeded finished && str_eq (str_strip (stdout_of finished)) "true", s')
    where
      stdout_of : Finished → String
      stdout_of (completed r) = r.stdout
      stdout_of (timed_out out err) = ""
      stdout_of not_found = ""
      stdout_of crashed = ""
