-- ===== src/Workbench/Start.antt =====
-- `DockerWorkbenchExecutor.start_session`.
use computecloud_node.Prelude.{
  ℕ, String, ◌<>◌, Bool, true, false, Option, none, some, List, [], ◌∷◌, ◌++◌, not, ◌&&◌,
  if◌then◌else◌,
}
use computecloud_node.Python.{Result, ok, raise, workbench_error, ◌>>=◌, Value, str, Fields, truthy}
use computecloud_node.Python.Dict.{get_item}
use computecloud_node.Python.Runtime.{Runtime}
use computecloud_node.Workbench.{
  DockerSession, Machine, Site, act, wait_for_port, stop_container, run_docker, image_entrypoint,
  run_startup_parts_docker,
}
use computecloud_node.Workbench.Command.{
  is_ssh, build_startup_parts, build_final_command, docker_options, texts_of,
}

-- The fields that must be there.
pub record Request : Type 0 where
  pub docker_image : Value
  pub command : Value
  pub container_port : Value

abbrev pub read_request : Fields → Result Request
read_request d = do
  docker_image ← get_item "docker_image" d
  command ← get_item "command" d
  container_port ← get_item "container_port" d
  ok (record { docker_image = docker_image; command = command; container_port = container_port })

abbrev pub is_empty : List String → Bool
is_empty [] = true
is_empty (x ∷ xs) = false

-- `nb_b64` is the welcome notebook in Base64.
module _ {W : Type 0} (rt : Runtime) (nb_b64 : String) (host : Machine W) where
  -- The startup parts after the start, if there are any.
  unfoldable pub post_start : String → List String → Site W → Site W
  unfolding run_startup_parts_docker
  post_start container_id [] s = s
  post_start container_id (part ∷ parts) s =
      run_startup_parts_docker host container_id (part ∷ parts) s

  -- From the answer of `_wait_for_port` on.
  unfoldable pub awaited :
      DockerSession → List String → Option (Bool × Site W) → Option (Result DockerSession × Site W)
  unfolding stop_container post_start
  awaited handle post none = none
  awaited handle post (some (false, s)) =
      some (raise workbench_error, stop_container host handle.container_id s)
  awaited handle post (some (true, s)) = some (ok handle, post_start handle.container_id post s)

  -- From the answer of `_run_docker` on.
  unfoldable pub booted :
      ℕ → String → List String → Result String × Site W → Option (Result DockerSession × Site W)
  unfolding wait_for_port awaited
  booted host_port auth_token post (raise exc, s) = some (raise exc, s)
  booted host_port auth_token post (ok container_id, s) =
      awaited
        (record { host_port = host_port; auth_token = auth_token; container_id = container_id })
        post (wait_for_port host host_port 180000 s)

  -- From the command line on.
  unfoldable pub launched :
      ℕ
      → String
      → List String
      → Result (List String)
      → Site W
      → Option (Result DockerSession × Site W)
  unfolding run_docker booted
  launched host_port auth_token post (raise exc) s = some (raise exc, s)
  launched host_port auth_token post (ok docker_cmd) s =
      booted host_port auth_token post (run_docker host docker_cmd s)

  -- The command that an image runs after the startup script, where none is asked for.
  abbrev pub image_command : Value → List String → Value
  image_command command [] = command
  image_command command (word ∷ words) = str ("exec " <> host.shlex_join (word ∷ words))

  -- The image with its command, and the parts to run after the start.
  unfoldable pub final_of :
      Bool → Request → List String → Site W → (List Value × List String) × Site W
  unfolding image_entrypoint build_final_command
  final_of over_ssh r parts s =
      let (entrypoint, s') = image_entrypoint host rt r.docker_image s in
      if over_ssh && not (truthy r.command)
      then ((r.docker_image ∷ [], parts), s)
      else if not (is_empty parts) && not (truthy r.command)
      then (
        (build_final_command rt r.docker_image (image_command r.command entrypoint) parts, []),
        s',
      )
      else ((build_final_command rt r.docker_image r.command parts, []), s)

  -- From the options and the startup parts on.
  unfoldable pub assembled :
      Bool
      → Request
      → ℕ
      → String
      → Result (List String × List String)
      → Site W
      → Option (Result DockerSession × Site W)
  unfolding final_of texts_of launched
  assembled over_ssh r host_port auth_token (raise exc) s = some (raise exc, s)
  assembled over_ssh r host_port auth_token (ok (options, parts)) s =
      let (final, s') = final_of over_ssh r parts s in
      launched host_port auth_token final.1
        (texts_of final.0 >>= (λ image. ok (host.docker ∷ "run" ∷ options ++ image))) s'

  -- `start_session`, once the fields are read.
  unfoldable pub requested :
      Fields → Result Request → Site W → Option (Result DockerSession × Site W)
  unfolding docker_options build_startup_parts assembled
  requested d (raise exc) s = some (raise exc, s)
  requested d (ok r) s =
      let (auth_token, s1) = act host host.token_urlsafe s in
      let (host_port, s2) = act host host.allocate_host_port s1 in
      assembled (is_ssh d) r host_port auth_token
        (docker_options rt host_port r.container_port d
          >>= (λ options. build_startup_parts rt nb_b64 d >>= (λ parts. ok (options, parts))))
        s2

  -- `start_session`
  unfoldable pub start_session : Fields → Site W → Option (Result DockerSession × Site W)
  unfolding requested
  start_session session_data s = requested session_data (read_request session_data) s
