-- ===== src/Workbench/Native.antt =====
-- src/computecloud_node/workbench_executor.py: `NativeWorkbenchExecutor`, sessions as processes of the
-- node without a container. The machine, the network and the file system are a parameter.
pub mod Session
pub mod Processes
mod Tests
use computecloud_node.Prelude.{
  ℕ, String, ◌<>◌, Bool, true, false, Option, none, some, List, [], ◌∷◌, ◌++◌, ◌==◌, ◌&&◌, ◌||◌,
  str_eq, if◌then◌else◌,
}
use computecloud_node.Python.{
  Result, ok, raise, workbench_error, other_error, Value, null, str, arr, nil, Fields, obj, decimal,
  truthy, to_list, list_of,
}
use computecloud_node.Python.Dict.{get_or, put}
use computecloud_node.Python.Effect.{Effect, ◌>>=◌, lift}
use computecloud_node.Python.Runtime.{Runtime, to_str}
use computecloud_node.Python.Text.{str_replace}
use computecloud_node.Workbench.{Machine, Site, act, pause, get_of, wait_for_port}
use computecloud_node.Workbench as Workbench

-- `SessionHandle` of a native session.
pub record NativeSession : Type 0 where
  pub host_port : ℕ
  pub auth_token : String
  pub pid : ℕ

-- What the executor calls beside the machine of the Docker executor. `popen` and `popen_shell` start a
-- process with an environment, and give its identifier, or `none` where they raise; `os_kill`,
-- `terminate` and `kill` say whether they raise nothing; `terminate` is `proc.terminate()` with the wait
-- of five seconds, `kill` is `proc.kill()`.
-- `base_url` is that of the HTTP client, without a slash at its end, if there is a client.
pub record NativeMachine (W : Type 0) : Type 0 where
  pub machine : Machine W
  pub which : String → Option String
  pub executable : String
  pub ws_dir : String
  pub environ : Fields
  pub base_url : Option String
  pub popen_shell : String → Fields → W → Option ℕ × W
  pub popen : List String → Fields → W → Option ℕ × W
  pub os_kill : ℕ → String → W → Bool × W
  pub terminate : ℕ → W → Bool × W
  pub kill : ℕ → W → Bool × W
  pub makedirs : String → W → Result (Unit {0}) × W
  pub local_path : String → String → String
  pub dirname : String → String
  pub http_get : String → Option String → W → Option (ℕ × List ℕ) × W
  pub write_file : String → List ℕ → W → W
  pub append_keys : List Value → W → W
  pub welcome : String → W → W

-- A call of `proc.terminate()` with its wait, or of `proc.kill()`, and whether it has raised nothing.
pub data Signal : Type 0 where
  terminated killed : ℕ → Bool → Signal

-- The site, the processes that were started, and the calls that `_kill_process` has made.
pub record NativeSite (W : Type 0) : Type 0 where
  pub site : Site W
  pub started : List ℕ
  pub signals : List Signal

-- `which(name)`, where the empty text counts as none.
abbrev pub is_found : Option String → Bool
is_found none = false
is_found (some path) = if str_eq path "" then false else true

module _ {W : Type 0} (rt : Runtime) (host : NativeMachine W) where
  abbrev pub State : Type 0
  State = NativeSite W

  -- A call that starts no process.
  abbrev pub world_call : {A : Type 0} → (W → A × W) → Effect State A
  world_call f s = let (a, site) = act host.machine f s.site in (ok a, record s { site = site })

  abbrev pub world_step : (W → W) → Effect State (Unit {0})
  world_step f = world_call (λ w. (tt, f w))

  abbrev pub make_directory : String → Effect State (Unit {0})
  make_directory path s =
      let (result, site) = act host.machine (host.makedirs path) s.site in
      (result, record s { site = site })

  -- A process, entered in `started` where there is one.
  abbrev pub entered : Option ℕ → List ℕ → List ℕ
  entered none started = started
  entered (some pid) started = started ++ pid ∷ []

  abbrev pub launch : (W → Option ℕ × W) → Effect State (Option ℕ)
  launch popen s =
      let (pid, site) = act host.machine popen s.site in
      (ok pid, record s { site = site; started = entered pid s.started })

  -- The installation of jupyter, where it is not found; its end does not matter.
  unfoldable pub install_jupyter : Effect State (Unit {0})
  install_jupyter s = (
    ok tt,
    record s {
      site =
          if is_found (host.which "jupyter")
          then s.site
          else (Workbench.run host.machine
              (host.executable ∷ "-m" ∷ "pip" ∷ "install" ∷ "jupyter" ∷ []) 120000 s.site).1;
    },
  )

  unfoldable pub jupyter_command : String → ℕ → String
  jupyter_command command host_port =
      let port = decimal host_port in
      if str_eq command ""
      then "jupyter notebook --ip=0.0.0.0 --port="
        <> (port
            <> (" --NotebookApp.token=''"
                <> (" --NotebookApp.password='' --no-browser --ServerApp.root_dir="
                    <> host.ws_dir)))
      else str_replace "--port 8888" ("--port " <> port)
          (str_replace "--port=8888" ("--port=" <> port) command)

  -- `_start_jupyter`
  unfoldable pub start_jupyter : String → ℕ → Fields → Effect State (Option ℕ)
  unfolding install_jupyter jupyter_command
  start_jupyter command host_port env = do
    installed ← install_jupyter
    launch (host.popen_shell (jupyter_command command host_port) env)

  -- The start of `sshd` at a path.
  abbrev pub sshd_at : ℕ → Fields → Option String → Effect State (Option ℕ)
  sshd_at host_port env none = lift (raise workbench_error)
  sshd_at host_port env (some path) =
      if str_eq path ""
      then lift (raise workbench_error)
      else launch (host.popen (path ∷ "-D" ∷ "-p" ∷ decimal host_port ∷ []) env)

  -- `_start_sshd`
  unfoldable pub start_sshd : ℕ → Fields → Effect State (Option ℕ)
  start_sshd host_port env = sshd_at host_port env (host.which "sshd")

  -- `_start_custom`
  unfoldable pub start_custom : String → Fields → Effect State (Option ℕ)
  start_custom command env =
      if str_eq command ""
      then lift (raise workbench_error)
      else launch (host.popen_shell command env)

  -- `proc.terminate()` with the wait of five seconds, entered in the log.
  unfoldable pub terminate_proc : ℕ → State → Bool × State
  terminate_proc pid s =
      let (done, site) = act host.machine (host.terminate pid) s.site in
      (done, record s { site = site; signals = s.signals ++ terminated pid done ∷ [] })

  -- `proc.kill()`, entered in the log.
  unfoldable pub kill_proc : ℕ → State → Bool × State
  kill_proc pid s =
      let (done, site) = act host.machine (host.kill pid) s.site in
      (done, record s { site = site; signals = s.signals ++ killed pid done ∷ [] })

  -- `proc.kill()`, where what comes before it has raised; what it raises is passed over.
  abbrev pub kill_unless : ℕ → Bool × State → State
  kill_unless pid (true, s) = s
  kill_unless pid (false, s) = (kill_proc pid s).1

  -- `_kill_process`
  unfoldable pub kill_process : ℕ → State → State
  unfolding terminate_proc kill_proc
  kill_process pid s = kill_unless pid (terminate_proc pid s)

  -- The body of an answer, written where its status is 200.
  abbrev pub saved : String → Option (ℕ × List ℕ) → W → W
  saved path none w = w
  saved path (some (status, content)) w =
      if status == 200 then host.write_file path content w else w

  abbrev pub fetched : String → String → Option String → W → W
  fetched path url token w = let (answer, w') = host.http_get url token w in saved path answer w'

  -- The download of one file.
  unfoldable pub sync_path : String → String → Option String → String → Effect State (Unit {0})
  sync_path base_url dl_prefix token rel_path = do
    let path = host.local_path host.ws_dir rel_path
    made ← make_directory (host.dirname path)
    world_step (fetched path (base_url <> (dl_prefix <> ("/" <> rel_path))) token)

  -- One round of the loop of `_sync_ws`; a path that is no text is taken as its text.
  unfoldable pub sync_file : String → String → Option String → Value → Effect State (Unit {0})
  unfolding sync_path
  sync_file base_url dl_prefix token f_info = do
    rel_path ← lift (get_of f_info "relative_path" (str ""))
    (if truthy rel_path
        then sync_path base_url dl_prefix token (to_str rt rel_path)
        else lift (ok tt))

  unfoldable pub sync_loop : String → String → Option String → List Value → Effect State (Unit {0})
  unfolding sync_file
  sync_loop base_url dl_prefix token [] = lift (ok tt)
  sync_loop base_url dl_prefix token (f_info ∷ files) = do
    done ← sync_file base_url dl_prefix token f_info
    sync_loop base_url dl_prefix token files

  abbrev pub token_in : Result Value → Result (Option String)
  token_in (raise exc) = raise exc
  token_in (ok token) = ok (if truthy token then some (to_str rt token) else none)

  -- `POOL_TOKEN` of `pool_env`, where there is one.
  abbrev pub token_of : Value → Result (Option String)
  token_of pool_env =
      if truthy pool_env then token_in (get_of pool_env "POOL_TOKEN" (str "")) else ok none

  -- `_sync_ws`, for a client at `base_url`.
  unfoldable pub sync_ws : String → Value → Value → Effect State (Unit {0})
  unfolding sync_loop
  sync_ws base_url ws_block pool_env = do
    files ← lift (get_of ws_block "files" (arr nil))
    dl_prefix ← lift (get_of ws_block "download_path_prefix" (str ""))
    token ← lift (token_of pool_env)
    items ← lift (to_list files)
    sync_loop base_url (to_str rt dl_prefix) token (list_of items)

  abbrev pub sync_with : Option String → Value → Value → Effect State (Unit {0})
  sync_with none ws_block pool_env = lift (ok tt)
  sync_with (some base_url) ws_block pool_env = sync_ws base_url ws_block pool_env

  -- The workspace: its directory, its files and the welcome notebook.
  unfoldable pub prepare : String → Value → Value → Effect State (Unit {0})
  unfolding sync_ws
  prepare stype ws_block pool_env =
      if truthy ws_block || truthy pool_env
      then (do
        made ← make_directory host.ws_dir
        synced ←
            (if truthy ws_block then sync_with host.base_url ws_block pool_env else lift (ok tt))
        world_step (
            if str_eq stype "jupyter" && truthy ws_block
            then host.welcome host.ws_dir
            else (λ w. w)))
      else lift (ok tt)

  -- The keys; what is no list is not modelled.
  abbrev pub listed_keys : Value → List Value
  listed_keys (arr xs) = list_of xs
  listed_keys _ = []

  -- The keys of an SSH session; `_inject_ssh_keys` passes over every exception.
  unfoldable pub inject_ssh_keys : String → Value → Effect State (Unit {0})
  inject_ssh_keys stype ssh_keys = world_step (
      if str_eq stype "ssh" && truthy ssh_keys
      then host.append_keys (listed_keys ssh_keys)
      else (λ w. w))

  abbrev pub url_or_empty : Option String → String
  url_or_empty none = ""
  url_or_empty (some base_url) = base_url

  abbrev pub with_pool : Result Value → Result Value → Result Fields
  with_pool (raise exc) workspace_id = raise exc
  with_pool (ok token) (raise exc) = raise exc
  with_pool (ok token) (ok workspace_id) = ok (
      put "POOL_WORKSPACE_ID" workspace_id (
        put "POOL_TOKEN" token
          (put "POOL_API_URL" (str (url_or_empty host.base_url)) host.environ)))

  -- The environment of the process.
  unfoldable pub environment : Value → Result Fields
  environment pool_env =
      if truthy pool_env
      then with_pool (get_of pool_env "POOL_TOKEN" (str ""))
          (get_of pool_env "POOL_WORKSPACE_ID" (str ""))
      else ok host.environ

  -- The process of a session, by its type.
  unfoldable pub start_process : String → String → ℕ → Fields → Effect State (Option ℕ)
  unfolding start_jupyter start_sshd start_custom
  start_process stype command host_port env =
      if str_eq stype "jupyter"
      then start_jupyter command host_port env
      else if str_eq stype "ssh"
      then start_sshd host_port env
      else if str_eq stype "custom"
      then start_custom command env
      else lift (raise workbench_error)

  -- `start_session`, from the process on; `none` is a wait that needs more fuel.
  unfoldable pub awaited_native :
      NativeSession → Option (Bool × Site W) → State → Option (Result NativeSession × State)
  unfolding kill_process
  awaited_native handle none s = none
  awaited_native handle (some (true, site)) s = some (ok handle, record s { site = site })
  awaited_native handle (some (false, site)) s =
      some (raise workbench_error, kill_process handle.pid (record s { site = site }))

  unfoldable pub process_started :
      ℕ → String → Result (Option ℕ) × State → Option (Result NativeSession × State)
  unfolding awaited_native wait_for_port
  process_started host_port auth_token (raise exc, s) = some (raise exc, s)
  process_started host_port auth_token (ok none, s) = some (raise workbench_error, s)
  process_started host_port auth_token (ok (some pid), s) =
      awaited_native (record { host_port = host_port; auth_token = auth_token; pid = pid })
        (wait_for_port host.machine host_port 60000 s.site) s

  -- What comes before the process, with the environment that it gives.
  unfoldable pub prepared : String → Fields → Effect State Fields
  unfolding prepare inject_ssh_keys environment
  prepared stype session_data = do
    let pool_env = get_or "pool_env" null session_data
    ready ← prepare stype (get_or "workspace" null session_data) pool_env
    injected ← inject_ssh_keys stype (get_or "ssh_public_keys" (arr nil) session_data)
    lift (environment pool_env)

  -- `start_session`. A session type or a command that is no text is taken as its text.
  unfoldable pub start_native : Fields → State → Option (Result NativeSession × State)
  unfolding prepared start_process process_started
  start_native session_data s =
      let stype = to_str rt (get_or "session_type" (str "") session_data) in
      let command = to_str rt (get_or "command" (str "") session_data) in
      let (auth_token, site) = act host.machine host.machine.token_urlsafe s.site in
      let (host_port, site') = act host.machine host.machine.allocate_host_port site in
      process_started host_port auth_token (
        (prepared stype session_data >>= start_process stype command host_port)
          (record s { site = site' }))

  -- The inner `try` of `stop_session`.
  abbrev pub stop_from : ℕ → Bool × Site W → Site W
  stop_from pid (false, site) = site
  stop_from pid (true, site) =
      (act host.machine (host.os_kill pid "SIGKILL") (pause host.machine 1000 site)).1

  -- `stop_session`
  unfoldable pub stop_native : NativeSession → State → State
  stop_native handle s = if handle.pid == 0 then s else record s {
    site = stop_from handle.pid (act host.machine (host.os_kill handle.pid "SIGTERM") s.site);
  }

  -- `is_session_alive`; the signal 0 asks only.
  unfoldable pub is_native_alive : NativeSession → State → Bool × State
  is_native_alive handle s =
      let (alive, site) = act host.machine (host.os_kill handle.pid "0") s.site in
      if handle.pid == 0 then (false, s) else (alive, record s { site = site })

-- What `create_workbench_executor` gives.
pub data WorkbenchKind : Type 0 where
  docker_workbench native_workbench : WorkbenchKind

-- `create_workbench_executor`; `available` is `_docker_available()`.
unfoldable pub create_workbench_executor : String → Bool → Result WorkbenchKind
create_workbench_executor mode available =
    if str_eq mode "docker"
    then if available then ok docker_workbench else raise workbench_error
    else if str_eq mode "native"
    then ok native_workbench
    else ok (if available then docker_workbench else native_workbench)
