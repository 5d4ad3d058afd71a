-- ===== src/Workbench/Command.antt =====
-- The command line of `docker run` for a session, and the script that a container starts with.
use computecloud_node.Prelude.{
  ℕ, String, ◌<>◌, Bool, List, [], ◌∷◌, ◌++◌, ◌&&◌, ◌||◌, str_eq, if◌then◌else◌, ◌==◌,
}
use computecloud_node.Prelude.Int.{pos}
use computecloud_node.Python.{
  Result, ok, raise, type_error, other_error, ◌>>=◌, Value, int, float, str, arr, nil, cons, Items,
  Fields, truthy, to_int, decimal_ℤ, to_list, decimal, is_text,
}
use computecloud_node.Python.Dict.{get, get_or}
use computecloud_node.Python.Runtime.{Runtime, to_str}
use computecloud_node.Python.Text.{str_strip, strip_end, join}
use computecloud_node.Workbench.{get_of}

-- `KNOWN_MINING_POOL_DOMAINS`
abbrev pub known_mining_pool_domains : List String
known_mining_pool_domains =
    "pool.minexmr.com" ∷ "pool.supportxmr.com" ∷ "xmr.pool.minergate.com" ∷ "eth.pool.minergate.com"
    ∷ "btc.pool.minergate.com" ∷ "pool.moneropool.com" ∷ "xmrpool.eu" ∷ "monero.hashpool.pro"
    ∷ "nanopool.org" ∷ "ethermine.org" ∷ "f2pool.com" ∷ "antpool.com" ∷ "viabtc.com"
    ∷ "miningrigrentals.com" ∷ "nicehash.com" ∷ "miningpoolhub.com" ∷ "dwarfpool.com"
    ∷ "flypool.org" ∷ "nanopool.com" ∷ "2miners.com" ∷ "mine.xmr.ru" ∷ "monero.crypto-pool.org" ∷ []

-- `docker_cmd += ["--add-host", f"{domain}:127.0.0.1"]` for each domain.
unfoldable pub add_hosts : List String → List String
add_hosts [] = []
add_hosts (domain ∷ domains) = "--add-host" ∷ (domain <> ":127.0.0.1") ∷ add_hosts domains

-- `_ssh_security_args`
abbrev pub ssh_security_args : List String
ssh_security_args =
    "--cap-drop" ∷ "ALL" ∷ "--cap-add" ∷ "SETUID" ∷ "--cap-add" ∷ "SETGID" ∷ "--cap-add"
    ∷ "SYS_CHROOT" ∷ "--cap-add" ∷ "DAC_OVERRIDE" ∷ "--cap-add" ∷ "CHOWN" ∷ "--cap-add" ∷ "FOWNER"
    ∷ "--cap-add" ∷ "KILL" ∷ "--cap-add" ∷ "NET_BIND_SERVICE" ∷ "-e" ∷ "PASSWORD_ACCESS=true" ∷ "-e"
    ∷ "USER_PASSWORD=poolpass" ∷ "-e" ∷ "USER_NAME=pool" ∷ "-e" ∷ "PUID=0" ∷ "-e" ∷ "PGID=0" ∷ []

-- `" ".join("'" + k.strip() + "'" for k in ssh_keys if k.strip())`, before the join.
unfoldable pub quoted_keys : Items → Result (List String)
quoted_keys nil = ok []
quoted_keys (cons (str k) ks) =
    let rest = quoted_keys ks in
    do
      keys ← rest
      ok (if str_eq (str_strip k) "" then keys else ("'" <> str_strip k <> "'") ∷ keys)
quoted_keys (cons v ks) = raise other_error

-- The part that adds keys to `authorized_keys`.
abbrev pub keys_part : List String → String
keys_part keys =
    "mkdir -p /config/.ssh && printf '%s\\n' "
    <> join " " keys
    <> " >> /config/.ssh/authorized_keys && chmod 700 /config/.ssh"
    <> " && chmod 600 /config/.ssh/authorized_keys 2>/dev/null || true"

abbrev pub is_ssh : Fields → Bool
is_ssh d = is_text (get_or "session_type" (str "") d) "ssh"

-- The parts for the keys: none if the session is not over SSH, or has no keys.
unfoldable pub ssh_parts : Fields → Result (List String)
unfolding quoted_keys
ssh_parts d =
    let ssh_keys = get_or "ssh_public_keys" (arr nil) d in
    if is_ssh d && truthy ssh_keys
    then (do items ← to_list ssh_keys; keys ← quoted_keys items; ok (keys_part keys ∷ []))
    else ok []

-- The environment of the pool.
unfoldable pub pool_args : Runtime → String → Value → Result (List String)
pool_args rt base_url pool_env =
    if truthy pool_env
    then (do
      token ← get_of pool_env "POOL_TOKEN" (str "")
      workspace ← get_of pool_env "POOL_WORKSPACE_ID" (str "")
      ok (
          "-e"
          ∷ ("POOL_API_URL=" <> base_url)
          ∷ "-e"
          ∷ ("POOL_TOKEN=" <> to_str rt token)
          ∷ "-e"
          ∷ ("POOL_WORKSPACE_ID=" <> to_str rt workspace)
          ∷ []))
    else ok []

module _ (rt : Runtime) where
  -- `str(session_data.get("_http_base_url", "")).rstrip("/")`
  abbrev pub base_url_of : Fields → String
  base_url_of d = strip_end (λ c. c == b'/') (to_str rt (get_or "_http_base_url" (str "") d))

  -- The loop over the files of the workspace.
  unfoldable pub file_parts : String → String → Items → Result (List String)
  file_parts prefix token nil = ok []
  file_parts prefix token (cons f_info files) =
      let rest = file_parts prefix token files in
      do
        path ← get_of f_info "relative_path" (str "")
        parts ← rest
        let rel_path = to_str rt path
        ok (
            if truthy path
            then ("mkdir -p /workspace/$(dirname \"" <> rel_path <> "\")")
              ∷ ("curl -sf -H \"Authorization: Bearer " <> token <> "\" -o \"/workspace/"
                  <> rel_path <> "\" \"" <> prefix <> "/" <> rel_path <> "\" || true")
              ∷ parts
            else parts)

  -- The parts that fetch a workspace.
  unfoldable pub workspace_parts : Fields → Value → Value → Result (List String)
  unfolding file_parts
  workspace_parts d ws pool_env = do
    files ← get_of ws "files" (arr nil)
    dl_prefix ← get_of ws "download_path_prefix" (str "")
    token ← if truthy pool_env then get_of pool_env "POOL_TOKEN" (str "") else ok (str "")
    items ← to_list files
    parts ← file_parts (base_url_of d <> to_str rt dl_prefix) (to_str rt token) items
    ok ("mkdir -p /workspace" ∷ parts)

  -- `_build_startup_parts`; `nb_b64` is the notebook in Base64.
  unfoldable pub build_startup_parts : String → Fields → Result (List String)
  unfolding workspace_parts ssh_parts
  build_startup_parts nb_b64 d =
      let ws = get "workspace" d in
      let pool_env = get "pool_env" d in
      let notebook =
        if is_text (get_or "session_type" (str "") d) "jupyter" && truthy ws
        then ("test -f /workspace/welcome.ipynb || (mkdir -p /workspace && echo '" <> nb_b64
            <> "' | base64 -d > /workspace/welcome.ipynb) 2>/dev/null || true")
          ∷ []
        else [] in
      if truthy ws || truthy pool_env
      then (do
        fetch ← if truthy ws then workspace_parts d ws pool_env else ok []
        keys ← ssh_parts d
        ok ("pip install computecloud-sdk 2>/dev/null || true" ∷ fetch ++ (notebook ++ keys)))
      else ssh_parts d

  -- `_build_final_command`
  unfoldable pub build_final_command : Value → Value → List String → List Value
  build_final_command docker_image command [] =
      if truthy command
      then docker_image ∷ str "/bin/sh" ∷ str "-c" ∷ command ∷ []
      else docker_image ∷ []
  build_final_command docker_image command (part ∷ parts) =
      let tail = if truthy command then to_str rt command else "tail -f /dev/null" in
      docker_image
      ∷ str "/bin/sh"
      ∷ str "-c"
      ∷ str (join " && " (part ∷ parts) <> " ; " <> tail)
      ∷ []

  -- The options of `docker run`, as far as `session_type`. 4611686018427387904 is the float 2.0.
  unfoldable pub limits : ℕ → Value → Fields → Result (List String)
  limits host_port container_port d = do
    memory_mb ← to_int (get_or "memory_mb" (int (pos 4096)) d)
    ok (
        "-d"
        ∷ "-p"
        ∷ (decimal host_port <> ":" <> to_str rt container_port)
        ∷ "--memory"
        ∷ (decimal_ℤ memory_mb <> "m")
        ∷ "--cpus"
        ∷ to_str rt (get_or "cpu_cores" (float 4611686018427387904) d)
        ∷ "--pids-limit"
        ∷ "512"
        ∷ "--ulimit"
        ∷ "nofile=4096:8192"
        ∷ "--tmpfs"
        ∷ "/tmp:rw,size=256m"
        ∷ [])

  -- The options of `docker run`, before the image.
  unfoldable pub docker_options : ℕ → Value → Fields → Result (List String)
  unfolding limits add_hosts pool_args
  docker_options host_port container_port d = do
    limited ← limits host_port container_port d
    pool ← pool_args rt (base_url_of d) (get "pool_env" d)
    let security =
        if is_ssh d
        then ssh_security_args
        else "--security-opt" ∷ "no-new-privileges" ∷ "--cap-drop" ∷ "ALL" ∷ []
    ok (limited ++ (security ++ (add_hosts known_mining_pool_domains ++ pool)))

-- The arguments as texts: `subprocess.run` raises a `TypeError` for another value.
unfoldable pub texts_of : List Value → Result (List String)
texts_of [] = ok []
texts_of (str s ∷ vs) = let rest = texts_of vs in do texts ← rest; ok (s ∷ texts)
texts_of (v ∷ vs) = raise type_error
