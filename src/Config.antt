-- ===== src/Config.antt =====
-- src/computecloud_node/config.py: `NodeCapabilities` and `NodeConfig`. The host name, the random suffix
-- and the address of a host are arguments.
use computecloud_node.Prelude.{String, ◌<>◌, Bool, Option, none, some, List}
use computecloud_node.Prelude.Int.{ℤ}
use computecloud_node.Python.{Value, decimal_ℤ}

pub record NodeCapabilities : Type 0 where
  pub cpu_cores : Value
  pub memory_mb : ℤ
  pub gpu_count : ℤ
  pub disk_mb : ℤ
  pub gpu_model : Option String
  pub vram_mb : ℤ
  pub llm_capable : Bool

pub record NodeConfig : Type 0 where
  pub server_host : String
  pub server_port : ℤ
  pub api_key : Option String
  pub node_id : Option String
  pub endpoint : Option String
  pub tags : List String
  pub capabilities : NodeCapabilities
  pub max_concurrent_tasks : ℤ
  pub heartbeat_interval_seconds : Value
  pub poll_interval_seconds : Value
  pub use_tls : Bool
  pub use_http : Bool
  pub http_base_url : String
  pub username : String
  pub password : String
  pub workbench_executor : String

-- `socket.gethostname`, `secrets.token_hex(4)`, and `socket.gethostbyname`, `none` where it raises.
pub record Host : Type 0 where
  pub gethostname : String
  pub token_hex : String
  pub gethostbyname : String → Option String

module _ (host : Host) where
  abbrev pub id_or_new : Option String → String
  id_or_new none = host.gethostname <> ("-" <> host.token_hex)
  id_or_new (some node_id) = node_id

  abbrev pub local_ip : Option String → String
  local_ip none = "127.0.0.1"
  local_ip (some ip) = ip

  abbrev pub endpoint_or_local : ℤ → Option String → String
  endpoint_or_local port none =
      local_ip (host.gethostbyname host.gethostname) <> (":" <> decimal_ℤ port)
  endpoint_or_local port (some endpoint) = endpoint

  -- `__post_init__`
  unfoldable pub post_init : NodeConfig → NodeConfig
  post_init config = record config {
    node_id = some (id_or_new config.node_id);
    endpoint = some (endpoint_or_local config.server_port config.endpoint);
  }
