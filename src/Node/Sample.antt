-- ===== src/Node/Sample.antt =====
-- A configuration for the tests.
use computecloud_node.Prelude.{true, false, none, some, []}
use computecloud_node.Prelude.Int.{pos}
use computecloud_node.Python.{int}
use computecloud_node.Config.{NodeConfig}

abbrev pub config : NodeConfig
config = record {
  server_host = "localhost";
  server_port = pos 50051;
  api_key = none;
  node_id = some "n";
  endpoint = some "127.0.0.1:50051";
  tags = [];
  capabilities = record {
    cpu_cores = int (pos 4);
    memory_mb = pos 4096;
    gpu_count = pos 0;
    disk_mb = pos 8192;
    gpu_model = none;
    vram_mb = pos 0;
    llm_capable = false;
  };
  max_concurrent_tasks = pos 4;
  heartbeat_interval_seconds = int (pos 10);
  poll_interval_seconds = int (pos 1);
  use_tls = false;
  use_http = true;
  http_base_url = "";
  username = "";
  password = "";
  workbench_executor = "auto";
}
