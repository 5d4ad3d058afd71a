-- ===== src/Lib.antt =====
-- The ComputeCloud node client: a Python program that registers a computer with a coordinating
-- server, pulls tasks and interactive sessions from it, runs them, and reports what came of them.
--
-- The parts and where they are modelled. Every path is below src/computecloud_node/.
--
--   Prelude     what the files share: numbers, lists, texts, integers, and the lemmas on them. Int
--               is ℤ over the native ℕ, Equality the classes of decidable tests.
--   Python      the Python the program is written in. Errors: `Result`, whose `raise` names the
--               exception. Data: the values of JSON, with dicts in the order of their insertion
--               (Dict), and the conversions `int(x)`, `str.strip` and others (Convert, Text).
--               Base64 and Struct: base64.b64encode and b64decode, and the format q of struct.
--               Float: floats are a type with the operations the program uses. Effect: a call that
--               changes a state and returns or raises, with the state after it.
--   Tensor      tensor_format.py. `TensorPayload` and its methods, `_flatten`, `_reshape`,
--               `_infer_shape`, `_prod`, `_validate_shape`.
--   Pipeline    pipeline_executor.py. The layer transform, `PipelineShardExecutor.execute` and
--               `LocalPipelineRunner.run` with its check of the order of shards.
--   HfUri       hf_uri.py. `parse_hf_uri` and `build_hf_uri`.
--   Llm         llm/. KvCache is the cache of `LLMShardExecutor` in llm/executor.py: a dict and a
--               list of keys in order of use, under a cap. Executor is the rest of that class:
--               Input prepares the input of a shard, Shard runs it and packs its output (`execute`,
--               `_run_shard`, `_prepare_and_run`), Tensors converts tensors. Weights is
--               `keys_for_shard` of llm/weights.py, Hub its `HFWeightsSource`, Local its
--               `LocalWeightsSource`, Loader its `ShardWeightsLoader`. ModelShard is
--               `load_state_dict` of llm/model_shard.py, its child Forward `forward` (Generation has
--               the passes of a model in two shards), and Uri is llm/uri.py.
--   Security    security_monitor.py. `SecurityMonitor`: the scan of a container for names of
--               miners, for suspicious processes, and for a processor that stays busy.
--   Commands    docker_executor.py (Docker, Hardening, Daemon) and local_executor.py (Local): from a
--               specification of a task to the arguments of a process, and to its result; Daemon is
--               the probe of the Docker daemon and `ensure_docker_running`.
--   Exchange    pipeline_worker.py (PipelineWorker, Polling, Posting, Shards), data_worker.py
--               (DataWorker) and shard_executor_adapter.py (Routing): a shard polls the server for
--               its input, computes, posts its output, and reports.
--   Config      config.py. `NodeCapabilities`, `NodeConfig` and its `__post_init__`.
--   Node        node.py without its sessions: `_register_http`, `_poll_once`, the tasks in flight;
--               Transport has the requests, Heartbeat the heartbeat loops over HTTP and gRPC,
--               Running the loop of `run` from the registration to `_stop`, Grpc the tasks over gRPC.
--   CommandLine __main__.py. `_resolve_executor` with the executors that it gives,
--               `_maybe_autostart_docker`, and `main` from the parsed arguments on.
--   Workbench   workbench_executor.py. `DockerWorkbenchExecutor`: Command has the options and the
--               startup script, Start has `start_session`, and the parent the processes it runs.
--               Native is `NativeWorkbenchExecutor` with the factory, Probe the probes of the service
--               and of Docker.
--   Session     the sessions of node.py: `_session_poll_once`, `_run_session_container` (Running),
--               `_verify_and_heal_session` (in the parent), the alerts of the security monitor, and
--               `_run_tunnel` (Tunnel). Docker is `DockerWorkbenchExecutor` as the executor of a session.
--
-- How they interact. CommandLine makes a configuration and an executor, and starts a node with
-- them. Node registers, pulls a task and hands it to an executor; Exchange.Routing is that executor
-- over HTTP, which chooses between a data shard, a pipeline shard, an LLM shard and the executor of
-- commands. A pipeline shard of Exchange runs `Pipeline.execute` between its poll and its post. An LLM
-- shard opens a source of weights, loads the keys of its layers into a module, and runs it with what
-- the cache holds of the run. Session runs a container with an executor that it is given, as
-- Session.Docker makes one of Workbench, and scans it with Security when a round asks for it. Its tunnel
-- passes data on between the server and the container.
--
-- State and control. An object of Python is a record, a method a function from the state to the
-- state and its result; what raises gives a `Result`. The world outside (the server, the clock,
-- docker, processes, files) is a record of functions over a state of their own, an argument of the
-- definitions that use it: `Net` in Exchange, `Machine` and `NativeMachine` in Workbench, `Daemon` in
-- Commands, `Workbench` in Session, `Torch` and `Tools` in Llm.Executor. In Node the pool is a function
-- from the requests that were sent to its answer.
-- What docker answers a scan of Security is an argument of the scan. The order of polls and of ends
-- of tasks is a step relation in Node, since each task runs in a thread of its own.
-- The pumps of a tunnel go on with a sequence of events, which is any that they wait for.
--
-- Integers of Python are ℤ without a bound, and lengths and counts are the native ℕ. Times are
-- whole milliseconds. A text is a string, or the list of its code points where the program walks
-- it.
--
-- Fuel. The polls of Exchange and the waits for a port in Workbench and for the daemon in Commands go
-- round on fuel that is the time left before the deadline: enough where the clock advances by the sleep
-- of each round. The stack of `_flatten` goes on the number of nodes of the nested list, the digits of a
-- number on its value, `evict_loop` of the cache on the list of keys, since each round drops one, and a
-- loop with a count of attempts on that count. The loop of `run` and the heartbeats go round for the
-- number of rounds they are given, since only the stop event ends them: a round of `run` sends a request
-- at least. Its `_stop` then waits for the tasks of the thread pool, and whether each comes to its end is
-- a parameter. The main loop of a session goes round for the list of rounds it is given.
--
-- Not modelled: the layers of llm/model_shard.py, which are torch, and its configuration, the
-- tokenizer, the channel of gRPC of node.py, argparse, notebooks, demos and tests. Texts of log
-- messages and most texts of errors are left out. SHA-256, JSON, floats, torch, safetensors, urllib,
-- processes, sockets, websockets and the HTTP client are parameters.
pub mod Prelude
pub mod Python
pub mod Tensor
pub mod Pipeline
pub mod HfUri
pub mod Llm
pub mod Security
pub mod Commands
pub mod Exchange
pub mod Config
pub mod Node
pub mod CommandLine
pub mod Session
pub mod Workbench
