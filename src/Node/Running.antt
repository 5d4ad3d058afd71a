-- ===== src/Node/Running.antt =====
-- src/computecloud_node/node.py: `run`, from the registration to `_stop`, in HTTP mode. The threads
-- of tasks and sessions are a parameter, with what they leave between two rounds and whether a task
-- comes to its end. `ℕ` counts the rounds, since the loop has no other end than the stop event.
pub mod Advertising
pub mod Shutdown
mod Tests
use computecloud_node.Prelude.{
  ℕ, zero, suc, String, Bool, true, false, Option, none, some, List, [], ◌∷◌, ◌++◌, leb, ◌&&◌, ◌||◌,
  not, all, if◌then◌else◌,
}
use computecloud_node.Prelude.Int.{ℤ, pos, pos_part}
use computecloud_node.Python.{Result, ok, raise, Value, str, Fields}
use computecloud_node.Config.{NodeCapabilities, NodeConfig}
use computecloud_node.Node.{Node, poll_once, connect_and_register, submitted}
use computecloud_node.Node.Transport.{
  NodeRequest, register, pull, session_pull, register_body, Pool,
}
use computecloud_node.Session.Running.{session_poll_once}

-- The executor of a `ComputeNode`: the one that it was given, or the one that routes shards around it,
-- with an executor of LLM shards or without one.
pub data Wiring : Type 0 where
  given : Wiring
  shard_aware : Bool → Wiring

-- The fields of `ComputeNode` that `run` uses. `active` are the keys of `_active_sessions`, `tasks` and
-- `sessions` what was handed to threads, and `sent` the requests, the last first.
pub record Client : Type 0 where
  pub node : Node
  pub executor : Wiring
  pub active : List String
  pub tasks : List Fields
  pub sessions : List Fields
  pub sent : List NodeRequest
  pub running : Bool
  pub has_exec_pool : Bool
  pub http_open : Bool

-- The wiring of `_connect_and_register` over HTTP. `probed` is `probe_llm_capable()`.
abbrev pub wired : Bool → Bool → Wiring
wired enable_pipeline probed = if enable_pipeline then shard_aware probed else given

abbrev pub with_llm : Bool → NodeConfig → NodeConfig
with_llm found config = record config {
  capabilities = record config.capabilities {
    llm_capable = found || config.capabilities.llm_capable;
  };
}

-- `ComputeNode.__init__`, with the client of `_connect_and_register` and the executor that it wires.
unfoldable pub connected_client : NodeConfig → Value → Bool → Bool → Client
connected_client config node_id enable_pipeline probed = record {
  node = record {
    node_id = node_id;
    max_concurrent_tasks = pos_part config.max_concurrent_tasks;
    tasks_in_flight = 0;
  };
  executor = wired enable_pipeline probed;
  active = [];
  tasks = [];
  sessions = [];
  sent = [];
  running = false;
  has_exec_pool = false;
  http_open = true;
}

-- The registration request.
unfoldable pub registration_of : NodeConfig → Value → Bool → Bool → NodeRequest
unfolding register_body
registration_of config node_id enable_pipeline probed =
    register (register_body (with_llm (enable_pipeline && probed) config) node_id)

-- What the threads of tasks and of sessions leave of the count of tasks in flight and of the keys of
-- `_active_sessions`, by the requests that were sent; and whether the thread that runs a task comes to
-- its end.
pub record Threads : Type 0 where
  pub in_flight : List NodeRequest → ℕ → ℕ
  pub active : List NodeRequest → List String → List String
  pub ends : Fields → Bool

-- `_stop`. `shutdown(wait=True)` waits for every task that the thread pool was given; `none` is a wait
-- for a task that does not come to its end.
unfoldable pub close : Threads → Client → Option Client
close threads c =
    if c.has_exec_pool && not (all threads.ends c.tasks)
    then none
    else some (record c { running = false; has_exec_pool = false; http_open = false })

module _ (pool : Pool) (threads : Threads) where
  -- The node at the start of a round.
  abbrev pub current : Client → Client
  current c = record c {
    node = record c.node { tasks_in_flight = threads.in_flight c.sent c.node.tasks_in_flight };
    active = threads.active c.sent c.active;
  }

  -- The request of `_poll_once`: none where the node is full.
  abbrev pub pull_sent : Client → List NodeRequest
  pull_sent c =
      if leb c.node.max_concurrent_tasks c.node.tasks_in_flight
      then c.sent
      else pull c.node.node_id ∷ c.sent

  abbrev pub is_submitted : Option Fields → Bool
  is_submitted none = false
  is_submitted (some task) = true

  -- What `_poll_once` leaves of the client.
  abbrev pub polled : Result (Option Fields) × Node → Client → Result (Unit {0}) × Client
  polled (raise exc, n) c = (raise exc, c)
  polled (ok task, n) c = (
    ok tt,
    record c {
      node = n;
      tasks = c.tasks ++ submitted task;
      has_exec_pool = is_submitted task || c.has_exec_pool;
    },
  )

  -- `_poll_once`
  unfoldable pub poll : Client → Result (Unit {0}) × Client
  unfolding poll_once
  poll c =
      let sent = pull_sent c in
      polled (poll_once pool.is_success (pool.answer sent) c.node) (record c { sent = sent })

  -- What `_session_poll_once` leaves of it.
  abbrev pub session_polled : Result (Option Fields) → Client → Result (Unit {0}) × Client
  session_polled (raise exc) c = (raise exc, c)
  session_polled (ok session) c = (ok tt, record c { sessions = c.sessions ++ submitted session })

  -- `_session_poll_once`
  unfoldable pub session_poll : Client → Result (Unit {0}) × Client
  unfolding session_poll_once
  session_poll c =
      let sent = session_pull c.node.node_id ∷ c.sent in
      session_polled (session_poll_once pool.is_success (pool.answer sent) c.active)
        (record c { sent = sent })

  abbrev pub then_sessions : Result (Unit {0}) × Client → Result (Unit {0}) × Client
  then_sessions (raise exc, c) = (raise exc, c)
  then_sessions (ok done, c) = session_poll c

  -- The two calls of a round.
  unfoldable pub run_round : Client → Result (Unit {0}) × Client
  unfolding poll session_poll
  run_round c = then_sessions (poll (current c))

  abbrev pub Outcome : Type 0
  Outcome = Option (Result (Unit {0}) × Client)

  -- `finally` closes the client.
  abbrev pub closed : Result (Unit {0}) → Option Client → Outcome
  closed result none = none
  closed result (some c) = some (result, c)

  -- A round that raises ends the loop.
  abbrev pub go_on : (Client → Outcome) → Result (Unit {0}) × Client → Outcome
  go_on loop (raise exc, c) = closed (raise exc) (close threads c)
  go_on loop (ok done, c) = loop c

  -- The loop of `run` with its `finally`; `none` is a loop that goes on, or a client that
  -- does not close.
  unfoldable pub node_loop : ℕ → Client → Outcome
  unfolding run_round close
  node_loop zero c = none
  node_loop (suc rounds) c =
      let rest = go_on (λ c'. node_loop rounds c') (run_round c) in
      if pool.stopped c.sent then closed (ok tt) (close threads c) else rest

  -- What follows the registration: a registration that raises leaves `run` before its `try`.
  abbrev pub run_registered : ℕ → Result Node → Client → Outcome
  run_registered rounds (raise exc) c = some (raise exc, c)
  run_registered rounds (ok n) c = node_loop rounds (record c { node = n; running = true })

  -- `run`
  unfoldable pub run : ℕ → NodeConfig → Value → Bool → Bool → Outcome
  unfolding connected_client registration_of node_loop connect_and_register
  run rounds config node_id enable_pipeline probed =
      let c = connected_client config node_id enable_pipeline probed in
      let sent = registration_of config node_id enable_pipeline probed ∷ [] in
      run_registered rounds (connect_and_register pool.is_success (pool.answer sent) c.node)
        (record c { sent = sent })
