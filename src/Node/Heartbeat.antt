-- ===== src/Node/Heartbeat.antt =====
-- src/computecloud_node/node.py: the heartbeat loops over HTTP and over gRPC. `ℕ` counts the rounds that
-- are run: the loops have no other end than the stop event. Every exception of a round is caught, and
-- the log is not modelled.
pub mod Reregistration
mod Tests
use computecloud_node.Prelude.{
  ℕ, zero, suc, Bool, true, false, Option, none, some, List, [], ◌∷◌, not, if◌then◌else◌,
}
use computecloud_node.Python.{Result, ok, raise, Value, obj, Fields, truthy}
use computecloud_node.Python.Dict.{get}
use computecloud_node.Config.{NodeConfig}
use computecloud_node.Node.{json_of}
use computecloud_node.Node.Transport.{NodeRequest, register, heartbeat, register_body, Pool}

-- The test of the body: `true` asks for a registration. A body that is no dict raises.
abbrev pub is_unacknowledged : Result Value → Bool
is_unacknowledged (ok (obj body)) = not (truthy (get "acknowledged" body))
is_unacknowledged _ = false

module _ (pool : Pool) (config : NodeConfig) (node_id : Value) where
  abbrev pub beat : List NodeRequest → List NodeRequest
  beat sent = heartbeat node_id ∷ sent

  -- `_register`; the reply changes nothing of the node here.
  abbrev pub registration : NodeRequest
  registration = register (register_body config node_id)

  -- One round of `_heartbeat_loop_http`.
  unfoldable pub heartbeat_round : List NodeRequest → List NodeRequest
  unfolding register_body
  heartbeat_round sent =
      if is_unacknowledged (json_of pool.is_success (pool.answer (beat sent)))
      then registration ∷ beat sent
      else beat sent

  -- `_heartbeat_loop_http`
  unfoldable pub heartbeat_loop_http : ℕ → List NodeRequest → List NodeRequest
  unfolding heartbeat_round
  heartbeat_loop_http zero sent = sent
  heartbeat_loop_http (suc rounds) sent =
      let rest = heartbeat_loop_http rounds (heartbeat_round sent) in
      if pool.stopped sent then sent else rest

-- How a call of gRPC ends: an answer, the status NOT_FOUND, or another exception.
pub data Rpc : Type 0 where
  answered not_found failed : Rpc

pub data RpcRequest : Type 0 where
  register_node send_heartbeat : RpcRequest

-- The pool over gRPC.
pub record RpcPool : Type 0 where
  pub answer : List RpcRequest → Rpc
  pub stopped : List RpcRequest → Bool

module _ (pool : RpcPool) where
  abbrev pub after_heartbeat : Rpc → List RpcRequest → List RpcRequest
  after_heartbeat not_found sent = register_node ∷ sent
  after_heartbeat _ sent = sent

  -- One round of `_heartbeat_loop_grpc`. Whatever the registration gives is only logged.
  unfoldable pub heartbeat_round_grpc : List RpcRequest → List RpcRequest
  heartbeat_round_grpc sent =
      after_heartbeat (pool.answer (send_heartbeat ∷ sent)) (send_heartbeat ∷ sent)

  -- `_heartbeat_loop_grpc`
  unfoldable pub heartbeat_loop_grpc : ℕ → List RpcRequest → List RpcRequest
  unfolding heartbeat_round_grpc
  heartbeat_loop_grpc zero sent = sent
  heartbeat_loop_grpc (suc rounds) sent =
      let rest = heartbeat_loop_grpc rounds (heartbeat_round_grpc sent) in
      if pool.stopped sent then sent else rest
