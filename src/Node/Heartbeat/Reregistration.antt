-- ===== src/Node/Heartbeat/Reregistration.antt =====
-- When the heartbeat loops register the node again.
use computecloud_node.Prelude.{
  ℕ, zero, suc, ◌≡◌, refl, Bool, false, Option, none, some, List, [], ◌∷◌,
}
use computecloud_node.Python.{Value}
use computecloud_node.Exchange.{Response}
use computecloud_node.Config.{NodeConfig}
use computecloud_node.Node.{json_of}
use computecloud_node.Node.Transport.{NodeRequest, heartbeat, Pool}
use computecloud_node.Node.Heartbeat.{
  is_unacknowledged, heartbeat_round, heartbeat_loop_http, not_found, RpcRequest, register_node,
  send_heartbeat, RpcPool, heartbeat_round_grpc, heartbeat_loop_grpc,
}

-- `n` heartbeats after `sent`.
abbrev pub beats : Value → ℕ → List NodeRequest → List NodeRequest
beats node_id zero sent = sent
beats node_id (suc n) sent = beats node_id n (heartbeat node_id ∷ sent)

-- `n` heartbeats after `sent`, each with a registration.
abbrev pub registrations : ℕ → List RpcRequest → List RpcRequest
registrations zero sent = sent
registrations (suc n) sent = registrations n (register_node ∷ send_heartbeat ∷ sent)

unacknowledged_refused :
    (is_success : ℕ → Bool) (answer : Option Response)
    → ((r : Response) → answer ≡ some r → is_success r.status_code ≡ false)
    → is_unacknowledged (json_of is_success answer) ≡ false
unacknowledged_refused is_success none refused = refl
unacknowledged_refused is_success (some r) refused = rw (refused r refl)

loop_http :
    (pool : Pool) (config : NodeConfig) (node_id : Value) (rounds : ℕ) (sent : List NodeRequest)
    → ((requests : List NodeRequest) → pool.stopped requests ≡ false)
    → ((requests : List NodeRequest) (r : Response)
        → pool.answer requests ≡ some r
        → pool.is_success r.status_code ≡ false)
    → heartbeat_loop_http pool config node_id rounds sent ≡ beats node_id rounds sent
unfolding heartbeat_loop_http heartbeat_round
loop_http pool config node_id zero sent running refused = refl
loop_http pool config node_id (suc rounds) sent running refused =
    let requests = heartbeat node_id ∷ sent in
    rw (
      running sent,
      unacknowledged_refused pool.is_success (pool.answer requests) (refused requests),
      loop_http pool config node_id rounds requests running refused,
    )

loop_grpc :
    (pool : RpcPool) (rounds : ℕ) (sent : List RpcRequest)
    → ((requests : List RpcRequest) → pool.stopped requests ≡ false)
    → ((requests : List RpcRequest) → pool.answer (send_heartbeat ∷ requests) ≡ not_found)
    → heartbeat_loop_grpc pool rounds sent ≡ registrations rounds sent
unfolding heartbeat_loop_grpc heartbeat_round_grpc
loop_grpc pool zero sent running lost = refl
loop_grpc pool (suc rounds) sent running lost = rw (
  running sent,
  lost sent,
  loop_grpc pool rounds (register_node ∷ send_heartbeat ∷ sent) running lost,
)

-- A pool that has lost the node, while the stop event is not set. Over HTTP, where every request gets
-- an error status or no response, the heartbeat loop sends one heartbeat in each round and never
-- registers the node again. Over gRPC, where every heartbeat gets NOT_FOUND, it registers the node again
-- in each round.
pub heartbeat_loop_http-heartbeat_loop_grpc :
    (pool : Pool) (rpc_pool : RpcPool) (config : NodeConfig) (node_id : Value) (rounds : ℕ)
    → ((requests : List NodeRequest) → pool.stopped requests ≡ false)
    → ((requests : List NodeRequest) (r : Response)
        → pool.answer requests ≡ some r
        → pool.is_success r.status_code ≡ false)
    → ((requests : List RpcRequest) → rpc_pool.stopped requests ≡ false)
    → ((requests : List RpcRequest) → rpc_pool.answer (send_heartbeat ∷ requests) ≡ not_found)
    → (heartbeat_loop_http pool config node_id rounds [] ≡ beats node_id rounds [])
      × (heartbeat_loop_grpc rpc_pool rounds [] ≡ registrations rounds [])
heartbeat_loop_http-heartbeat_loop_grpc pool rpc_pool config node_id rounds running refused
      rpc_running lost =
    (
      loop_http pool config node_id rounds [] running refused,
      loop_grpc rpc_pool rounds [] rpc_running lost,
    )
