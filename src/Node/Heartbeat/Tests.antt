-- ===== src/Node/Heartbeat/Tests.antt =====
-- The heartbeat loops against small pools.
use computecloud_node.Prelude.{◌≡◌, refl, false, some, [], ◌∷◌, ◌==◌, leb, length, arith}
use computecloud_node.Python.{ok, raise, other_error, bool, str, obj, empty, entry, truthy}
use computecloud_node.Python.Dict.{lookup}
use computecloud_node.Exchange.{Response}
use computecloud_node.Node.Heartbeat.{
  not_found, RpcPool, registration, heartbeat_loop_http, heartbeat_loop_grpc,
}
use computecloud_node.Node.Heartbeat.Reregistration.{
  beats, registrations, heartbeat_loop_http-heartbeat_loop_grpc,
}
use computecloud_node.Node.Sample.{config}
use computecloud_node.Node.Transport.{heartbeat, Pool}

-- A pool that answers 404.
abbrev lost : Pool
lost = record {
  answer = λ sent. some (record { status_code = 404; body = raise other_error });
  stopped = λ sent. false;
  is_success = λ code. code == 200;
}

-- A pool that does not acknowledge, and that stops the node after two requests.
abbrev forgetful : Pool
forgetful = record {
  answer = λ sent.
      some
        (record { status_code = 200; body = ok (obj (entry "acknowledged" (bool false) empty)) });
  stopped = λ sent. leb 2 (length sent);
  is_success = λ code. code == 200;
}

abbrev rpc_lost : RpcPool
rpc_lost = record { answer = λ sent. not_found; stopped = λ sent. false }

registers_again :
    heartbeat_loop_http forgetful config (str "n") 5 []
    ≡ registration forgetful config (str "n") ∷ heartbeat (str "n") ∷ []
unfolding heartbeat_loop_http lookup truthy
registers_again = refl

status : (r : Response) → lost.answer [] ≡ some r → lost.is_success r.status_code ≡ false
status r e = ground (arith, e)

heartbeat_loop_http-heartbeat_loop_grpc_example :
    (heartbeat_loop_http lost config (str "n") 3 [] ≡ beats (str "n") 3 [])
    × (heartbeat_loop_grpc rpc_lost 3 [] ≡ registrations 3 [])
heartbeat_loop_http-heartbeat_loop_grpc_example =
    heartbeat_loop_http-heartbeat_loop_grpc lost rpc_lost config (str "n") 3 (λ sent. refl)
      (λ sent. status) (λ sent. refl) (λ sent. refl)
