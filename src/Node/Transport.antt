-- ===== src/Node/Transport.antt =====
-- src/computecloud_node/node.py: the requests that the node sends to the pool. A run is a list of
-- requests, the last first; what the pool answers is a function of that list.
use computecloud_node.Prelude.{
  ℕ, String, ◌<>◌, Bool, Option, none, some, List, [], ◌∷◌, ◌&&◌, not, str_eq, if◌then◌else◌,
}
use computecloud_node.Python.{
  Value, bool, int, str, arr, Items, nil, cons, Fields, empty, entry, truthy,
}
use computecloud_node.Python.Runtime.{Runtime, to_str}
use computecloud_node.Exchange.{Response}
use computecloud_node.Config.{NodeConfig}

-- A request, with the identifier of the node that it names.
pub data NodeRequest : Type 0 where
  register : Fields → NodeRequest
  heartbeat pull session_pull : Value → NodeRequest

-- The address of a request.
unfoldable pub request_url : Runtime → NodeRequest → String
request_url rt (register body) = "/api/v1/node/register"
request_url rt (heartbeat node_id) = "/api/v1/node/" <> (to_str rt node_id <> "/heartbeat")
request_url rt (pull node_id) = "/api/v1/node/" <> (to_str rt node_id <> "/pull")
request_url rt (session_pull node_id) = "/api/v1/node/" <> (to_str rt node_id <> "/session/pull")

-- `v or ""`
abbrev pub or_blank : Value → Value
or_blank v = if truthy v then v else str ""

abbrev pub text_or_blank : Option String → Value
text_or_blank none = str ""
text_or_blank (some s) = str s

unfoldable pub texts : List String → Items
texts [] = nil
texts (s ∷ ss) = cons (str s) (texts ss)

-- The account, if both parts of it are given.
abbrev pub account : NodeConfig → Fields
account config =
    if not (str_eq config.username "") && not (str_eq config.password "")
    then entry "username" (str config.username) (entry "password" (str config.password) empty)
    else empty

-- The body of `_register_http`.
unfoldable pub register_body : NodeConfig → Value → Fields
unfolding texts
register_body config node_id =
    let caps = config.capabilities in
    entry "node_id" (or_blank node_id) (
      entry "endpoint" (text_or_blank config.endpoint) (
        entry "tags" (arr (texts config.tags)) (
          entry "cpu_cores" caps.cpu_cores (
            entry "memory_mb" (int caps.memory_mb) (
              entry "gpu_count" (int caps.gpu_count) (
                entry "disk_mb" (int caps.disk_mb) (
                  entry "gpu_model" (text_or_blank caps.gpu_model) (
                    entry "max_concurrent_tasks" (int config.max_concurrent_tasks) (
                      entry "vram_mb" (int caps.vram_mb)
                        (entry "llm_capable" (bool caps.llm_capable) (account config)))))))))))

-- The pool: the response to the last of the requests, and whether the stop event is set after them.
-- `none` is an exception that the client raises. `is_success` is the test of
-- `Response.raise_for_status`.
pub record Pool : Type 0 where
  pub answer : List NodeRequest → Option Response
  pub stopped : List NodeRequest → Bool
  pub is_success : ℕ → Bool
