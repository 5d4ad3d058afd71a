-- ===== src/Node/Running/Advertising.antt =====
-- What the node tells the pool of its executor.
use computecloud_node.Prelude.{◌≡◌, refl, Bool, true, false, ◌&&◌}
use computecloud_node.Python.{Value, bool}
use computecloud_node.Python.Dict.{get, lookup}
use computecloud_node.Config.{NodeConfig}
use computecloud_node.Node.Transport.{register_body}
use computecloud_node.Node.Running.{Wiring, given, shard_aware, with_llm, connected_client}

-- Whether the executor takes LLM shards.
abbrev pub has_llm : Wiring → Bool
has_llm given = false
has_llm (shard_aware llm) = llm

-- A node whose configuration claims no LLM capability registers as capable of LLM shards if and only if
-- the executor that it has wired routes them to an LLM executor.
pub register_body-has_llm :
    (config : NodeConfig) (node_id : Value) (enable_pipeline probed : Bool)
    → config.capabilities.llm_capable ≡ false
    → get "llm_capable" (register_body (with_llm (enable_pipeline && probed) config) node_id)
      ≡ bool (has_llm (connected_client config node_id enable_pipeline probed).executor)
unfolding register_body connected_client lookup
register_body-has_llm config node_id false probed plain = rw plain
register_body-has_llm config node_id true false plain = rw plain
register_body-has_llm config node_id true true plain = refl
