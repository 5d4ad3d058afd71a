-- ===== src/Llm/Weights/Tests.antt =====
-- A model of three layers in two shards.
use computecloud_node.Prelude.{ℕ, ◌≡◌, refl, true, false, List, [], ◌∷◌, map, arith}
use computecloud_node.Prelude.Int.{pos}
use computecloud_node.Python.{codes}
use computecloud_node.Python.Text.{same_text}
use computecloud_node.Llm.Weights.{keys_for_shard, selected, layer_of}
use computecloud_node.Llm.Weights.Shards.{
  occurrences, load_shards, last_layer, load_shards-keys_for_shard,
}

abbrev keys : List (List ℕ)
keys = map codes (
    "model.embed_tokens.weight" ∷ "model.layers.0.mlp.weight" ∷ "model.layers.1.mlp.weight"
    ∷ "model.layers.12.mlp.weight" ∷ "model.norm.weight" ∷ "lm_head.weight" ∷ [])

first_shard :
    keys_for_shard (pos 0) (pos 2) true false keys
    ≡ map codes (
        "model.embed_tokens.weight" ∷ "model.layers.0.mlp.weight" ∷ "model.layers.1.mlp.weight"
        ∷ [])
unfolding keys_for_shard selected layer_of same_text
first_shard = refl

load_shards-keys_for_shard_example :
    occurrences (codes "model.norm.weight") (load_shards true (pos 0) (pos 2 ∷ pos 13 ∷ []) keys)
    ≡ occurrences
        (codes "model.norm.weight")
        (keys_for_shard (pos 0) (last_layer (pos 0) (pos 2 ∷ pos 13 ∷ [])) true true keys)
load_shards-keys_for_shard_example =
    load_shards-keys_for_shard (codes "model.norm.weight") true (pos 0) (pos 2) (pos 13 ∷ []) keys
      (omega arith)
