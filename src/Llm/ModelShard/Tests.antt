-- ===== src/Llm/ModelShard/Tests.antt =====
-- Loading at concrete data: a tensor is a list of integers, and its shape is its length.
use computecloud_node.Prelude.{ℕ, ◌≡◌, refl, true, false, List, [], ◌∷◌, all, length}
use computecloud_node.Prelude.Equality.{lookup, insert, text_eq}
use computecloud_node.Prelude.Int.{pos, ◌-ℤ◌}
use computecloud_node.Python.{ok, raise, value_error, codes, decimal_ℤ}
use native.Mathlib.Decide.{ℕ_discrete}
use computecloud_node.Python.Text.{starts_with}
use computecloud_node.Llm.Weights.{keys_for_shard}
use computecloud_node.Llm.ModelShard.{
  read_index, read_line, match_layer, renamed, local_key, copy_into, load_one, load_loop,
  load_state_dict,
}
use computecloud_node.Llm.ModelShard.Loading.{
  is_some, shapes, load_state_dict-shapes, local_key-keys_for_shard,
}

abbrev shape : List ℕ → List ℕ
shape t = length t ∷ []

-- The module of the layers 2 and 3.
abbrev own : List (List ℕ × List ℕ)
own = (codes "layers.0.w", 0 ∷ 0 ∷ []) ∷ (codes "norm.weight", 0 ∷ []) ∷ []

abbrev state_dict : List (List ℕ × List ℕ)
state_dict = (codes "model.layers.2.w", 1 ∷ 2 ∷ []) ∷ (codes "model.layers.4.w", 3 ∷ []) ∷ []

abbrev wrong : List (List ℕ × List ℕ)
wrong = (codes "model.norm.weight", 7 ∷ []) ∷ (codes "model.layers.2.w", 1 ∷ []) ∷ []

loads : load_state_dict shape (pos 2) (pos 4) state_dict own ≡ (
  ok (codes "layers.0.w" ∷ []),
  (codes "layers.0.w", 1 ∷ 2 ∷ []) ∷ (codes "norm.weight", 0 ∷ []) ∷ [],
)
unfolding load_state_dict match_layer read_index read_line starts_with renamed local_key copy_into
    load_one load_loop lookup insert text_eq ◌-ℤ◌ ℕ_discrete decimal_ℤ
loads = refl

-- The tensor before the wrong one is loaded.
refuses :
    load_state_dict shape (pos 2) (pos 4) wrong own
    ≡ (raise value_error, (codes "layers.0.w", 0 ∷ 0 ∷ []) ∷ (codes "norm.weight", 7 ∷ []) ∷ [])
unfolding load_state_dict match_layer read_index read_line starts_with renamed local_key copy_into
    load_one load_loop lookup insert text_eq ◌-ℤ◌ ℕ_discrete decimal_ℤ
refuses = refl

load_state_dict-shapes_example :
    shapes shape (load_state_dict shape (pos 2) (pos 4) wrong own).1 ≡ shapes shape own
load_state_dict-shapes_example = load_state_dict-shapes shape (pos 2) (pos 4) wrong own

local_key-keys_for_shard_example :
    all
      (λ key. is_some (local_key (pos 2) (pos 4) key))
      (keys_for_shard
        (pos 2)
        (pos 4)
        false
        true
        (codes "model.layers.2.w" ∷ codes "model.layers.4.w" ∷ codes "lm_head.weight" ∷ []))
    ≡ true
local_key-keys_for_shard_example =
    local_key-keys_for_shard (pos 2) (pos 4) false true
      (codes "model.layers.2.w" ∷ codes "model.layers.4.w" ∷ codes "lm_head.weight" ∷ [])
