-- ===== src/Llm/Loader.antt =====
-- `WeightsSource` and `ShardWeightsLoader` of src/computecloud_node/llm/weights.py. A source acts on a
-- world that is a parameter.
use computecloud_node.Prelude.{ℕ, Bool, List, [], ◌∷◌, Option}
use computecloud_node.Prelude.Equality.{insert, text_eq}
use computecloud_node.Prelude.Int.{ℤ}
use computecloud_node.Python.{ok, Fields}
use computecloud_node.Python.Effect.{Effect, ◌>>=◌, lift}
use computecloud_node.Llm.Weights.{keys_for_shard}

-- The protocol of a source. `none` is a tokenizer that is not there.
pub record WeightsSource (W T : Type 0) : Type 0 where
  pub list_keys : Effect W (List (List ℕ))
  pub get_tensor : List ℕ → Effect W T
  pub get_config : Effect W Fields
  pub get_tokenizer_path : Effect W (Option (List ℕ))

module _ {W T : Type 0} (source : WeightsSource W T) where
  -- `{k: self._source.get_tensor(k) for k in wanted}`
  unfoldable pub load_wanted : List (List ℕ) → List (List ℕ × T) → Effect W (List (List ℕ × T))
  load_wanted [] loaded = lift (ok loaded)
  load_wanted (key ∷ wanted) loaded = do
    tensor ← source.get_tensor key
    load_wanted wanted (insert key tensor loaded)

  -- `load_shard`
  unfoldable pub load_shard : ℤ → ℤ → Bool → Bool → Effect W (List (List ℕ × T))
  unfolding load_wanted
  load_shard start_layer end_layer is_first is_last = do
    all_keys ← source.list_keys
    load_wanted (keys_for_shard start_layer end_layer is_first is_last all_keys) []
