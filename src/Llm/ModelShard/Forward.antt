-- ===== src/Llm/ModelShard/Forward.antt =====
-- src/computecloud_node/llm/model_shard.py: `TorchShardModule.forward`. The layers and the other calls of
-- torch are parameters.
pub mod Layers
pub mod Composition
pub mod Generation
mod Tests
use computecloud_node.Prelude.{
  ℕ, Bool, true, false, Option, none, some, List, [], ◌∷◌, ◌++◌, ◌==◌, if◌then◌else◌,
}
use computecloud_node.Prelude.Int.{ℤ}
use computecloud_node.Python.{Result, ok, raise, ◌>>=◌, value_error, other_error}

-- A tensor after `x.to(...)` and its dimensions, and the tables of cosines and sines for a length and an
-- offset.
pub record TensorCalls (T R : Type 0) : Type 0 where
  pub to_dtype : T → T
  pub unsqueeze : T → T
  pub dim : T → ℕ
  pub seq_len : T → ℕ
  pub rope : ℕ → ℤ → R

-- `LlamaDecoderLayer`: with the tables and what is cached for it.
abbrev pub Layer : Type 0 → Type 0 → Type 0 → Type 0
Layer T KV R = R → Option KV → T → Result (T × KV)

-- The modules of a `TorchShardModule`: those that it does not have are `none`.
pub record ShardModule (T KV R : Type 0) : Type 0 where
  pub is_first : Bool
  pub is_last : Bool
  pub embed_tokens : Option (T → Result T)
  pub layers : List (Layer T KV R)
  pub norm : Option (T → Result T)
  pub lm_head : Option (T → Result T)
  pub tie_word_embeddings : Bool

abbrev pub called : {T : Type 0} → Option (T → Result T) → T → Result T
called none x = raise other_error
called (some f) x = f x

module _ {T R : Type 0} (torch : TensorCalls T R) where
  -- The tensor with a batch dimension.
  abbrev pub batched : T → T
  batched x = if torch.dim x == 2 then torch.unsqueeze x else x

  abbrev pub sequenced : T → T
  sequenced x = batched (if torch.dim x == 1 then torch.unsqueeze x else x)

module _ {T KV R : Type 0} (torch : TensorCalls T R) where
  -- The input of the layers.
  unfoldable pub hidden_input : ShardModule T KV R → T → Result T
  hidden_input m x =
      (if m.is_first then called m.embed_tokens x else ok x)
      >>= (λ h. ok (sequenced torch (torch.to_dtype h)))

  -- What is cached for the next layer. `none` is a pass without anything cached; a list that is too
  -- short raises.
  abbrev pub past_of : Option (List KV) → Result (Option KV × Option (List KV))
  past_of none = ok (none, none)
  past_of (some []) = raise other_error
  past_of (some (kv ∷ past)) = ok (some kv, some past)

  abbrev pub with_kv : KV → Result (T × List KV) → Result (T × List KV)
  with_kv kv (raise exc) = raise exc
  with_kv kv (ok (x, kvs)) = ok (x, kv ∷ kvs)

  -- The loop over the layers.
  unfoldable pub layer_loop : R → List (Layer T KV R) → Option (List KV) → T → Result (T × List KV)
  layer_loop tables [] past x = ok (x, [])
  layer_loop tables (layer ∷ layers) past x = past_of past >>= (λ found.
      layer tables found.0 x
      >>= (λ passed. with_kv passed.1 (layer_loop tables layers found.1 passed.0)))

  -- The end of the pass on the last shard.
  unfoldable pub headed : ShardModule T KV R → T → Result T
  headed m x = called m.norm x >>= (λ h. elim m.lm_head [
    | some head ↦ head h
    | none ↦ if m.tie_word_embeddings then called m.embed_tokens h else ok h
  ])

  abbrev pub shard_ended : ShardModule T KV R → T × List KV → Result (T × List KV)
  shard_ended m (x, kvs) = (if m.is_last then headed m x else ok x) >>= (λ out. ok (out, kvs))

  -- `past_key_values[li] if has_cache and past_key_values else None`: an empty list counts as none.
  abbrev pub given_past : Option (List KV) → Option (List KV)
  given_past none = none
  given_past (some []) = none
  given_past (some (kv ∷ past)) = some (kv ∷ past)

  -- `forward` from the layers' input on: the output, with what a pass with a cache hands back.
  abbrev pub passed_through : ShardModule T KV R → Option (List KV) → ℤ → T → Result (T × List KV)
  passed_through m past offset h =
      layer_loop (torch.rope (torch.seq_len h) offset) m.layers (given_past past) h
      >>= shard_ended m

  -- `forward` with `use_cache`.
  unfoldable pub shard_forward_cached :
      ShardModule T KV R → Option (List KV) → ℤ → T → Result (T × List KV)
  unfolding hidden_input layer_loop headed
  shard_forward_cached m past offset x = hidden_input m x >>= passed_through m past offset

  abbrev pub output_only : Result (T × List KV) → Result T
  output_only (raise exc) = raise exc
  output_only (ok (x, kvs)) = ok x

  -- `forward` without `use_cache`: a cache that is passed all the same is refused.
  unfoldable pub shard_forward : ShardModule T KV R → Option (List KV) → ℤ → T → Result T
  unfolding shard_forward_cached
  shard_forward m none offset x = output_only (shard_forward_cached m none offset x)
  shard_forward m (some past) offset x = raise value_error
