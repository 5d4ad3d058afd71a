-- ===== src/Llm/Executor.antt =====
-- src/computecloud_node/llm/executor.py: `LLMShardExecutor.execute`, from the payload of a task to its
-- output. Torch, the tokenizer and the sources of weights act on a world that is a parameter; the
-- cache of keys and values is the object's state. A module is its configuration with its tensors.
pub mod Tensors
pub mod Input
pub mod Shard
pub mod Cached
pub mod LostPast
pub mod Invariant
mod Tests
use computecloud_node.Prelude.{
  ℕ, String, Bool, true, false, Option, none, some, List, [], ◌∷◌, map, str_eq, if◌then◌else◌,
}
use computecloud_node.Prelude.Int.{ℤ, pos}
use computecloud_node.Python.{
  Result, ok, raise, Value, int, float, bool, str, arr, obj, Fields, empty, entry, codes,
  other_error, is_text,
}
use computecloud_node.Python.Dict.{get, get_or}
use computecloud_node.Python.Effect.{Effect, ◌>>=◌, lift}
use computecloud_node.Python.Runtime.{Runtime, to_str}
use computecloud_node.Llm.KvCache.{KvCache}
use computecloud_node.Llm.Loader.{WeightsSource}
use computecloud_node.Llm.Uri.{UrlLibrary, is_llm_weights_uri}

-- A `TorchShardModule`.
pub record Module (T : Type 0) : Type 0 where
  pub config : Fields
  pub start : ℤ
  pub end : ℤ
  pub is_first : Bool
  pub is_last : Bool
  pub own : List (List ℕ × T)

-- Torch. `floats` are the elements of a tensor as float32 values, `construct` gives the tensors of a
-- new module, and `past_length` is the length that the first keys of a cached pass have, or 0 if it
-- cannot be read.
pub record Torch (T KV : Type 0) : Type 0 where
  pub shape : T → List ℕ
  pub floats : T → List Value
  pub tensor : List ℤ → T
  pub of_nested : String → Value → Result T
  pub construct : Fields → ℤ → ℤ → Bool → Bool → Result (List (List ℕ × T))
  pub forward : Module T → T → Result T
  pub forward_cached : Module T → T → Option KV → ℤ → Result (T × KV)
  pub past_length : KV → ℤ
  pub argmax : T → Result ℤ

-- The sources of weights, the tokenizer at a path, and `json.loads`.
pub record Tools (W T : Type 0) : Type 0 where
  pub open_local : List ℕ → Effect W (WeightsSource W T)
  pub open_hub : List ℕ → List ℕ → Effect W (WeightsSource W T)
  pub encode : List ℕ → String → Effect W (List ℤ)
  pub decode : List ℕ → ℤ → Effect W String
  pub loads : String → Result Value
  pub url : UrlLibrary

-- The world, and the cache of the executor.
pub record Engine (W KV : Type 0) : Type 0 where
  pub world : W
  pub cache : KvCache KV

module _ {W KV A : Type 0} where
  abbrev pub outside : Result A × W → KvCache KV → Result A × Engine W KV
  outside (result, w) cache = (result, record { world = w; cache = cache })

  -- A call that leaves the cache alone.
  abbrev pub on_world : Effect W A → Effect (Engine W KV) A
  on_world act e = outside (act e.world) e.cache

-- `is_llm_shard_task`
unfoldable pub is_llm_shard_task : Runtime → Value → Bool
unfolding is_llm_weights_uri
is_llm_shard_task rt (obj payload) =
    if is_text (get "kind" payload) "llm_shard"
    then is_llm_weights_uri (codes (to_str rt (get_or "weights_uri" (str "") payload)))
    else false
is_llm_shard_task rt payload = false
