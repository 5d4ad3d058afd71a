-- ===== src/Llm/Executor/Shard.antt =====
-- `_prepare_and_run` from the input on, `_run_shard` and `execute`.
use computecloud_node.Prelude.{
  ℕ, String, Bool, true, false, Option, none, some, List, [], ◌∷◌, if◌then◌else◌,
}
use computecloud_node.Prelude.Int.{ℤ, pos, eqb_ℤ}
use computecloud_node.Python.{
  Result, ok, raise, value_error, type_error, Value, null, int, bool, str, obj, Fields, empty,
  entry, truthy, to_int, codes,
}
use computecloud_node.Python.Dict.{get, get_or, get_item, set_default}
use computecloud_node.Python.Effect.{Effect, ◌>>=◌, lift}
use computecloud_node.Python.Runtime.{Runtime, to_str}
use computecloud_node.Python.Text.{starts_with}
use computecloud_node.HfUri.{parse_hf_uri}
use computecloud_node.Tensor.{FloatFormats}
use computecloud_node.Llm.KvCache.{Key, kv_cache_get, kv_cache_put, evict_run_id}
use computecloud_node.Llm.Loader.{WeightsSource, load_shard}
use computecloud_node.Llm.ModelShard.{load_state_dict}
use computecloud_node.Llm.Uri.{parse_file_uri, file_scheme}
use computecloud_node.Llm.Executor.{Module, Torch, Tools, Engine, on_world, is_llm_shard_task}
use computecloud_node.Llm.Executor.Tensors.{torch_to_tensor_payload}
use computecloud_node.Llm.Executor.Input.{tokenizer_path, input_tensor}

-- `for k, v in source_config.items(): if k not in config: config[k] = v`
unfoldable pub merged : Fields → Fields → Fields
merged empty config = config
merged (entry k v rest) config = merged rest (set_default k v config)

-- The output of the last shard.
abbrev pub final_output : ℤ → ℤ → String → Fields → Value
final_output shard_index token_id token logits = obj (
    entry "token" (str token) (
      entry "token_id" (int token_id) (
        entry "logits" (obj logits)
          (entry "shard_index" (int shard_index) (entry "is_final" (bool true) empty)))))

module _ {W T KV : Type 0} (rt : Runtime) (formats : FloatFormats) (torch : Torch T KV)
    (tools : Tools W T) where
  -- The calls of the cache, each under its lock.
  unfoldable pub cached : Option Key → Effect (Engine W KV) (Option KV)
  unfolding kv_cache_get
  cached none e = (ok none, e)
  cached (some key) e =
      let (found, cache) = kv_cache_get key e.cache in (ok found, record e { cache = cache })

  unfoldable pub store : Option Key → KV → Effect (Engine W KV) (Unit {0})
  unfolding kv_cache_put
  store none kv e = (ok tt, e)
  store (some key) kv e = (ok tt, record e { cache = kv_cache_put key kv e.cache })

  unfoldable pub evict : Value → Effect (Engine W KV) (Unit {0})
  unfolding evict_run_id
  evict run e =
      if truthy run
      then (ok tt, record e { cache = (evict_run_id (to_str rt run) e.cache).1 })
      else (ok tt, e)

  -- The offset of the positions: that of the payload, or else the length of the cached pass.
  unfoldable pub offset_of : ℤ → Option KV → ℤ
  offset_of offset none = offset
  offset_of offset (some past) = if eqb_ℤ offset (pos 0) then torch.past_length past else offset

  module _ (payload : Fields) (source : WeightsSource W T) (shard_index : ℤ) where
    -- The key of the cache: none if no cache is asked for, or no run is named.
    unfoldable pub key_of : Bool → Value → Option Key
    key_of false run_id = none
    key_of true null = none
    key_of true run_id = some (record { run_id = to_str rt run_id; shard_index = shard_index })

    -- The forward pass, with what it leaves in the cache.
    unfoldable pub forwarded :
        Module T → Bool → Option Key → Option KV → ℤ → T → Effect (Engine W KV) T
    unfolding store
    forwarded shard false key past offset input = lift (torch.forward shard input)
    forwarded shard true key past offset input = do
      passed ← lift (torch.forward_cached shard input past offset)
      stored ← store key passed.1
      lift (ok passed.0)

    -- `token_text`: the empty text where there is no tokenizer, or where it raises.
    abbrev pub or_no_text : Result String × W → Result String × W
    or_no_text (ok text, w) = (ok text, w)
    or_no_text (raise exc, w) = (ok "", w)

    unfoldable pub token_text : List ℕ → ℤ → Effect (Engine W KV) String
    token_text [] token_id = lift (ok "")
    token_text (c ∷ path) token_id = on_world (λ w. or_no_text (tools.decode (c ∷ path) token_id w))

    -- `_pack_output`
    unfoldable pub pack_output : Bool → T → Effect (Engine W KV) Value
    unfolding tokenizer_path token_text torch_to_tensor_payload
    pack_output true output = do
      token_id ← lift (torch.argmax output)
      path ← tokenizer_path rt formats torch tools payload source (get "tokenizer_uri" payload)
      token ← token_text path token_id
      logits ← lift (torch_to_tensor_payload rt formats torch output)
      lift (ok (final_output shard_index token_id token logits))
    pack_output false output = do
      packed ← lift (torch_to_tensor_payload rt formats torch output)
      lift (
          ok (
            obj (
              entry "output" (obj packed)
                (entry "shard_index" (int shard_index) (entry "is_final" (bool false) empty)))))

    -- `_prepare_and_run`
    unfoldable pub prepare_and_run : Module T → Effect (Engine W KV) Value
    unfolding cached offset_of key_of input_tensor forwarded pack_output
    prepare_and_run shard = do
      let use_cache = truthy (get_or "use_cache" (bool false) payload)
      let key = key_of use_cache (get "data_run_id" payload)
      pass_index ← lift (to_int (get_or "pass_index" (int (pos 0)) payload))
      past ← cached key
      offset ← lift (to_int (get_or "position_offset" (int (pos 0)) payload))
      input ← input_tensor rt formats torch tools payload source shard use_cache pass_index
      output ← forwarded shard use_cache key past (offset_of offset past) input
      pack_output shard.is_last output

    -- The tensors of a module, unless the loading raised.
    abbrev pub weighted : Result (List (List ℕ)) × List (List ℕ × T) → Result (List (List ℕ × T))
    weighted (ok loaded, own) = ok own
    weighted (raise exc, own) = raise exc

    -- The module of a shard with its weights.
    unfoldable pub loaded_module : Fields → ℤ → ℤ → Bool → Bool → Effect (Engine W KV) (Module T)
    unfolding load_shard load_state_dict
    loaded_module config start_layer end_layer is_first is_last = do
      state_dict ← on_world (load_shard source start_layer end_layer is_first is_last)
      own ← lift (torch.construct config start_layer end_layer is_first is_last)
      loaded ← lift (weighted (load_state_dict torch.shape start_layer end_layer state_dict own))
      lift (
          ok (record {
            config = config;
            start = start_layer;
            end = end_layer;
            is_first = is_first;
            is_last = is_last;
            own = loaded;
          }))

  -- `payload.get("config", {})`, where a text is read as JSON. A value that is no dict raises.
  abbrev pub dict_of : Value → Result Fields
  dict_of (obj config) = ok config
  dict_of other = raise type_error

  unfoldable pub config_of : Value → Result Fields
  config_of (str text) = elim (tools.loads text) [
    | raise exc ↦ raise exc
    | ok value ↦ dict_of value
  ]
  config_of value = dict_of value

  -- The source of the weights at an address.
  abbrev pub parsed_hub : Result (List ℕ × List ℕ) → Effect W (WeightsSource W T)
  parsed_hub (ok (model_id, revision)) = tools.open_hub model_id revision
  parsed_hub (raise exc) = lift (raise exc)

  abbrev pub parsed_local : Result (List ℕ) → Effect W (WeightsSource W T)
  parsed_local (ok path) = tools.open_local path
  parsed_local (raise exc) = lift (raise exc)

  unfoldable pub open_source : List ℕ → Effect W (WeightsSource W T)
  unfolding parse_file_uri parse_hf_uri
  open_source uri =
      if starts_with uri file_scheme
      then parsed_local (parse_file_uri tools.url uri)
      else parsed_hub (parse_hf_uri uri)

  -- `_run_shard` from the source of the weights on: `config` is merged with that of the source, the
  -- module is loaded and run.
  unfoldable pub run_from :
      Fields → List ℕ → Fields → ℤ → ℤ → Bool → Bool → ℤ → Effect (Engine W KV) Value
  unfolding open_source merged loaded_module prepare_and_run
  run_from payload weights_uri config start_layer end_layer is_first is_last shard_index = do
    source ← on_world (open_source weights_uri)
    source_config ← on_world source.get_config
    shard ←
        loaded_module payload source shard_index (merged source_config config) start_layer end_layer
          is_first is_last
    prepare_and_run payload source shard_index shard

  -- `_run_shard`
  unfoldable pub run_shard : Fields → Effect (Engine W KV) Value
  unfolding config_of run_from
  run_shard payload = do
    weights_uri ← lift (get_item "weights_uri" payload)
    config ← lift (config_of (get_or "config" (obj empty) payload))
    start ← lift (get_item "start_layer" payload)
    start_layer ← lift (to_int start)
    end ← lift (get_item "end_layer" payload)
    end_layer ← lift (to_int end)
    let is_first = truthy (get_or "is_first" (bool false) payload)
    let is_last = truthy (get_or "is_last" (bool false) payload)
    shard_index ← lift (to_int (get_or "shard_index" (int (pos 0)) payload))
    run_from payload (codes (to_str rt weights_uri)) config start_layer end_layer is_first is_last
        shard_index

  -- `execute`
  unfoldable pub execute : Value → Effect (Engine W KV) Value
  unfolding is_llm_shard_task evict run_shard
  execute (obj payload) =
      if is_llm_shard_task rt (obj payload)
      then (do evicted ← evict (get "evict_run_id" payload); run_shard payload)
      else lift (raise value_error)
  execute payload = lift (raise value_error)
