-- ===== src/Llm/Executor/Cached.antt =====
-- What the task of a shard leaves in the cache.
use computecloud_node.Prelude.{
  ℕ, String, inl, inr, Bool, true, false, Option, none, some, List, [], ◌∷◌, ◌&&◌, Bool-cases,
}
use computecloud_node.Prelude.Equality.{string_eq}
use computecloud_node.Prelude.Int.{ℤ, pos, ltb_ℤ}
use computecloud_node.Python.{
  Result, ok, Value, null, bool, int, float, str, arr, obj, Fields, truthy, to_int,
}
use computecloud_node.Python.Dict.{get, get_or}
use computecloud_node.Python.Effect.{Effect, lift, Keeps, then_Keeps}
use computecloud_node.Python.Runtime.{Runtime, to_str}
use computecloud_node.Tensor.{FloatFormats}
use computecloud_node.Llm.KvCache.{KvCache, Key, key_eq, kv_cache_get, kv_cache_put, evict_run_id}
use computecloud_node.Llm.Loader.{WeightsSource}
use computecloud_node.Llm.Executor.{Module, Torch, Tools, Engine, on_world, outside}
use computecloud_node.Llm.Executor.Tensors.{torch_to_tensor_payload}
use computecloud_node.Llm.Executor.Input.{
  path_or_empty, tokenizer_path, prompt_ids, prompted, input_tensor,
}
use computecloud_node.Llm.Executor.Shard.{
  cached, store, evict, key_of, offset_of, final_output, forwarded, or_no_text, token_text,
  pack_output, prepare_and_run,
}

module _ {W T KV : Type 0} (rt : Runtime) (formats : FloatFormats) (torch : Torch T KV)
    (tools : Tools W T) (payload : Fields) where
  -- The key of the payload's run, with the index of a shard.
  abbrev pub run_key : ℤ → Key
  run_key shard_index = record {
    run_id = to_str rt (get "data_run_id" payload);
    shard_index = shard_index;
  }

  -- A property of the cache that the calls of the cache keep.
  pub record IsKept (holds : KvCache KV → Type 0) : Type 0 where
    pub got : (key : Key) (c : KvCache KV) → holds c → holds (kv_cache_get key c).1
    pub put :
        (shard_index : ℤ) (kv : KV) (c : KvCache KV)
        → holds c
        → holds (kv_cache_put (run_key shard_index) kv c)
    pub evicted : (run_id : String) (c : KvCache KV) → holds c → holds (evict_run_id run_id c).1

  module _ (holds : KvCache KV → Type 0) where
    abbrev pub Holds : Engine W KV → Type 0
    Holds e = holds e.cache

    pub on_world-Keeps : {A : Type 0} (act : Effect W A) → Keeps Holds (on_world act)
    on_world-Keeps act e h = outside_kept (act e.world) e.cache h
      where
        outside_kept :
            {A : Type 0} (p : Result A × W) (cache : KvCache KV)
            → holds cache
            → holds (outside p cache).1.cache
        outside_kept (result, w) cache h = h

    module _ (source : WeightsSource W T) (shard_index : ℤ) where
      tokenizer_path-Keeps :
          (uri : Value) → Keeps Holds (tokenizer_path rt formats torch tools payload source uri)
      unfolding tokenizer_path
      tokenizer_path-Keeps null e h =
          then_Keeps Holds (λ (path : Option (List ℕ)). lift (ok (path_or_empty path)))
            (on_world source.get_tokenizer_path) (on_world-Keeps source.get_tokenizer_path)
            (λ path e' h'. h') e h
      tokenizer_path-Keeps _ e h = h

      abbrev path_of : Effect (Engine W KV) (List ℕ)
      path_of = tokenizer_path rt formats torch tools payload source (get "tokenizer_uri" payload)

      path_kept : Keeps Holds path_of
      path_kept = tokenizer_path-Keeps (get "tokenizer_uri" payload)

      token_text-Keeps :
          (path : List ℕ) (token_id : ℤ)
          → Keeps Holds (token_text rt formats torch tools payload source shard_index path token_id)
      unfolding token_text
      token_text-Keeps [] token_id e h = h
      token_text-Keeps (c ∷ path) token_id e h =
          on_world-Keeps
            (λ w.
              or_no_text rt formats torch tools payload source shard_index
                (tools.decode (c ∷ path) token_id w))
            e h

      pub pack_output-Keeps :
          (is_last : Bool) (output : T)
          → Keeps Holds
              (pack_output rt formats torch tools payload source shard_index is_last output)
      unfolding pack_output
      pack_output-Keeps false output =
          then_Keeps Holds _ (lift (torch_to_tensor_payload rt formats torch output)) (λ e h. h)
            (λ packed e h. h)
      pack_output-Keeps true output =
          then_Keeps {B = Value} Holds _ (lift (torch.argmax output)) (λ e h. h)
            (λ token_id. then_Keeps {B = Value} Holds _ path_of path_kept (λ path.
              then_Keeps {B = Value} Holds _
                (token_text rt formats torch tools payload source shard_index path token_id)
                (token_text-Keeps path token_id)
                (λ token.
                  then_Keeps Holds
                    (λ (logits : Fields).
                      lift (ok (final_output shard_index token_id token logits)))
                    (lift (torch_to_tensor_payload rt formats torch output)) (λ e h. h)
                    (λ logits e h. h))))

    module _ (kept : IsKept holds) where
      cached-Keeps : (key : Option Key) → Keeps Holds (cached rt formats torch tools key)
      unfolding cached
      cached-Keeps none e h = h
      cached-Keeps (some key) e h = kept.got key e.cache h

      pub evict-Keeps : (run : Value) → Keeps Holds (evict rt formats torch tools run)
      unfolding evict
      evict-Keeps run e h = elim (Bool-cases (truthy run)) [
        | inl asked ↦ rw asked (kept.evicted (to_str rt run) e.cache h)
        | inr silent ↦ rw silent h
      ]

      module _ (source : WeightsSource W T) (shard_index : ℤ) where
        abbrev key : Bool → Value → Option Key
        key = key_of rt formats torch tools payload source shard_index

        store_at-Keeps :
            (use_cache : Bool) (run_id : Value)
            → ((kv : KV) (c : KvCache KV)
                → holds c
                → holds (
                    kv_cache_put
                      (record { run_id = to_str rt run_id; shard_index = shard_index })
                      kv
                      c))
            → (kv : KV) → Keeps Holds (store rt formats torch tools (key use_cache run_id) kv)
        unfolding store key_of
        store_at-Keeps false run_id put kv e h = h
        store_at-Keeps true null put kv e h = h
        store_at-Keeps true (bool b) put kv e h = put kv e.cache h
        store_at-Keeps true (int z) put kv e h = put kv e.cache h
        store_at-Keeps true (float bits) put kv e h = put kv e.cache h
        store_at-Keeps true (str s) put kv e h = put kv e.cache h
        store_at-Keeps true (arr xs) put kv e h = put kv e.cache h
        store_at-Keeps true (obj d) put kv e h = put kv e.cache h

        forwarded-Keeps :
            (shard : Module T) (use_cache : Bool) (past : Option KV) (offset : ℤ) (input : T)
            → Keeps Holds (
                forwarded rt formats torch tools payload source shard_index shard use_cache
                  (key use_cache (get "data_run_id" payload))
                  past
                  offset
                  input)
        unfolding forwarded
        forwarded-Keeps shard false past offset input e h = h
        forwarded-Keeps shard true past offset input e h =
            then_Keeps Holds _ (lift (torch.forward_cached shard input past offset)) (λ e' h'. h')
              (λ (passed : T × KV).
                then_Keeps Holds _ _
                  (store_at-Keeps true (get "data_run_id" payload) (kept.put shard_index) passed.1)
                  (λ stored e' h'. h'))
              e h

        prompt_ids-Keeps :
            (config : Fields) (prompt : String) (path : List ℕ)
            → Keeps Holds (prompt_ids rt formats torch tools payload source config prompt path)
        unfolding prompt_ids
        prompt_ids-Keeps config prompt [] e h = h
        prompt_ids-Keeps config prompt (c ∷ path) e h =
            on_world-Keeps (tools.encode (c ∷ path) prompt) e h

        prompted-Keeps :
            (config : Fields) → Keeps Holds (prompted rt formats torch tools payload source config)
        unfolding prompted
        prompted-Keeps config =
            let prompt = to_str rt (get_or "prompt" (str "") payload) in
            then_Keeps {B = T} Holds _ (path_of source shard_index) (path_kept source shard_index)
              (λ path.
                then_Keeps Holds (λ (ids : List ℤ). lift (ok (torch.tensor ids)))
                  (prompt_ids rt formats torch tools payload source config prompt path)
                  (prompt_ids-Keeps config prompt path) (λ ids e h. h))

        input_tensor-Keeps :
            (shard : Module T) (use_cache : Bool) (pass_index : ℤ)
            → Keeps Holds
                (input_tensor rt formats torch tools payload source shard use_cache pass_index)
        unfolding input_tensor
        input_tensor-Keeps shard use_cache pass_index e h = elim (Bool-cases shard.is_first) [
          | inr later ↦ rw later h
          | inl first ↦ elim (Bool-cases (use_cache && ltb_ℤ (pos 0) pass_index)) [
            | inl going_on ↦ rw (first, going_on) h
            | inr start ↦ rw (first, start) (prompted-Keeps shard.config e h)
          ]
        ]

        pub prepare_and_run-Keeps :
            (shard : Module T)
            → Keeps Holds (prepare_and_run rt formats torch tools payload source shard_index shard)
        unfolding prepare_and_run
        prepare_and_run-Keeps shard =
            let use_cache = truthy (get_or "use_cache" (bool false) payload) in
            let key_now = key use_cache (get "data_run_id" payload) in
            then_Keeps {B = Value} Holds _
              (lift (to_int (get_or "pass_index" (int (pos 0)) payload))) (λ e h. h)
              (λ pass_index.
                then_Keeps {B = Value} Holds _ (cached rt formats torch tools key_now)
                  (cached-Keeps key_now)
                  (λ past.
                    then_Keeps {B = Value} Holds _
                      (lift (to_int (get_or "position_offset" (int (pos 0)) payload))) (λ e h. h)
                      (λ given.
                        let offset = offset_of rt formats torch tools given past in
                        then_Keeps {B = Value} Holds _
                          (input_tensor rt formats torch tools payload source shard use_cache
                            pass_index)
                          (input_tensor-Keeps shard use_cache pass_index)
                          (λ input.
                            then_Keeps Holds
                              (pack_output rt formats torch tools payload source shard_index
                                shard.is_last)
                              (forwarded rt formats torch tools payload source shard_index shard
                                use_cache key_now past offset input)
                              (forwarded-Keeps shard use_cache past offset input)
                              (pack_output-Keeps source shard_index shard.is_last)))))
