-- ===== src/Llm/Executor/Invariant.antt =====
-- What `execute` keeps of the cache of the executor, whether it returns or raises.
use computecloud_node.Prelude.{
  ℕ, ◌≡◌, refl, Bool, false, Option, none, List, [], ◌∷◌, arith, Bool-cases, inl, inr, ◌⊎◌, length,
  ltb,
}
use computecloud_node.Prelude.Equality.{◌≟◌, lookup, erase, lookup-insert, lookup-erase, string_eq}
use computecloud_node.Prelude.Int.{ℤ, pos}
use computecloud_node.Python.{
  Result, ok, raise, Value, bool, int, obj, Fields, empty, truthy, to_int, codes,
}
use computecloud_node.Python.Dict.{get, get_or, get_item}
use computecloud_node.Python.Effect.{Effect, ◌>>=◌, lift, Keeps, then_Keeps}
use computecloud_node.Python.Runtime.{Runtime, to_str}
use computecloud_node.Tensor.{FloatFormats}
use computecloud_node.Llm.KvCache.{KvCache, Key, key_eq, kv_cache_get, kv_cache_put, evict_loop}
use computecloud_node.Llm.KvCache.Eviction.{lookup-evict_run_id}
use computecloud_node.Llm.KvCache.Invariant.{
  IsValid, kv_cache_get-IsValid, kv_cache_put-IsValid, evict_run_id-IsValid,
}
use computecloud_node.Llm.Loader.{WeightsSource, load_shard}
use computecloud_node.Llm.ModelShard.{load_state_dict}
use computecloud_node.Llm.Executor.{Module, Torch, Tools, Engine, on_world, is_llm_shard_task}
use computecloud_node.Llm.Executor.Cached.{
  IsKept, run_key, Holds, on_world-Keeps, evict-Keeps, prepare_and_run-Keeps,
}
use computecloud_node.Llm.Executor.Shard.{
  evict, weighted, loaded_module, config_of, open_source, merged, prepare_and_run, run_from,
  run_shard, execute,
}

module _ {W T KV : Type 0} (rt : Runtime) (formats : FloatFormats) (torch : Torch T KV)
    (tools : Tools W T) (payload : Fields) (holds : KvCache KV → Type 0)
    (kept : IsKept rt formats torch tools payload holds) where
  abbrev Kept : {A : Type 0} → Effect (Engine W KV) A → Type 0
  Kept m = Keeps (Holds rt formats torch tools payload holds) m

  lifted-Kept :
      {A B : Type 0} (result : Result A) (next : A → Effect (Engine W KV) B)
      → ((a : A) → Kept (next a))
      → Kept (lift result >>= next)
  lifted-Kept (ok a) next each e h = each a e h
  lifted-Kept (raise exc) next each e h = h

  outside-Kept :
      {A B : Type 0} (act : Effect W A) (next : A → Effect (Engine W KV) B)
      → ((a : A) → Kept (next a))
      → Kept (on_world act >>= next)
  outside-Kept act next =
      then_Keeps (Holds rt formats torch tools payload holds) next (on_world act)
        (on_world-Keeps rt formats torch tools payload holds act)

  loaded_module-Kept :
      (source : WeightsSource W T) (shard_index : ℤ) (config : Fields) (start end : ℤ)
      (is_first is_last : Bool)
      → Kept (
          loaded_module rt formats torch tools payload source shard_index config start end is_first
            is_last)
  unfolding loaded_module
  loaded_module-Kept source shard_index config start end is_first is_last =
      outside-Kept {B = Module T} (load_shard source start end is_first is_last) _ (λ state_dict.
        lifted-Kept {B = Module T} (torch.construct config start end is_first is_last) _ (λ own.
          lifted-Kept {B = Module T}
            (weighted rt formats torch tools payload source shard_index
              (load_state_dict torch.shape start end state_dict own))
            _ (λ loaded e h. h)))

  run_from-Kept :
      (uri : List ℕ) (config : Fields) (start end : ℤ) (is_first is_last : Bool) (shard_index : ℤ)
      → Kept (
          run_from rt formats torch tools payload uri config start end is_first is_last shard_index)
  unfolding run_from
  run_from-Kept uri config start end is_first is_last shard_index =
      outside-Kept {B = Value} (open_source rt formats torch tools uri) _ (λ source.
        outside-Kept {B = Value} source.get_config _ (λ source_config.
          let whole = merged source_config config in
          then_Keeps {B = Value} (Holds rt formats torch tools payload holds)
            (prepare_and_run rt formats torch tools payload source shard_index)
            (loaded_module rt formats torch tools payload source shard_index whole start end
              is_first is_last)
            (loaded_module-Kept source shard_index whole start end is_first is_last)
            (prepare_and_run-Keeps rt formats torch tools payload holds kept source shard_index)))

  run_shard-Kept : Kept (run_shard rt formats torch tools payload)
  unfolding run_shard
  run_shard-Kept = lifted-Kept {B = Value} (get_item "weights_uri" payload) _ (λ uri.
      lifted-Kept {B = Value}
        (config_of rt formats torch tools (get_or "config" (obj empty) payload)) _
        (λ config. lifted-Kept {B = Value} (get_item "start_layer" payload) _ (λ start.
          lifted-Kept {B = Value} (to_int start) _ (λ start_layer.
            lifted-Kept {B = Value} (get_item "end_layer" payload) _ (λ end.
              lifted-Kept {B = Value} (to_int end) _ (λ end_layer.
                lifted-Kept {B = Value} (to_int (get_or "shard_index" (int (pos 0)) payload)) _ (
                  run_from-Kept (codes (to_str rt uri)) config start_layer end_layer
                    (truthy (get_or "is_first" (bool false) payload))
                    (truthy (get_or "is_last" (bool false) payload)))))))))

  execute-Kept : Kept (execute rt formats torch tools (obj payload))
  unfolding execute
  execute-Kept e h = elim (Bool-cases (is_llm_shard_task rt (obj payload))) [
    | inr other ↦ rw other h
    | inl asked ↦ rw asked (
        then_Keeps (Holds rt formats torch tools payload holds)
          (λ (evicted : Unit {0}). run_shard rt formats torch tools payload)
          (evict rt formats torch tools (get "evict_run_id" payload))
          (evict-Keeps rt formats torch tools payload holds kept (get "evict_run_id" payload))
          (λ evicted. run_shard-Kept) e h)
  ]

module _ {W T KV : Type 0} (rt : Runtime) (formats : FloatFormats) (torch : Torch T KV)
    (tools : Tools W T) where
  IsValid-IsKept : (payload : Fields) → IsKept rt formats torch tools payload (λ c. IsValid c)
  IsValid-IsKept payload = record {
    got = kv_cache_get-IsValid;
    put = λ shard_index kv c. kv_cache_put-IsValid _ kv c;
    evicted = evict_run_id-IsValid;
  }

  -- A valid cache is valid after `execute`, whatever the payload is and whether the call returns or
  -- raises.
  pub execute-IsValid :
      (payload : Value) (e : Engine W KV)
      → IsValid e.cache
      → IsValid (execute rt formats torch tools payload e).1.cache
  unfolding execute
  execute-IsValid (obj payload) e valid =
      execute-Kept rt formats torch tools payload (λ c. IsValid c) (IsValid-IsKept payload) e valid
  execute-IsValid _ e valid = valid

  -- What a cache may have done to the entry of a key: nothing, or the entry is gone.
  abbrev pub Unchanged : Key → Option KV → KvCache KV → Type 0
  Unchanged key found c = (lookup key c.entries ≡ none) ⊎ (lookup key c.entries ≡ found)

  evict_loop-Unchanged :
      (key : Key) (found : Option KV) (cap : ℕ) (entries : List (Key × KV)) (order : List Key)
      → (lookup key entries ≡ none) ⊎ (lookup key entries ≡ found)
      → (lookup key (evict_loop cap entries order).0 ≡ none)
        ⊎ (lookup key (evict_loop cap entries order).0 ≡ found)
  unfolding evict_loop
  evict_loop-Unchanged key found cap entries [] h = h
  evict_loop-Unchanged key found cap entries (old ∷ order) h =
      elim (Bool-cases (ltb cap (length entries))) [
        | inl more ↦ rw more (
            evict_loop-Unchanged key found cap (erase old entries) order
              (ground (arith, lookup-erase key old entries)))
        | inr done ↦ rw done h
      ]

  Unchanged-IsKept :
      (payload : Fields) (key : Key) (found : Option KV)
      → (key.run_id ≟ to_str rt (get "data_run_id" payload)) ≡ false
      → IsKept rt formats torch tools payload (Unchanged key found)
  unfolding kv_cache_put kv_cache_get
  Unchanged-IsKept payload key found foreign = record {
    got = λ k c h. ground arith;
    put = λ shard_index kv c h. evict_loop-Unchanged key found c.cap _ _ (
        ground (
          arith,
          foreign,
          lookup-insert key (run_key rt formats torch tools payload shard_index) kv c.entries,
        ));
    evicted = λ run_id c h. ground (arith, lookup-evict_run_id key run_id c);
  }

  -- `execute` leaves the entry of another run as it was, or drops it: it never writes it.
  pub execute-Unchanged :
      (payload : Fields) (key : Key) (e : Engine W KV)
      → (key.run_id ≟ to_str rt (get "data_run_id" payload)) ≡ false
      → Unchanged key
          (lookup key e.cache.entries)
          (execute rt formats torch tools (obj payload) e).1.cache
  execute-Unchanged payload key e foreign =
      execute-Kept rt formats torch tools payload (Unchanged key (lookup key e.cache.entries))
        (Unchanged-IsKept payload key (lookup key e.cache.entries) foreign) e (inr refl)
