-- ===== src/Llm/Executor/LostPast.antt =====
-- A generation that goes on after the cache has dropped its run.
use computecloud_node.Prelude.{◌≡◌, refl, arith, true, false, none, some, [], ◌∷◌, ℕ, suc, String}
use computecloud_node.Prelude.Equality.{lookup}
use computecloud_node.Prelude.Int.{ℤ, pos, ltb_ℤ}
use computecloud_node.Python.{Result, ok, raise, Exc, Value, bool, int, str, Fields, truthy, to_int}
use computecloud_node.Python.Dict.{get, get_or}
use computecloud_node.Python.Effect.{◌>>=◌}
use computecloud_node.Python.Runtime.{Runtime, to_str}
use computecloud_node.Tensor.{FloatFormats}
use computecloud_node.Llm.KvCache.{KvCache, Key, key_eq, kv_cache_get, kv_cache_put}
use computecloud_node.Llm.Loader.{WeightsSource}
use computecloud_node.Llm.Executor.{Module, Torch, Tools, Engine}
use computecloud_node.Llm.Executor.Input.{next_token, input_tensor}
use computecloud_node.Llm.Executor.Cached.{pack_output-Keeps}
use computecloud_node.Llm.Executor.Shard.{
  cached, store, key_of, offset_of, forwarded, pack_output, prepare_and_run,
}

module _ {W T KV : Type 0} (rt : Runtime) (formats : FloatFormats) (torch : Torch T KV)
    (tools : Tools W T) where
  -- The later passes of the first shard, with a cache, for the run `run`.
  pub record IsLaterPass (payload : Fields) (shard : Module T) (run : String) (pass : ℕ)
      (offset token : ℤ) : Type 0 where
    pub caches : get_or "use_cache" (bool false) payload ≡ bool true
    pub of_run : get "data_run_id" payload ≡ str run
    pub pass_index : get_or "pass_index" (int (pos 0)) payload ≡ int (pos (suc pass))
    pub position_offset : get_or "position_offset" (int (pos 0)) payload ≡ int offset
    pub next_token_id : get "next_token_id" payload ≡ int token
    pub first : shard.is_first ≡ true

  input_tensor-later :
      (payload : Fields) (source : WeightsSource W T) (shard : Module T) (run : String) (pass : ℕ)
      (offset token : ℤ) (e : Engine W KV)
      → IsLaterPass payload shard run pass offset token
      → input_tensor rt formats torch tools payload source shard true (pos (suc pass)) e
        ≡ (ok (torch.tensor (token ∷ [])), e)
  unfolding input_tensor next_token to_int
  input_tensor-later payload source shard run pass offset token e later =
      let positive : ltb_ℤ (pos 0) (pos (suc pass)) ≡ true = ground arith in
      rw (later.first, later.next_token_id, positive)

  kv_cache_get-missed :
      (key : Key) (c : KvCache KV) → lookup key c.entries ≡ none → kv_cache_get key c ≡ (none, c)
  unfolding kv_cache_get
  kv_cache_get-missed key c lost = rw (lost, kv_cache_get)

  -- The forward pass over a token without a past, and what comes of it: its exception; or its output,
  -- packed, with its keys and values in the cache.
  pub data LostPast (payload : Fields) (source : WeightsSource W T) (shard_index : ℤ)
      (shard : Module T) (key : Key) (offset token : ℤ) (e : Engine W KV)
      : Result Value × Engine W KV → Type 0 where
    raised :
        (exc : Exc)
        → torch.forward_cached shard (torch.tensor (token ∷ [])) none offset ≡ raise exc
        → LostPast payload source shard_index shard key offset token e (raise exc, e)
    passed :
        (output : T) (kv : KV) (result : Result Value) (e' : Engine W KV)
        → torch.forward_cached shard (torch.tensor (token ∷ [])) none offset ≡ ok (output, kv)
        → e'.cache ≡ kv_cache_put key kv e.cache
        → pack_output rt formats torch tools payload source shard_index shard.is_last output
            (record e { cache = kv_cache_put key kv e.cache })
          ≡ (result, e')
        → LostPast payload source shard_index shard key offset token e (result, e')

  forwarded-LostPast :
      (payload : Fields) (source : WeightsSource W T) (shard_index : ℤ) (shard : Module T)
      (key : Key) (offset token : ℤ) (e : Engine W KV)
      → LostPast payload source shard_index shard key offset token e (
          (forwarded rt formats torch tools payload source shard_index shard true
                (some key)
                none
                offset
                (torch.tensor (token ∷ []))
              >>= pack_output rt formats torch tools payload source shard_index shard.is_last)
            e)
  unfolding forwarded store
  forwarded-LostPast payload source shard_index shard key offset token e =
      from (torch.forward_cached shard (torch.tensor (token ∷ [])) none offset) refl
    where
      from :
          (outcome : Result (T × KV))
          → torch.forward_cached shard (torch.tensor (token ∷ [])) none offset ≡ outcome
          → LostPast payload source shard_index shard key offset token e (
              (forwarded rt formats torch tools payload source shard_index shard true
                    (some key)
                    none
                    offset
                    (torch.tensor (token ∷ []))
                  >>= pack_output rt formats torch tools payload source shard_index shard.is_last)
                e)
      from (raise exc) out = rw out (raised exc out)
      from (ok (output, kv)) out =
          let kept =
            pack_output-Keeps rt formats torch tools payload (λ c. c ≡ kv_cache_put key kv e.cache)
              source shard_index shard.is_last output
              (record e { cache = kv_cache_put key kv e.cache }) refl in
          rw out (passed output kv _ _ out kept refl)

  -- A later pass of the first shard, with a cache and for a run whose entry the cache does not hold, is
  -- not refused for that. It runs the one token that the payload names with no past, at the offset of the
  -- payload: either that raises, and nothing is changed, or the keys and values of that one token are
  -- stored for the run, and the output is packed as any other.
  pub prepare_and_run-lost_past :
      (payload : Fields) (source : WeightsSource W T) (shard_index : ℤ) (shard : Module T)
      (run : String) (pass : ℕ) (offset token : ℤ) (e : Engine W KV)
      → IsLaterPass payload shard run pass offset token
      → lookup (record { run_id = to_str rt (str run); shard_index = shard_index }) e.cache.entries
        ≡ none
      → LostPast payload source shard_index shard
          (record { run_id = to_str rt (str run); shard_index = shard_index })
          offset
          token
          e
          (prepare_and_run rt formats torch tools payload source shard_index shard e)
  unfolding prepare_and_run cached key_of offset_of to_int truthy
  prepare_and_run-lost_past payload source shard_index shard run pass offset token e later lost =
      let key : Key = record { run_id = to_str rt (str run); shard_index = shard_index } in
      let missed = kv_cache_get-missed _ e.cache lost in
      let input = input_tensor-later payload source shard run pass offset token e later in
      rw (later.caches, later.of_run, later.pass_index, later.position_offset, missed, input)
        (forwarded-LostPast payload source shard_index shard key offset token e)
