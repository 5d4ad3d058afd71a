-- ===== src/Llm/KvCache.antt =====
-- src/computecloud_node/llm/executor.py: the key-value cache of `LLMShardExecutor`, a `dict` by
-- (run id, shard index) with a list of its keys in order of use. Each method holds the lock
-- `_kv_lock` from its first statement to its return, so that a method is one step.
pub mod Invariant
pub mod Lru
pub mod Eviction
mod Tests
use computecloud_node.Prelude.{
  ℕ, String, Bool, true, false, Option, none, some, List, [], ◌∷◌, ◌++◌, length, ltb, if◌then◌else◌,
  ◌&&◌,
}
use computecloud_node.Prelude.Int.{ℤ}
use computecloud_node.Prelude.Equality.{
  Eq, ◌≟◌, string_eq, contains, remove, lookup, has, insert, erase,
}
use native.Mathlib.Decide.{ℕ_discrete}

pub record Key : Type 0 where
  pub run_id : String
  pub shard_index : ℤ

Key-discrete : Discrete Key
Key-discrete = hlevel (string_eq.dec, ℕ_discrete)

instance unfoldable pub key_eq : Eq Key
unfolding Key-discrete
key_eq = record { dec = Key-discrete }

-- `_kv_cache`, `_kv_order` and `_max_kv_entries`
pub record KvCache (V : Type 0) : Type 0 where
  pub entries : List (Key × V)
  pub order : List Key
  pub cap : ℕ

-- `if key in self._kv_order: self._kv_order.remove(key)`
abbrev pub unlist : Key → List Key → List Key
unlist key order = if contains key order then remove key order else order

module _ {V : Type 0} where
  -- `LLMShardExecutor.__init__`
  unfoldable pub init : ℕ → KvCache V
  init max_kv_entries = record { entries = []; order = []; cap = max_kv_entries }

  -- `_kv_cache_get`
  unfoldable pub kv_cache_get : Key → KvCache V → Option V × KvCache V
  kv_cache_get key c = elim (lookup key c.entries) [
    | none ↦ (none, c)
    | some kv ↦ (some kv, record c { order = unlist key c.order ++ key ∷ [] })
  ]

  -- The loop `while len(self._kv_cache) > self._max_kv_entries and self._kv_order`.
  unfoldable pub evict_loop : ℕ → List (Key × V) → List Key → List (Key × V) × List Key
  evict_loop cap entries [] = (entries, [])
  evict_loop cap entries (old ∷ order) =
      let rest = evict_loop cap (erase old entries) order in
      if ltb cap (length entries) then rest else (entries, old ∷ order)

  -- `_kv_cache_put`
  unfoldable pub kv_cache_put : Key → V → KvCache V → KvCache V
  kv_cache_put key kv c =
      let listed = if has key c.entries then unlist key c.order else c.order in
      let (entries, order) = evict_loop c.cap (insert key kv c.entries) (listed ++ key ∷ []) in
      record c { entries = entries; order = order }

  -- `[k for k in list(self._kv_cache) if k[0] == run_id]`
  unfoldable pub keys_of_run : String → List (Key × V) → List Key
  keys_of_run run_id [] = []
  keys_of_run run_id ((k, v) ∷ entries) =
      let rest = keys_of_run run_id entries in if k.run_id ≟ run_id then k ∷ rest else rest

  -- The loop of `evict_run_id` over those keys.
  unfoldable pub drop_keys : List Key → KvCache V → KvCache V
  drop_keys [] c = c
  drop_keys (k ∷ keys) c =
      drop_keys keys (record c { entries = erase k c.entries; order = unlist k c.order })

  -- `evict_run_id`, with the number of entries that it drops.
  unfoldable pub evict_run_id : String → KvCache V → ℕ × KvCache V
  evict_run_id run_id c = let keys = keys_of_run run_id c.entries in (length keys, drop_keys keys c)

  unfoldable pub kv_cache_size : KvCache V → ℕ
  kv_cache_size c = length c.entries
