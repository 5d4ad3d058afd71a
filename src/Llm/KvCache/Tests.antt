-- ===== src/Llm/KvCache/Tests.antt =====
-- The cache at concrete data.
use computecloud_node.Prelude.{ℕ, ◌≡◌}
use computecloud_node.Prelude.Equality.{string_eq}
use computecloud_node.Prelude.Int.{pos}
use computecloud_node.Llm.KvCache.{Key, key_eq, KvCache, init, kv_cache_get, kv_cache_put}
use computecloud_node.Llm.KvCache.Invariant.{IsValid, init-IsValid, kv_cache_put-IsValid}
use computecloud_node.Llm.KvCache.Lru.{
  view, spec_get, spec_put, view-kv_cache_put, view-kv_cache_get,
}

abbrev a : Key
a = record { run_id = "run"; shard_index = pos 0 }

abbrev b : Key
b = record { run_id = "run"; shard_index = pos 1 }

abbrev other : Key
other = record { run_id = "other"; shard_index = pos 0 }

abbrev two : KvCache ℕ
two = kv_cache_put b 20 (kv_cache_put a 10 (init 2))

two-IsValid : IsValid two
two-IsValid =
    kv_cache_put-IsValid b 20 (kv_cache_put a 10 (init 2))
      (kv_cache_put-IsValid a 10 (init 2) (init-IsValid 2))

view-kv_cache_put_example : view (kv_cache_put other 30 two) ≡ spec_put two.cap other 30 (view two)
view-kv_cache_put_example = view-kv_cache_put other 30 two two-IsValid

view-kv_cache_get_example :
    ((kv_cache_get a two).0 ≡ (spec_get a (view two)).0)
    × (view (kv_cache_get a two).1 ≡ (spec_get a (view two)).1)
view-kv_cache_get_example = view-kv_cache_get a two two-IsValid
