-- ===== src/Llm/KvCache/Eviction.antt =====
-- `evict_run_id` drops the entries of one run and keeps the others.
use computecloud_node.Prelude.{◌≡◌, refl, none, List, [], ◌∷◌, arith, String, ◌&&◌, if◌then◌else◌}
use computecloud_node.Prelude.Equality.{◌≟◌, string_eq, contains, lookup, has, erase, lookup-erase}
use computecloud_node.Llm.KvCache.{
  Key, KvCache, key_eq, keys_of_run, drop_keys, evict_run_id, unlist,
}

module _ {V : Type 0} where
  lookup-drop_keys :
      (j : Key) (keys : List Key) (c : KvCache V)
      → lookup j (drop_keys keys c).entries ≡ (if contains j keys then none else lookup j c.entries)
  unfolding drop_keys
  lookup-drop_keys j [] c = refl
  lookup-drop_keys j (k ∷ keys) c = ground (
    arith,
    lookup-drop_keys j keys (record c { entries = erase k c.entries; order = unlist k c.order }),
    lookup-erase j k c.entries,
  )

  contains-keys_of_run :
      (j : Key) (r : String) (entries : List (Key × V))
      → contains j (keys_of_run r entries) ≡ (has j entries && j.run_id ≟ r)
  unfolding keys_of_run lookup
  contains-keys_of_run j r [] = refl
  contains-keys_of_run j r ((k, v) ∷ entries) = ground (arith, contains-keys_of_run j r entries)

  -- After `evict_run_id` a key is gone if it is of that run; every other key keeps its entry.
  pub lookup-evict_run_id :
      (j : Key) (r : String) (c : KvCache V)
      → lookup j (evict_run_id r c).1.entries ≡ (if j.run_id ≟ r then none else lookup j c.entries)
  unfolding evict_run_id
  lookup-evict_run_id j r c =
      ground
        (arith, lookup-drop_keys j (keys_of_run r c.entries) c, contains-keys_of_run j r c.entries)
