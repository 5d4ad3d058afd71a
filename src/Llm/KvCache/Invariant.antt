-- ===== src/Llm/KvCache/Invariant.antt =====
-- What holds of the cache between two calls.
use computecloud_node.Prelude.{
  ℕ, ◌≤◌, ◌≡◌, refl, true, false, List, [], ◌∷◌, ◌++◌, length, length-append, arith, String, ltb,
  if◌then◌else◌, Bool-cases, Option-cases, inl, inr,
}
use computecloud_node.Prelude.Equality.{
  string_eq, contains, remove, Nodup, lookup, has, insert, erase, NodupKeys, contains-append,
  contains-remove, length-remove, remove-Nodup, append-Nodup, lookup-insert, lookup-erase,
  insert-NodupKeys, erase-NodupKeys, length-insert, length-erase, erase_absent,
}
use computecloud_node.Llm.KvCache.{
  Key, KvCache, key_eq, init, unlist, kv_cache_get, evict_loop, kv_cache_put, keys_of_run,
  drop_keys, evict_run_id,
}

-- The list holds each key of the dict once and no other key.
pub record IsMatched {V : Type 0} (entries : List (Key × V)) (order : List Key) : Type 0 where
  pub same : (k : Key) → contains k order ≡ has k entries
  pub distinct : Nodup order
  pub keys : NodupKeys entries
  pub sizes : length entries ≡ length order

pub record IsValid {V : Type 0} (c : KvCache V) : Type 0 where
  pub matched : IsMatched c.entries c.order
  pub bounded : length c.entries ≤ c.cap

module _ {V : Type 0} where
  pub init-IsValid : (n : ℕ) → IsValid (init {V = V} n)
  unfolding init lookup
  init-IsValid n = record {
    matched = record { same = λ k. ground arith; distinct = tt; keys = tt; sizes = refl };
    bounded = omega arith;
  }

  unlist-IsMatched :
      (k : Key) (entries : List (Key × V)) (order : List Key)
      → IsMatched entries order
      → IsMatched (erase k entries) (unlist k order)
  unlist-IsMatched k entries order m = record {
    same = λ j.
        ground (
          arith,
          m.same j,
          m.same k,
          contains-remove j k order m.distinct,
          lookup-erase j k entries,
        );
    distinct = ground (arith, remove-Nodup k order m.distinct);
    keys = erase-NodupKeys k entries m.keys;
    sizes = ground (
      arith,
      m.sizes,
      m.same k,
      length-remove k order,
      length-erase k entries m.keys,
      erase_absent k entries,
    );
  }

  -- One round of the eviction loop.
  pub pop-IsMatched :
      (k : Key) (entries : List (Key × V)) (order : List Key)
      → IsMatched entries (k ∷ order)
      → IsMatched (erase k entries) order
  pop-IsMatched k entries order m = record {
    same = λ j. ground (arith, m.same j, m.distinct, lookup-erase j k entries);
    distinct = m.distinct.1;
    keys = erase-NodupKeys k entries m.keys;
    sizes = ground (arith, m.sizes, m.same k, length-erase k entries m.keys);
  }

  insert-IsMatched_new :
      (k : Key) (v : V) (entries : List (Key × V)) (order : List Key)
      → IsMatched entries order
      → has k entries ≡ false
      → IsMatched (insert k v entries) (order ++ k ∷ [])
  insert-IsMatched_new k v entries order m h = record {
    same = λ j.
        ground (arith, m.same j, contains-append j order (k ∷ []), lookup-insert j k v entries);
    distinct = append-Nodup k order m.distinct (ground (arith, m.same k));
    keys = insert-NodupKeys k v entries m.keys;
    sizes = ground (arith, m.sizes, length-append order (k ∷ []), length-insert k v entries);
  }

  insert-IsMatched_old :
      (k : Key) (v : V) (entries : List (Key × V)) (order : List Key)
      → IsMatched entries order
      → has k entries ≡ true
      → IsMatched (insert k v entries) order
  insert-IsMatched_old k v entries order m h = record {
    same = λ j. ground (arith, m.same j, lookup-insert j k v entries);
    distinct = m.distinct;
    keys = insert-NodupKeys k v entries m.keys;
    sizes = ground (arith, m.sizes, length-insert k v entries);
  }

  pub evict_loop-IsMatched :
      (cap : ℕ) (entries : List (Key × V)) (order : List Key)
      → IsMatched entries order
      → IsMatched (evict_loop cap entries order).0 (evict_loop cap entries order).1
        × (length (evict_loop cap entries order).0 ≤ cap)
  unfolding evict_loop
  evict_loop-IsMatched cap entries [] m = (m, omega (arith, m.sizes))
  evict_loop-IsMatched cap entries (k ∷ order) m = elim (Bool-cases (ltb cap (length entries))) [
    | inl more ↦
        rw more (evict_loop-IsMatched cap (erase k entries) order (pop-IsMatched k entries order m))
    | inr done ↦ rw done (m, ground arith)
  ]

  -- What `get` and `put` do to the list: the key goes to its end.
  bump-IsMatched :
      (k : Key) (entries : List (Key × V)) (order : List Key)
      → IsMatched entries order
      → has k entries ≡ true
      → IsMatched entries (unlist k order ++ k ∷ [])
  bump-IsMatched k entries order m h = record {
    same = λ j. ground (
      arith,
      m.same j,
      m.same k,
      contains-append j (remove k order) (k ∷ []),
      contains-remove j k order m.distinct,
    );
    distinct = ground (
      arith,
      m.same k,
      append-Nodup k (remove k order) (remove-Nodup k order m.distinct),
      contains-remove k k order m.distinct,
    );
    keys = m.keys;
    sizes =
        ground (
          arith,
          m.same k,
          m.sizes,
          length-append (remove k order) (k ∷ []),
          length-remove k order,
        );
  }

  pub kv_cache_get-IsValid : (k : Key) (c : KvCache V) → IsValid c → IsValid (kv_cache_get k c).1
  unfolding kv_cache_get
  kv_cache_get-IsValid k c v = elim (Option-cases (lookup k c.entries)) [
    | inl miss ↦ rw (miss, kv_cache_get) v
    | inr (kv, hit) ↦
        rw (hit, kv_cache_get)
          (record {
            matched = bump-IsMatched k c.entries c.order v.matched (rw (hit, has));
            bounded = v.bounded;
          })
  ]

  -- The entries and the list of keys that `put` hands to the eviction loop.
  abbrev pub stored : Key → V → KvCache V → List (Key × V)
  stored k kv c = insert k kv c.entries

  abbrev pub listed : Key → KvCache V → List Key
  listed k c = (if has k c.entries then unlist k c.order else c.order) ++ k ∷ []

  pub listed-IsMatched :
      (k : Key) (kv : V) (c : KvCache V) → IsValid c → IsMatched (stored k kv c) (listed k c)
  listed-IsMatched k kv c v = elim (Bool-cases (has k c.entries)) [
    | inl old ↦ rw old (
        insert-IsMatched_old k kv c.entries _ (bump-IsMatched k c.entries c.order v.matched old)
          old)
    | inr new ↦ rw new (insert-IsMatched_new k kv c.entries c.order v.matched new)
  ]

  -- `_kv_cache_put` keeps the cache valid: the list of keys holds each key of the dict once and no
  -- other, and the cache holds at most as many entries as the cap.
  pub kv_cache_put-IsValid :
      (k : Key) (kv : V) (c : KvCache V) → IsValid c → IsValid (kv_cache_put k kv c)
  unfolding kv_cache_put
  kv_cache_put-IsValid k kv c v =
      let (matched, bounded) = evict_loop-IsMatched c.cap _ _ (listed-IsMatched k kv c v) in
      record { matched = matched; bounded = bounded }

  length-erase-le : (k : Key) (d : List (Key × V)) → length (erase k d) ≤ length d
  unfolding erase
  length-erase-le k [] = omega arith
  length-erase-le k ((j, w) ∷ d) = ground (arith, length-erase-le k d)

  drop_keys-IsValid : (keys : List Key) (c : KvCache V) → IsValid c → IsValid (drop_keys keys c)
  unfolding drop_keys
  drop_keys-IsValid [] c v = v
  drop_keys-IsValid (k ∷ keys) c v = drop_keys-IsValid keys _ (record {
    matched = unlist-IsMatched k c.entries c.order v.matched;
    bounded = omega (arith, length-erase-le k c.entries, v.bounded);
  })

  pub evict_run_id-IsValid :
      (run_id : String) (c : KvCache V) → IsValid c → IsValid (evict_run_id run_id c).1
  unfolding evict_run_id
  evict_run_id-IsValid run_id c v = drop_keys-IsValid (keys_of_run run_id c.entries) c v
