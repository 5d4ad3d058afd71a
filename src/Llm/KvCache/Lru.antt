-- ===== src/Llm/KvCache/Lru.antt =====
-- The cache refines a plain list of entries in order of use, least recently used first.
use computecloud_node.Prelude.{
  ℕ, suc, ◌-◌, ◌≡◌, refl, ◌∙◌, sym, ap, true, false, Option, none, some, List, [], ◌∷◌, ◌++◌,
  length, drop, arith, ltb, if◌then◌else◌, Bool-cases, Option-cases, inl, inr,
}
use computecloud_node.Prelude.Equality.{
  string_eq, contains, remove, Nodup, lookup, has, insert, erase, erase_absent, contains-remove,
  lookup-insert, lookup-erase, length-erase,
}
use computecloud_node.Llm.KvCache.{Key, KvCache, key_eq, kv_cache_get, evict_loop, kv_cache_put}
use computecloud_node.Llm.KvCache.Invariant.{
  IsMatched, IsValid, pop-IsMatched, stored, listed, listed-IsMatched,
}

module _ {V : Type 0} where
  -- The entries in the order of the keys.
  pub arrange : List (Key × V) → List Key → List (Key × V)
  arrange entries [] = []
  arrange entries (k ∷ order) = elim (lookup k entries) [
    | none ↦ arrange entries order
    | some v ↦ (k, v) ∷ arrange entries order
  ]

  -- The abstract cache, least recently used entry first.
  pub view : KvCache V → List (Key × V)
  unfolding arrange
  view c = arrange c.entries c.order

  -- The specification: a hit moves its entry to the end.
  pub spec_get : Key → List (Key × V) → Option V × List (Key × V)
  spec_get k l = elim (lookup k l) [
    | none ↦ (none, l)
    | some v ↦ (some v, erase k l ++ (k, v) ∷ [])
  ]

  -- The specification: the entry goes to the end, and from the front goes what does not fit.
  pub spec_put : ℕ → Key → V → List (Key × V) → List (Key × V)
  spec_put cap k v l = let l' = erase k l ++ (k, v) ∷ [] in drop (length l' - cap) l'

  lookup-arrange :
      (j : Key) (entries : List (Key × V)) (order : List Key)
      → lookup j (arrange entries order) ≡ (if contains j order then lookup j entries else none)
  unfolding arrange lookup
  lookup-arrange j entries [] = refl
  lookup-arrange j entries (k ∷ order) = ground (arith, lookup-arrange j entries order)

  arrange-insert :
      (k : Key) (v : V) (entries : List (Key × V)) (order : List Key)
      → contains k order ≡ false
      → arrange (insert k v entries) order ≡ arrange entries order
  unfolding arrange
  arrange-insert k v entries [] h = refl
  arrange-insert k v entries (j ∷ order) h =
      ground (arith, arrange-insert k v entries order, lookup-insert j k v entries)

  arrange-erase :
      (k : Key) (entries : List (Key × V)) (order : List Key)
      → contains k order ≡ false
      → arrange (erase k entries) order ≡ arrange entries order
  unfolding arrange
  arrange-erase k entries [] h = refl
  arrange-erase k entries (j ∷ order) h =
      ground (arith, arrange-erase k entries order, lookup-erase j k entries)

  arrange-append :
      (entries : List (Key × V)) (xs ys : List Key)
      → arrange entries (xs ++ ys) ≡ arrange entries xs ++ arrange entries ys
  unfolding arrange
  arrange-append entries [] ys = refl
  arrange-append entries (k ∷ xs) ys = ground (arith, arrange-append entries xs ys)

  arrange-remove :
      (k : Key) (entries : List (Key × V)) (order : List Key)
      → Nodup order
      → arrange entries (remove k order) ≡ erase k (arrange entries order)
  unfolding arrange remove erase
  arrange-remove k entries [] h = refl
  arrange-remove k entries (j ∷ order) (fresh, h) = ground (
    arith,
    arrange-remove k entries order h,
    erase_absent k (arrange entries order),
    lookup-arrange k entries order,
  )

  held :
      (k : Key) (entries : List (Key × V)) (order : List Key)
      → IsMatched entries (k ∷ order)
      → (v : V) × (lookup k entries ≡ some v)
  held k entries order m = elim (Option-cases (lookup k entries)) [
    | inl missing ↦ absurd (ground (arith, m.same k))
    | inr hit ↦ hit
  ]

  arrange_hit :
      (k : Key) (v : V) (entries : List (Key × V)) (order : List Key)
      → lookup k entries ≡ some v
      → arrange entries (k ∷ order) ≡ (k, v) ∷ arrange entries order
  unfolding arrange
  arrange_hit k v entries order h = ground arith

  evict_loop-drop :
      (cap : ℕ) (entries : List (Key × V)) (order : List Key)
      → IsMatched entries order
      → arrange (evict_loop cap entries order).0 (evict_loop cap entries order).1
        ≡ drop (length entries - cap) (arrange entries order)
  unfolding evict_loop arrange
  evict_loop-drop cap entries [] m =
      let none_over : length entries - cap ≡ 0 = omega (arith, m.sizes) in rw none_over
  evict_loop-drop cap entries (k ∷ order) m = elim (Bool-cases (ltb cap (length entries))) [
    | inl more ↦
        let (v, found) = held k entries order m in
        let size = length-erase k entries m.keys (ground (arith, m.same k)) in
        let over : length entries - cap ≡ suc (length (erase k entries) - cap) =
          ground (arith, size, more) in
        rw (more, evict_loop-drop cap (erase k entries) order (pop-IsMatched k entries order m))
          (rw (over, arrange_hit k v entries order found)
            (rw (arrange-erase k entries order m.distinct.0)))
    | inr done ↦ let none_over : length entries - cap ≡ 0 = ground arith in rw (done, none_over)
  ]

  length-arrange :
      (entries : List (Key × V)) (order : List Key)
      → ((k : Key) → contains k order ≡ true → has k entries ≡ true)
      → length (arrange entries order) ≡ length order
  unfolding arrange
  length-arrange entries [] h = refl
  length-arrange entries (k ∷ order) h =
      ground (arith, h k, length-arrange entries order (λ j m. h j (ground arith)))

  arrange-stored_last :
      (k : Key) (v : V) (c : KvCache V) (order : List Key)
      → contains k order ≡ false
      → arrange (stored k v c) (order ++ k ∷ []) ≡ arrange c.entries order ++ (k, v) ∷ []
  arrange-stored_last k v c order h =
      rw
        (
          arrange-append (stored k v c) order (k ∷ []),
          arrange-insert k v c.entries order h,
          arrange_hit k v (stored k v c) [] (ground (arith, lookup-insert k k v c.entries)),
        )
        (unfold arrange in refl)

  -- The list that `put` hands to the eviction loop is the old view with the entry at its end.
  arrange-listed :
      (k : Key) (v : V) (c : KvCache V)
      → IsValid c
      → arrange (stored k v c) (listed k c) ≡ erase k (view c) ++ (k, v) ∷ []
  unfolding view
  arrange-listed k v c valid = elim (Bool-cases (has k c.entries)) [
    | inl old ↦
        let in_order : contains k c.order ≡ true = ground (arith, m.same k) in
        let gone : contains k (remove k c.order) ≡ false =
          ground (arith, contains-remove k k c.order m.distinct) in
        rw (old, in_order, arrange-stored_last k v c (remove k c.order) gone)
          (rw (arrange-remove k c.entries c.order m.distinct))
    | inr new ↦
        let unlisted : contains k c.order ≡ false = ground (arith, m.same k) in
        let absent : lookup k (arrange c.entries c.order) ≡ none =
          ground (arith, lookup-arrange k c.entries c.order) in
        rw (new, arrange-stored_last k v c c.order unlisted)
          (rw (erase_absent k (arrange c.entries c.order) absent))
  ]
    where
      open valid use {matched as m}

  arrange-bumped :
      (k : Key) (v : V) (c : KvCache V)
      → IsValid c
      → lookup k c.entries ≡ some v
      → arrange c.entries (remove k c.order ++ k ∷ []) ≡ erase k (view c) ++ (k, v) ∷ []
  unfolding view
  arrange-bumped k v c valid hit =
      rw
        (
          arrange-append c.entries (remove k c.order) (k ∷ []),
          arrange-remove k c.entries c.order valid.matched.distinct,
          arrange_hit k v c.entries [] hit,
        )
        (unfold arrange in refl)

  -- On a valid cache, what `_kv_cache_put` leaves is the abstract put: the entry moved to the end
  -- with its new value, and the least recently used entries dropped until the cap is met.
  pub view-kv_cache_put :
      (k : Key) (v : V) (c : KvCache V)
      → IsValid c
      → view (kv_cache_put k v c) ≡ spec_put c.cap k v (view c)
  unfolding kv_cache_put spec_put view
  view-kv_cache_put k v c valid =
      let m = listed-IsMatched k v c valid in
      let e = arrange-listed k v c valid in
      let size : length (stored k v c) ≡ length (erase k (view c) ++ (k, v) ∷ []) =
        m.sizes
        ∙ sym (length-arrange (stored k v c) (listed k c) (λ j h. sym (m.same j) ∙ h))
        ∙ ap length e in
      evict_loop-drop c.cap (stored k v c) (listed k c) m ∙ rw (size, e)

  -- On a valid cache, `_kv_cache_get` returns what the abstract get returns and leaves what it leaves:
  -- a miss changes nothing, a hit moves its entry to the end.
  pub view-kv_cache_get :
      (k : Key) (c : KvCache V)
      → IsValid c
      → ((kv_cache_get k c).0 ≡ (spec_get k (view c)).0)
        × (view (kv_cache_get k c).1 ≡ (spec_get k (view c)).1)
  unfolding kv_cache_get spec_get view
  view-kv_cache_get k c valid = elim (Option-cases (lookup k c.entries)) [
    | inl miss ↦
        let absent : lookup k (view c) ≡ none =
          ground (arith, lookup-arrange k c.entries c.order) in
        (rw (miss, absent, kv_cache_get, spec_get), rw (miss, absent, kv_cache_get, spec_get))
    | inr (v, hit) ↦
        let in_order : contains k c.order ≡ true = ground (arith, valid.matched.same k) in
        let found : lookup k (view c) ≡ some v =
          ground (arith, lookup-arrange k c.entries c.order) in
        (
          rw (hit, found, kv_cache_get, spec_get),
          rw (hit, found, in_order, kv_cache_get, spec_get) (arrange-bumped k v c valid hit),
        )
  ]
