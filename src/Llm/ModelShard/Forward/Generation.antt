-- ===== src/Llm/ModelShard/Forward/Generation.antt =====
-- A generation of many passes, with what a shard caches in one pass given to it in the next.
use computecloud_node.Prelude.{
  ℕ, zero, suc, ◌≡◌, refl, ◌∙◌, ap, Option, some, List, [], ◌∷◌, ◌++◌, length, All, arith,
  if◌then◌else◌,
}
use computecloud_node.Prelude.Int.{ℤ}
use computecloud_node.Python.{Result, ok, raise, ◌>>=◌}
use computecloud_node.Llm.ModelShard.Forward.{
  TensorCalls, Layer, ShardModule, sequenced, hidden_input, past_of, with_kv, layer_loop, headed,
  shard_ended, given_past, passed_through, shard_forward_cached,
}
use computecloud_node.Llm.ModelShard.Forward.Composition.{
  whole, first_shard, last_shard, shard_forward_cached-join,
}
use computecloud_node.Llm.ModelShard.Forward.Layers.{Preserves, prepend, join, joined_past, Fit}

-- `next` gives the offset and the input of a pass, from the outputs of the passes before.
module _ {T KV R : Type 0} (torch : TensorCalls T R) (next : List T → ℤ × T) where
  -- Passes of one module, after the outputs so far.
  unfoldable pub generate : ShardModule T KV R → ℕ → List T → Option (List KV) → Result (List T)
  generate m zero outs past = ok outs
  generate m (suc passes) outs past =
      shard_forward_cached torch m past (next outs).0 (next outs).1
      >>= (λ made. generate m passes (outs ++ made.0 ∷ []) (some made.1))

  -- Passes of two modules, each with what it has cached.
  unfoldable pub generate_split :
      ShardModule T KV R
      → ShardModule T KV R
      → ℕ
      → List T
      → Option (List KV)
      → Option (List KV)
      → Result (List T)
  generate_split first last zero outs p q = ok outs
  generate_split first last (suc passes) outs p q =
      shard_forward_cached torch first p (next outs).0 (next outs).1 >>= (λ h.
        shard_forward_cached torch last q (next outs).0 h.0 >>= (λ made.
          generate_split first last passes (outs ++ made.0 ∷ []) (some h.1) (some made.1)))

  -- What a pass hands back for the cache has an entry for each layer.
  abbrev Counted : List (Layer T KV R) → Result (T × List KV) → Type 0
  Counted layers (raise exc) = Unit
  Counted layers (ok (out, kvs)) = length kvs ≡ length layers

  with_kv-Counted :
      (layer : Layer T KV R) (layers : List (Layer T KV R)) (kv : KV) (r : Result (T × List KV))
      → Counted layers r
      → Counted (layer ∷ layers) (with_kv torch kv r)
  with_kv-Counted layer layers kv (raise exc) counted = tt
  with_kv-Counted layer layers kv (ok (out, kvs)) counted = omega (arith, counted)

  layer_loop-Counted :
      (tables : R) (layers : List (Layer T KV R)) (past : Option (List KV)) (h : T)
      → Counted layers (layer_loop torch tables layers past h)
  unfolding layer_loop
  layer_loop-Counted tables [] past h = refl
  layer_loop-Counted tables (layer ∷ layers) past h =
      with_past (layer_loop-Counted tables layers) (past_of torch past)
    where
      with_output :
          ((rest : Option (List KV)) (out : T)
            → Counted layers (layer_loop torch tables layers rest out))
          → (rest : Option (List KV)) (p : Result (T × KV))
          → Counted (layer ∷ layers) (
              p
              >>= (λ passed. with_kv torch passed.1 (layer_loop torch tables layers rest passed.0)))
      with_output later rest (raise exc) = tt
      with_output later rest (ok (out, kv)) =
          with_kv-Counted layer layers kv (layer_loop torch tables layers rest out) (later rest out)

      with_past :
          ((rest : Option (List KV)) (out : T)
            → Counted layers (layer_loop torch tables layers rest out))
          → (found : Result (Option KV × Option (List KV)))
          → Counted (layer ∷ layers) (
              found >>= (λ found'. layer tables found'.0 h >>= (λ passed.
                with_kv torch passed.1 (layer_loop torch tables layers found'.1 passed.0))))
      with_past later (raise exc) = tt
      with_past later (ok (found, rest)) = with_output later rest (layer tables found h)

  shard_ended-Counted :
      (m : ShardModule T KV R) (r : Result (T × List KV))
      → Counted m.layers r
      → Counted m.layers (r >>= shard_ended torch m)
  shard_ended-Counted m (raise exc) counted = tt
  shard_ended-Counted m (ok (out, kvs)) counted =
      closed (if m.is_last then headed torch m out else ok out)
    where
      closed : (r : Result T) → Counted m.layers (r >>= (λ h. ok (h, kvs)))
      closed (raise exc) = tt
      closed (ok h) = counted

  shard_forward_cached-Counted :
      (m : ShardModule T KV R) (past : Option (List KV)) (offset : ℤ) (x : T)
      → Counted m.layers (shard_forward_cached torch m past offset x)
  unfolding shard_forward_cached
  shard_forward_cached-Counted m past offset x = from (hidden_input torch m x)
    where
      from : (r : Result T) → Counted m.layers (r >>= passed_through torch m past offset)
      from (raise exc) = tt
      from (ok h) =
          let tables = torch.rope (torch.seq_len h) offset in
          shard_ended-Counted m (layer_loop torch tables m.layers (given_past torch past) h)
            (layer_loop-Counted tables m.layers (given_past torch past) h)

  -- What follows a pass of the whole model, and of the two shards.
  abbrev after : ShardModule T KV R → ℕ → List T → T × List KV → Result (List T)
  after m passes outs made = generate m passes (outs ++ made.0 ∷ []) (some made.1)

  abbrev after_last :
      ShardModule T KV R → ShardModule T KV R → ℕ → List T → List KV → T × List KV → Result (List T)
  after_last first last passes outs kvs made =
      generate_split first last passes (outs ++ made.0 ∷ []) (some kvs) (some made.1)

  abbrev after_first :
      ShardModule T KV R
      → ShardModule T KV R
      → ℕ
      → List T
      → Option (List KV)
      → T × List KV
      → Result (List T)
  after_first first last passes outs q h =
      shard_forward_cached torch last q (next outs).0 h.0 >>= after_last first last passes outs h.1

  -- The passes that follow agree, whatever the shards have cached.
  abbrev Agrees : ShardModule T KV R → ShardModule T KV R → ShardModule T KV R → ℕ → Type 0
  Agrees m first last passes =
      (outs : List T) (p q : Option (List KV))
      → Fit first.layers last.layers p q
      → generate m passes outs (joined_past p q) ≡ generate_split first last passes outs p q

  last-Agrees :
      (m first last : ShardModule T KV R) (passes : ℕ) (outs : List T) (kvs : List KV)
      (b : Result (T × List KV))
      → Agrees m first last passes
      → length kvs ≡ length first.layers
      → Counted last.layers b
      → (prepend kvs b >>= after m passes outs) ≡ (b >>= after_last first last passes outs kvs)
  last-Agrees m first last passes outs kvs (raise exc) later counted counted' = refl
  last-Agrees m first last passes outs kvs (ok (out, more)) later counted counted' =
      later (outs ++ out ∷ []) (some kvs) (some more) (counted, counted')

  first-Agrees :
      (m first last : ShardModule T KV R) (passes : ℕ) (outs : List T) (q : Option (List KV))
      (a : Result (T × List KV))
      → Agrees m first last passes
      → Counted first.layers a
      → (join a (shard_forward_cached torch last q (next outs).0) >>= after m passes outs)
        ≡ (a >>= after_first first last passes outs q)
  first-Agrees m first last passes outs q (raise exc) later counted = refl
  first-Agrees m first last passes outs q (ok (h, kvs)) later counted =
      last-Agrees m first last passes outs kvs (shard_forward_cached torch last q (next outs).0 h)
        later counted (shard_forward_cached-Counted last q (next outs).0 h)

  module _ (embed norm head : Option (T → Result T)) (xs ys : List (Layer T KV R))
      (preserve : All (Preserves torch) xs)
      (settled : (t : T)
        → sequenced torch (torch.to_dtype (sequenced torch (torch.to_dtype t)))
          ≡ sequenced torch (torch.to_dtype t)) where
    -- A model without tied embeddings, whose layers are split into two shards. The passes of a generation,
    -- each with an input that is any function of the outputs so far, have the same outputs in the two
    -- shards, each with a cache of its own, as in the whole model with its cache, or raise what they raise
    -- there. At the start nothing is cached, or each shard has an entry for each of its layers and
    -- the model has the entries of both. The layers of the first shard must give tensors of the type and the
    -- shape that they take, and such a tensor must stay as it is when it is converted.
    pub generate-generate_split :
        (passes : ℕ) (outs : List T) (p q : Option (List KV))
        → Fit xs ys p q
        → generate (whole torch embed (xs ++ ys) norm head) passes outs (joined_past p q)
          ≡ generate_split
              (first_shard torch embed xs)
              (last_shard torch ys norm head)
              passes
              outs
              p
              q
    unfolding generate generate_split
    generate-generate_split zero outs p q fit = refl
    generate-generate_split (suc passes) outs p q fit =
        let m = whole torch embed (xs ++ ys) norm head in
        let first = first_shard torch embed xs in
        let last = last_shard torch ys norm head in
        let (offset, x) = next outs in
        ap (λ r. r >>= after m passes outs)
          (shard_forward_cached-join torch offset embed norm head xs ys p q preserve settled fit x)
        ∙ first-Agrees m first last passes outs q (shard_forward_cached torch first p offset x)
            (generate-generate_split passes) (shard_forward_cached-Counted first p offset x)
