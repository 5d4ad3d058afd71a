-- ===== src/Llm/ModelShard/Forward/Composition.antt =====
-- A model in two shards, each with what it has cached.
use computecloud_node.Prelude.{
  ℕ, ◌≡◌, refl, ◌∙◌, sym, ap, true, false, Option, none, List, ◌++◌, if◌then◌else◌, All,
}
use computecloud_node.Prelude.Int.{ℤ}
use computecloud_node.Python.{Result, ok, raise, ◌>>=◌}
use computecloud_node.Llm.ModelShard.Forward.{
  TensorCalls, Layer, ShardModule, called, sequenced, hidden_input, headed, shard_ended, given_past,
  passed_through, shard_forward_cached, output_only, shard_forward,
}
use computecloud_node.Llm.ModelShard.Forward.Layers.{
  IsHidden, Preserves, prepend, join, joined_past, Fit, loop, loop-append, Outputs, loop-Outputs,
}

module _ {T KV R : Type 0} (torch : TensorCalls T R) where
  -- The whole model, and the two shards that a list of layers is split into.
  abbrev pub whole :
      Option (T → Result T)
      → List (Layer T KV R)
      → Option (T → Result T)
      → Option (T → Result T)
      → ShardModule T KV R
  whole embed layers norm head = record {
    is_first = true;
    is_last = true;
    embed_tokens = embed;
    layers = layers;
    norm = norm;
    lm_head = head;
    tie_word_embeddings = false;
  }

  abbrev pub first_shard : Option (T → Result T) → List (Layer T KV R) → ShardModule T KV R
  first_shard embed layers = record {
    is_first = true;
    is_last = false;
    embed_tokens = embed;
    layers = layers;
    norm = none;
    lm_head = none;
    tie_word_embeddings = false;
  }

  abbrev pub last_shard :
      List (Layer T KV R) → Option (T → Result T) → Option (T → Result T) → ShardModule T KV R
  last_shard layers norm head = record {
    is_first = false;
    is_last = true;
    embed_tokens = none;
    layers = layers;
    norm = norm;
    lm_head = head;
    tie_word_embeddings = false;
  }

  -- The end of a pass, without what is cached.
  abbrev closing : ShardModule T KV R → T → Result T
  closing m x = if m.is_last then headed torch m x else ok x

  prepend-shard_ended :
      (m : ShardModule T KV R) (kvs : List KV) (r : Result (T × List KV))
      → (prepend kvs r >>= shard_ended torch m) ≡ prepend kvs (r >>= shard_ended torch m)
  prepend-shard_ended m kvs (raise exc) = refl
  prepend-shard_ended m kvs (ok (out, more)) = closed (closing m out)
    where
      closed :
          (r : Result T)
          → (r >>= (λ h. ok (h, kvs ++ more))) ≡ prepend kvs (r >>= (λ h. ok (h, more)))
      closed (raise exc) = refl
      closed (ok h) = refl

  join-shard_ended :
      (m : ShardModule T KV R) (r : Result (T × List KV)) (next : T → Result (T × List KV))
      → (join r next >>= shard_ended torch m) ≡ join r (λ h. next h >>= shard_ended torch m)
  join-shard_ended m (raise exc) next = refl
  join-shard_ended m (ok (h, kvs)) next = prepend-shard_ended m kvs (next h)

  unended :
      (m : ShardModule T KV R) (r : Result (T × List KV))
      → m.is_last ≡ false
      → (r >>= shard_ended torch m) ≡ r
  unended m (raise exc) early = refl
  unended m (ok (out, kvs)) early = rw early refl

  -- `forward` of a shard that is not the first, for a tensor that the layers take as it is.
  later_shard :
      (n : ℕ) (offset : ℤ) (m : ShardModule T KV R) (past : Option (List KV)) (h : T)
      → m.is_first ≡ false
      → IsHidden torch n h
      → shard_forward_cached torch m past offset h ≡ (
          loop torch (torch.rope n offset) m.layers (given_past torch past) h
          >>= shard_ended torch m)
  unfolding shard_forward_cached hidden_input
  later_shard n offset m past h later hidden = rw (later, hidden.plain, hidden.length) refl

  join-later_shard :
      (n : ℕ) (offset : ℤ) (m : ShardModule T KV R) (past : Option (List KV))
      (r : Result (T × List KV))
      → m.is_first ≡ false
      → Outputs torch (torch.rope n offset) n r
      → join r (λ h.
        loop torch (torch.rope n offset) m.layers (given_past torch past) h >>= shard_ended torch m)
        ≡ join r (shard_forward_cached torch m past offset)
  join-later_shard n offset m past (raise exc) later made = refl
  join-later_shard n offset m past (ok (out, kvs)) later hidden =
      ap (prepend kvs) (sym (later_shard n offset m past out later hidden))

  -- A pass from the embedding's result on.
  abbrev embedded : ℤ → ShardModule T KV R → Option (List KV) → Result T → Result (T × List KV)
  embedded offset m past r =
      (r >>= (λ h. ok (sequenced torch (torch.to_dtype h)))) >>= passed_through torch m past offset

  module _ (offset : ℤ) (embed norm head : Option (T → Result T)) (xs ys : List (Layer T KV R))
      (p q : Option (List KV)) (preserve : All (Preserves torch) xs)
      (settled : (t : T)
        → sequenced torch (torch.to_dtype (sequenced torch (torch.to_dtype t)))
          ≡ sequenced torch (torch.to_dtype t))
      (fit : Fit xs ys p q) where
    embedded-join :
        (r : Result T)
        → embedded offset (whole embed (xs ++ ys) norm head) (joined_past p q) r
          ≡ join
              (embedded offset (first_shard embed xs) p r)
              (shard_forward_cached torch (last_shard ys norm head) q offset)
    unfolding headed
    embedded-join (raise exc) = refl
    embedded-join (ok e) =
        let h = sequenced torch (torch.to_dtype e) in
        let n = torch.seq_len h in
        let tables = torch.rope n offset in
        let last = last_shard ys norm head in
        let passed = loop torch tables xs (given_past torch p) h in
        let made =
          loop-Outputs torch tables n xs (given_past torch p) h preserve
            (record { plain = settled e; length = refl }) in
        ap (λ r. r >>= shard_ended torch last) (loop-append torch tables xs ys p q h fit)
        ∙ join-shard_ended last passed (loop torch tables ys (given_past torch q))
        ∙ join-later_shard n offset last q passed refl made
        ∙ ap (λ r. join r (shard_forward_cached torch last q offset))
            (sym (unended (first_shard embed xs) passed refl))

    -- A model without tied embeddings, whose layers are split into two shards, with nothing cached or
    -- with an entry cached for each layer: a pass with a cache through the first shard and then through the
    -- last gives the output of a pass through the whole model, and together they hand back for the cache
    -- what it hands back; or they raise what it raises. The layers of the first shard must give tensors
    -- of the type and the shape that they take, and such a tensor must stay as it is when it is converted.
    pub shard_forward_cached-join :
        (x : T)
        → shard_forward_cached torch (whole embed (xs ++ ys) norm head) (joined_past p q) offset x
          ≡ join
              (shard_forward_cached torch (first_shard embed xs) p offset x)
              (shard_forward_cached torch (last_shard ys norm head) q offset)
    unfolding shard_forward_cached hidden_input
    shard_forward_cached-join x = embedded-join (called embed x)

  output_only-prepend :
      (kvs : List KV) (r : Result (T × List KV))
      → output_only torch (prepend kvs r) ≡ output_only torch r
  output_only-prepend kvs (raise exc) = refl
  output_only-prepend kvs (ok (out, more)) = refl

  output_only-join :
      (r : Result (T × List KV)) (next : T → Result (T × List KV))
      → output_only torch (join r next)
        ≡ (output_only torch r >>= (λ h. output_only torch (next h)))
  output_only-join (raise exc) next = refl
  output_only-join (ok (h, kvs)) next = output_only-prepend kvs (next h)

  -- A model without tied embeddings, whose layers are split into two shards: a pass without a cache
  -- through the first shard and then through the last gives what a pass through the whole model gives,
  -- or raises what it raises. The layers of the first shard must give tensors of the type and the shape
  -- that they take, and such a tensor must stay as it is when it is converted.
  pub shard_forward-shard_forward :
      (offset : ℤ) (embed norm head : Option (T → Result T)) (xs ys : List (Layer T KV R)) (x : T)
      → All (Preserves torch) xs
      → ((t : T)
          → sequenced torch (torch.to_dtype (sequenced torch (torch.to_dtype t)))
            ≡ sequenced torch (torch.to_dtype t))
      → shard_forward torch (whole embed (xs ++ ys) norm head) none offset x ≡ (
          shard_forward torch (first_shard embed xs) none offset x
          >>= shard_forward torch (last_shard ys norm head) none offset)
  unfolding shard_forward
  shard_forward-shard_forward offset embed norm head xs ys x preserve settled =
      ap (output_only torch)
        (shard_forward_cached-join offset embed norm head xs ys none none preserve settled tt x)
      ∙ output_only-join (shard_forward_cached torch (first_shard embed xs) none offset x)
          (shard_forward_cached torch (last_shard ys norm head) none offset)
