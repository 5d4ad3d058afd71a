-- ===== src/Llm/ModelShard/Forward/Layers.antt =====
-- A list of layers that is split in two, each part with what it has cached.
use computecloud_node.Prelude.{
  ℕ, ◌≡◌, refl, ◌∙◌, sym, ap, Option, none, some, List, [], ◌∷◌, ◌++◌, length, length-append, All,
  arith,
}
use computecloud_node.Python.{Result, ok, raise, ◌>>=◌}
use computecloud_node.Llm.ModelShard.Forward.{
  TensorCalls, Layer, sequenced, past_of, with_kv, layer_loop, given_past,
}

module _ {T R : Type 0} (torch : TensorCalls T R) where
  -- A tensor that the layers take as it is, of a length.
  pub record IsHidden (n : ℕ) (h : T) : Type 0 where
    pub plain : sequenced torch (torch.to_dtype h) ≡ h
    pub length : torch.seq_len h ≡ n

-- What the whole model has cached, if the shards have cached `p` and `q`.
abbrev pub joined_past : {KV : Type 0} → Option (List KV) → Option (List KV) → Option (List KV)
joined_past (some p) (some q) = some (p ++ q)
joined_past _ _ = none

-- Both shards have nothing cached, or each has an entry for each of its layers.
abbrev pub Fit :
    {T KV R : Type 0}
    → List (Layer T KV R)
    → List (Layer T KV R)
    → Option (List KV)
    → Option (List KV)
    → Type 0
Fit xs ys none none = Unit
Fit xs ys (some p) (some q) = (length p ≡ length xs) × (length q ≡ length ys)
Fit xs ys _ _ = ⊥

module _ {T KV : Type 0} where
  -- What a pass through two shards hands back: the output of the second, and what both have cached.
  abbrev pub prepend : List KV → Result (T × List KV) → Result (T × List KV)
  prepend kvs (raise exc) = raise exc
  prepend kvs (ok (out, more)) = ok (out, kvs ++ more)

  abbrev pub join : Result (T × List KV) → (T → Result (T × List KV)) → Result (T × List KV)
  join (raise exc) next = raise exc
  join (ok (h, kvs)) next = prepend kvs (next h)

  prepend-none : (r : Result (T × List KV)) → r ≡ prepend [] r
  prepend-none (raise exc) = refl
  prepend-none (ok (out, kvs)) = refl

  pub join-cong :
      (r : Result (T × List KV)) (f g : T → Result (T × List KV))
      → ((h : T) → f h ≡ g h)
      → join r f ≡ join r g
  join-cong (raise exc) f g same = refl
  join-cong (ok (h, kvs)) f g same = ap (prepend kvs) (same h)

module _ {T KV R : Type 0} (torch : TensorCalls T R) where
  -- A layer that gives such tensors for such tensors, which is what a decoder layer does with the shape
  -- and the type of its input.
  abbrev pub Preserves : Layer T KV R → Type 0
  Preserves layer =
      (n : ℕ) (tables : R) (past : Option KV) (h : T) (out : T) (kv : KV)
      → IsHidden torch n h
      → layer tables past h ≡ ok (out, kv)
      → IsHidden torch n out

  with_kv-prepend :
      (kv : KV) (kvs : List KV) (r : Result (T × List KV))
      → with_kv torch kv (prepend kvs r) ≡ prepend (kv ∷ kvs) r
  with_kv-prepend kv kvs (raise exc) = refl
  with_kv-prepend kv kvs (ok (out, more)) = refl

  with_kv-join :
      (kv : KV) (r : Result (T × List KV)) (next : T → Result (T × List KV))
      → with_kv torch kv (join r next) ≡ join (with_kv torch kv r) next
  with_kv-join kv (raise exc) next = refl
  with_kv-join kv (ok (h, kvs)) next = with_kv-prepend kv kvs (next h)

  layer-join :
      (p : Result (T × KV)) (f g next : T → Result (T × List KV))
      → ((out : T) → f out ≡ join (g out) next)
      → (p >>= (λ passed. with_kv torch passed.1 (f passed.0)))
        ≡ join (p >>= (λ passed. with_kv torch passed.1 (g passed.0))) next
  layer-join (raise exc) f g next split = refl
  layer-join (ok (out, kv)) f g next split =
      ap (with_kv torch kv) (split out) ∙ with_kv-join kv (g out) next

  module _ (tables : R) where
    abbrev pub loop : List (Layer T KV R) → Option (List KV) → T → Result (T × List KV)
    loop layers past = layer_loop torch tables layers past

    loop-append_none :
        (xs ys : List (Layer T KV R)) (h : T)
        → loop (xs ++ ys) none h ≡ join (loop xs none h) (loop ys none)
    unfolding layer_loop
    loop-append_none [] ys h = prepend-none (loop ys none h)
    loop-append_none (layer ∷ xs) ys h =
        layer-join (layer tables none h) (loop (xs ++ ys) none) (loop xs none) (loop ys none)
          (loop-append_none xs ys)

    loop-append_some :
        (xs ys : List (Layer T KV R)) (p q : List KV) (h : T)
        → length p ≡ length xs
        → loop (xs ++ ys) (some (p ++ q)) h ≡ join (loop xs (some p) h) (loop ys (some q))
    unfolding layer_loop
    loop-append_some [] ys [] q h same = prepend-none (loop ys (some q) h)
    loop-append_some [] ys (kv ∷ p) q h same = absurd (omega (arith, same))
    loop-append_some (layer ∷ xs) ys [] q h same = absurd (omega (arith, same))
    loop-append_some (layer ∷ xs) ys (kv ∷ p) q h same =
        layer-join (layer tables (some kv) h) (loop (xs ++ ys) (some (p ++ q))) (loop xs (some p))
          (loop ys (some q)) (λ out. loop-append_some xs ys p q out (omega (arith, same)))

    loop-given :
        (layers : List (Layer T KV R)) (p : List KV) (h : T)
        → length p ≡ length layers
        → loop layers (given_past torch (some p)) h ≡ loop layers (some p) h
    unfolding layer_loop
    loop-given [] [] h same = refl
    loop-given (layer ∷ layers) [] h same = absurd (omega (arith, same))
    loop-given layers (kv ∷ p) h same = refl

    pub loop-append :
        (xs ys : List (Layer T KV R)) (p q : Option (List KV)) (h : T)
        → Fit xs ys p q
        → loop (xs ++ ys) (given_past torch (joined_past p q)) h
          ≡ join (loop xs (given_past torch p) h) (loop ys (given_past torch q))
    loop-append xs ys none none h fit = loop-append_none xs ys h
    loop-append xs ys (some p) (some q) h (same, same') =
        loop-given (xs ++ ys) (p ++ q) h
          (omega (arith, same, same', length-append p q, length-append xs ys))
        ∙ loop-append_some xs ys p q h same
        ∙ ap (λ r. join r (loop ys (some q))) (sym (loop-given xs p h same))
        ∙ join-cong (loop xs (given_past torch (some p)) h) (loop ys (some q))
            (loop ys (given_past torch (some q))) (λ h'. sym (loop-given ys q h' same'))
    loop-append xs ys none (some q) h fit = absurd fit
    loop-append xs ys (some p) none h fit = absurd fit

    -- What the layers hand back, if they hand back something, is a tensor that further layers take.
    abbrev pub Outputs : ℕ → Result (T × List KV) → Type 0
    Outputs n (raise exc) = Unit
    Outputs n (ok (out, kvs)) = IsHidden torch n out

    with_kv-Outputs :
        (n : ℕ) (kv : KV) (r : Result (T × List KV)) → Outputs n r → Outputs n (with_kv torch kv r)
    with_kv-Outputs n kv (raise exc) made = tt
    with_kv-Outputs n kv (ok (out, kvs)) hidden = hidden

    -- The same of the layers that follow, whatever they are given.
    abbrev Later : ℕ → List (Layer T KV R) → Type 0
    Later n layers =
        (rest : Option (List KV)) (out : T)
        → IsHidden torch n out
        → Outputs n (loop layers rest out)

    pub loop-Outputs :
        (n : ℕ) (layers : List (Layer T KV R)) (past : Option (List KV)) (h : T)
        → All Preserves layers
        → IsHidden torch n h
        → Outputs n (loop layers past h)
    unfolding layer_loop
    loop-Outputs n [] past h preserve hidden = hidden
    loop-Outputs n (layer ∷ layers) past h (preserves, preserve) hidden =
        with_past (λ rest out. loop-Outputs n layers rest out preserve) (past_of torch past)
      where
        with_output :
            Later n layers
            → (found : Option KV) (rest : Option (List KV)) (p : Result (T × KV))
            → layer tables found h ≡ p
            → Outputs n (p >>= (λ passed. with_kv torch passed.1 (loop layers rest passed.0)))
        with_output later found rest (raise exc) e = tt
        with_output later found rest (ok (out, kv)) e =
            with_kv-Outputs n kv (loop layers rest out)
              (later rest out (preserves n tables found h out kv hidden e))

        with_past :
            Later n layers
            → (found : Result (Option KV × Option (List KV)))
            → Outputs n (
                found >>= (λ found'.
                  layer tables found'.0 h
                  >>= (λ passed. with_kv torch passed.1 (loop layers found'.1 passed.0))))
        with_past later (raise exc) = tt
        with_past later (ok (found, rest)) =
            with_output later found rest (layer tables found h) refl
