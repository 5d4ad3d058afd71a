-- ===== src/Tensor/Reshape.antt =====
-- A nested list of a shape comes back from its elements.
use computecloud_node.Prelude.{
  ℕ, zero, suc, ◌+◌, ◌*◌, ◌<◌, ◌≡◌, refl, ap, ap₂, ◌∙◌, sym, false, List, [], ◌∷◌, ◌++◌,
  append_assoc, length, length-append, take, drop, drop-append_self, take-append_self, All, arith,
  ◌==◌,
}
use computecloud_node.Python.{
  ok, Value, null, bool, int, float, str, arr, obj, Items, nil, cons, items_of,
}
use computecloud_node.Tensor.Nested.{prod, number_of, infer_shape, count_items, rows, reshape}
use computecloud_node.Tensor.Flatten.{leaves}

-- A nested list of numbers with its dimensions; every row of a list has the same dimensions.
mutual
  pub data IsShaped : List ℕ → Value → Type 0 where
    scalar : {v : Value} → number_of v ≡ ok v → IsShaped [] v
    nested : {d : ℕ} {ds : List ℕ} {xs : Items} → AreShaped d ds xs → IsShaped (d ∷ ds) (arr xs)

  pub data AreShaped : ℕ → List ℕ → Items → Type 0 where
    no_rows : {ds : List ℕ} → AreShaped zero ds nil
    row :
        {d : ℕ} {ds : List ℕ} {x : Value} {xs : Items}
        → IsShaped ds x
        → AreShaped d ds xs
        → AreShaped (suc d) ds (cons x xs)

-- The elements of a nested list of numbers.
unfoldable mutual
  pub elements : Value → List Value
  elements (arr xs) = elements_items xs
  elements (int z) = int z ∷ []
  elements (float bits) = float bits ∷ []
  elements (str s) = []
  elements (bool b) = []
  elements null = []
  elements (obj d) = []

  pub elements_items : Items → List Value
  elements_items nil = []
  elements_items (cons x xs) = elements x ++ elements_items xs

-- A number is its only element.
elements_scalar :
    (v : Value) → number_of v ≡ ok v → (elements v ≡ v ∷ []) × (leaves v ≡ ok (v ∷ []))
unfolding elements leaves
elements_scalar (int z) h = (refl, refl)
elements_scalar (float bits) h = (refl, refl)
elements_scalar (str s) h = absurd (cc)
elements_scalar (bool b) h = absurd (cc)
elements_scalar null h = absurd (cc)
elements_scalar (arr xs) h = absurd (cc)
elements_scalar (obj d) h = absurd (cc)

mutual
  unfolding elements leaves

  pub leaves-elements : {ds : List ℕ} {v : Value} → IsShaped ds v → leaves v ≡ ok (elements v)
  leaves-elements (scalar {v = v} h) = (elements_scalar v h).1 ∙ ap ok (sym (elements_scalar v h).0)
  leaves-elements (nested rows) = leaves-elements_items rows

  leaves-elements_items :
      {d : ℕ} {ds : List ℕ} {xs : Items}
      → AreShaped d ds xs
      → leaves (arr xs) ≡ ok (elements_items xs)
  leaves-elements_items no_rows = refl
  leaves-elements_items (row shaped rest) =
      rw (leaves-elements shaped) (rw (leaves-elements_items rest))

mutual
  unfolding elements prod

  pub length-elements : {ds : List ℕ} {v : Value} → IsShaped ds v → length (elements v) ≡ prod ds
  length-elements (scalar {v = v} h) = ap length (elements_scalar v h).0
  length-elements (nested rows) = length-elements_items rows

  length-elements_items :
      {d : ℕ} {ds : List ℕ} {xs : Items}
      → AreShaped d ds xs
      → length (elements_items xs) ≡ d * prod ds
  length-elements_items no_rows = omega arith
  length-elements_items (row {d = d} {ds = ds} {x = x} {xs = xs} shaped rest) = grind (
    arith,
    length-append (elements x) (elements_items xs),
    length-elements shaped,
    length-elements_items rest,
  )

-- The slices of the elements of a list are the elements of its rows. `before` are the elements of
-- the rows before.
rows-elements_items :
    (g : List Value → Value) (chunk i : ℕ) (flat before : List Value) {d : ℕ} {ds : List ℕ}
    {xs : Items}
    → flat ≡ before ++ elements_items xs
    → chunk ≡ prod ds
    → length before ≡ i * chunk
    → AreShaped d ds xs
    → ((x : Value) → IsShaped ds x → g (elements x) ≡ x)
    → rows g chunk flat i d ≡ xs
unfolding rows elements
rows-elements_items g chunk i flat before split size here no_rows back = refl
rows-elements_items g chunk i flat before split size here (row {x = x} {xs = xs} shaped rest) back =
    let width : length (elements x) ≡ chunk = length-elements shaped ∙ sym size in
    let head : g (take chunk (drop (i * chunk) flat)) ≡ x =
      rw
        (
          split,
          drop-append_self (i * chunk) before (elements x ++ elements_items xs) here,
          take-append_self chunk (elements x) (elements_items xs) width,
        )
        (back x shaped) in
    ap₂ cons head (
      rows-elements_items g chunk (i + 1) flat (before ++ elements x)
        (split ∙ sym (append_assoc before (elements x) (elements_items xs))) size
        (grind (arith, length-append before (elements x), here, width)) rest back)

-- A flat list.
items_of-elements_items :
    {d : ℕ} {xs : Items} → AreShaped d [] xs → items_of (elements_items xs) ≡ xs
unfolding elements
items_of-elements_items no_rows = refl
items_of-elements_items (row {x = x} (scalar h) rest) =
    rw (elements_scalar x h).0 (ap (cons x) (items_of-elements_items rest))

pub prod_pos : (ds : List ℕ) → All (λ d. 0 < d) ds → 0 < prod ds
unfolding prod
prod_pos [] h = omega arith
prod_pos (d ∷ ds) (first, h) = grind (arith, prod_pos ds h)

pub reshape-elements :
    (ds : List ℕ) {v : Value} → All (λ d. 0 < d) ds → IsShaped ds v → reshape ds (elements v) ≡ v
unfolding reshape elements
reshape-elements [] h (scalar {v = v} e) = rw (elements_scalar v e).0
reshape-elements (d ∷ []) h (nested shaped) = ap arr (items_of-elements_items shaped)
reshape-elements (d ∷ e ∷ ds) (first, h) (nested {xs = xs} shaped) =
    let positive : (prod (e ∷ ds) == 0) ≡ false = ground (arith, prod_pos (e ∷ ds) h) in
    rw positive (
      ap arr (
        rows-elements_items (reshape (e ∷ ds)) (prod (e ∷ ds)) 0 (elements_items xs) [] refl refl
          (omega arith) shaped (λ x shaped'. reshape-elements (e ∷ ds) h shaped')))

infer_scalar : (v : Value) → number_of v ≡ ok v → infer_shape v ≡ []
unfolding infer_shape
infer_scalar (int z) h = refl
infer_scalar (float bits) h = refl
infer_scalar (str s) h = absurd (cc)
infer_scalar (bool b) h = absurd (cc)
infer_scalar null h = absurd (cc)
infer_scalar (arr xs) h = absurd (cc)
infer_scalar (obj d) h = absurd (cc)

count_items-AreShaped : {d : ℕ} {ds : List ℕ} {xs : Items} → AreShaped d ds xs → count_items xs ≡ d
unfolding infer_shape
count_items-AreShaped no_rows = refl
count_items-AreShaped (row shaped rest) = ap suc (count_items-AreShaped rest)

pub infer_shape-IsShaped :
    (ds : List ℕ) {v : Value} → All (λ d. 0 < d) ds → IsShaped ds v → infer_shape v ≡ ds
unfolding infer_shape
infer_shape-IsShaped [] h (scalar {v = v} e) = infer_scalar v e
infer_shape-IsShaped (d ∷ ds) (first, h) (nested no_rows) = absurd (omega arith)
infer_shape-IsShaped (d ∷ ds) (first, h) (nested (row shaped rest)) =
    ap₂ ◌∷◌ (ap suc (count_items-AreShaped rest)) (infer_shape-IsShaped ds h shaped)
