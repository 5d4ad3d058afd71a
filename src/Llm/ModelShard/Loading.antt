-- ===== src/Llm/ModelShard/Loading.antt =====
-- What loading leaves of a module, and which keys it looks for.
use computecloud_node.Prelude.{
  ℕ, ◌+◌, ◌-◌, ◌*◌, ◌≡◌, refl, ◌∙◌, sym, ap, Bool, true, false, Option, none, some, List, [], ◌∷◌,
  ◌++◌, all, all-append, drop, ◌&&◌, ◌||◌, arith, inl, inr, Bool-cases, Option-cases, length, zero,
  suc,
}
use computecloud_node.Prelude.Equality.{◌≟◌, lookup, insert, text_eq}
use computecloud_node.Prelude.Int.{ℤ, ◌-ℤ◌}
use computecloud_node.Python.{ok, codes}
use computecloud_node.Python.Effect.{Keeps, lift-Keeps, then_Keeps}
use computecloud_node.Python.Text.{starts_with, same_text}
use computecloud_node.Llm.Weights.{
  read_layer, layer_of, layer_prefix, in_range, is_embedding, is_head, selected, keys_for_shard,
}
use computecloud_node.Llm.ModelShard.{
  read_index, read_line, line_at, with_line, match_layer, model_prefix, layers_prefix, renamed,
  local_key, copy_into, load_one, load_loop, noted, load_state_dict,
}

module _ {T : Type 0} (shape : T → List ℕ) where
  -- The keys of a module with the shapes of their tensors.
  abbrev pub shapes : List (List ℕ × T) → List (List ℕ × List ℕ)
  shapes [] = []
  shapes ((key, tensor) ∷ own) = (key, shape tensor) ∷ shapes own

  shapes-insert :
      (key : List ℕ) (tensor old : T) (own : List (List ℕ × T))
      → lookup key own ≡ some old
      → shape tensor ≡ shape old
      → shapes (insert key tensor own) ≡ shapes own
  unfolding lookup insert
  shapes-insert key tensor old [] found same = absurd (cc found)
  shapes-insert key tensor old ((k, t) ∷ own) found same = elim (Bool-cases (key ≟ k)) [
    | inl here ↦
        let first : ◌≡◌ {A = Option T} (some t) (some old) = rw here at found in
        rw here (ap (λ s. (k, s) ∷ shapes own) (same ∙ sym (ground (arith, first))))
    | inr later ↦
        let rest : lookup key own ≡ some old = rw later at found in
        rw later (ap (λ rest. (k, shape t) ∷ rest) (shapes-insert key tensor old own rest same))
  ]

  same_shape : (a b : List ℕ) → (a ≟ b) ≡ true → a ≡ b
  same_shape a b h = ground (arith, h)

  module _ (start end : ℤ) (own₀ : List (List ℕ × T)) where
    abbrev IsShaped : List (List ℕ × T) → Type 0
    IsShaped own = shapes own ≡ shapes own₀

    copy_into-Keeps :
        (lk : List ℕ) (val : T) (found : Option T) (own : List (List ℕ × T))
        → lookup lk own ≡ found
        → IsShaped own
        → IsShaped (copy_into shape start end lk val found own).1
    unfolding copy_into
    copy_into-Keeps lk val none own e h = h
    copy_into-Keeps lk val (some old) own e h = elim (Bool-cases (shape val ≟ shape old)) [
      | inl same ↦
          rw same (shapes-insert lk val old own e (same_shape (shape val) (shape old) same) ∙ h)
      | inr other ↦ rw other h
    ]

    load_one-Keeps :
        (lk : Option (List ℕ)) (val : T) → Keeps IsShaped (load_one shape start end lk val)
    unfolding load_one
    load_one-Keeps none val own h = h
    load_one-Keeps (some lk) val own h = copy_into-Keeps lk val (lookup lk own) own refl h

    load_loop-Keeps :
        (state_dict : List (List ℕ × T)) (loaded : List (List ℕ))
        → Keeps IsShaped (load_loop shape start end state_dict loaded)
    unfolding load_loop
    load_loop-Keeps [] loaded = lift-Keeps IsShaped (ok loaded)
    load_loop-Keeps ((key, val) ∷ state_dict) loaded =
        then_Keeps IsShaped _ _ (load_one-Keeps (local_key start end key) val)
          (λ found. load_loop-Keeps state_dict (noted shape start end found loaded))

  -- `load_state_dict`, whether it returns or raises, leaves the module with the same keys in the same
  -- order, and each of its tensors with the shape that it had.
  pub load_state_dict-shapes :
      (start end : ℤ) (state_dict own : List (List ℕ × T))
      → shapes (load_state_dict shape start end state_dict own).1 ≡ shapes own
  unfolding load_state_dict
  load_state_dict-shapes start end state_dict own =
      load_loop-Keeps start end own state_dict [] own refl

-- The two regular expressions read the same number.
abbrev first_of : Option (ℕ × List ℕ) → Option ℕ
first_of none = none
first_of (some (i, s)) = some i

read_index-layer : (seen : Option ℕ) (s : List ℕ) → first_of (read_index seen s) ≡ read_layer seen s
unfolding read_index read_layer
read_index-layer seen [] = refl
read_index-layer none (c ∷ s) = ground (arith, read_index-layer (some (c - 48)) s)
read_index-layer (some n) (c ∷ s) = ground (arith, read_index-layer (some (n * 10 + (c - 48))) s)

abbrev pub is_some : Option (List ℕ) → Bool
is_some none = false
is_some (some s) = true

renamed-in_range :
    (start end : ℤ) (lk tail : List ℕ) (i : ℕ)
    → in_range start end i ≡ true
    → is_some (renamed start end lk (some (i, tail))) ≡ true
unfolding renamed ◌-ℤ◌
renamed-in_range start end lk tail i h = ground arith

renamed-line_at :
    (start end : ℤ) (lk : List ℕ) (i : ℕ) (line : Option (List ℕ))
    → in_range start end i ≡ true
    → is_some (renamed start end lk (line_at i line)) ≡ true
renamed-line_at start end lk i none h = unfold renamed in refl
renamed-line_at start end lk i (some tail) h = renamed-in_range start end lk tail i h

renamed-with_line :
    (start end : ℤ) (lk : List ℕ) (i : ℕ) (found : Option (ℕ × List ℕ))
    → first_of found ≡ some i
    → in_range start end i ≡ true
    → is_some (renamed start end lk (with_line found)) ≡ true
renamed-with_line start end lk i none e h = absurd (cc e)
renamed-with_line start end lk i (some (j, s)) e h =
    let same : j ≡ i = ground (arith, e) in renamed-line_at start end lk j (read_line s) (rw same h)

starts_with-split :
    (s p q : List ℕ)
    → starts_with s (p ++ q) ≡ (starts_with s p && starts_with (drop (length p) s) q)
unfolding starts_with
starts_with-split s [] q = refl
starts_with-split [] (d ∷ p) q = refl
starts_with-split (c ∷ s) (d ∷ p) q = ground (arith, starts_with-split s p q)

drop_empty : (n : ℕ) → ◌≡◌ {A = List ℕ} (drop n []) []
drop_empty zero = refl
drop_empty (suc n) = refl

drop-drop : (m n : ℕ) (s : List ℕ) → drop m (drop n s) ≡ drop (n + m) s
drop-drop m zero s = ap (λ k. drop k s) (omega arith)
drop-drop m (suc n) [] =
    let sum : suc n + m ≡ suc (n + m) = omega arith in rw (drop_empty m, sum) refl
drop-drop m (suc n) (c ∷ s) =
    let sum : suc n + m ≡ suc (n + m) = omega arith in rw sum (drop-drop m n s)

-- A key of a layer in the range is looked for.
local_key-layer :
    (start end : ℤ) (key : List ℕ) (i : ℕ)
    → layer_of key ≡ some i
    → in_range start end i ≡ true
    → is_some (local_key start end key) ≡ true
unfolding local_key match_layer layer_of
local_key-layer start end key i e h = elim (Bool-cases (starts_with key layer_prefix)) [
  | inr other ↦ absurd (cc (rw other at e))
  | inl layer ↦
      let split = sym (starts_with-split key model_prefix layers_prefix) ∙ layer in
      let model : starts_with key model_prefix ≡ true = ground (arith, split) in
      let layers : starts_with (drop 6 key) layers_prefix ≡ true = ground (arith, split) in
      let number : first_of (read_index none (drop 7 (drop 6 key))) ≡ some i =
        ap (λ s. first_of (read_index none s)) (drop-drop 7 6 key)
        ∙ read_index-layer none (drop 13 key)
        ∙ (rw layer at e) in
      rw model (rw layers (renamed-with_line start end (drop 6 key) i _ number h))
]

same_text-eq : (s t : List ℕ) → same_text s t ≡ true → s ≡ t
unfolding same_text
same_text-eq [] [] h = refl
same_text-eq [] (d ∷ t) h = absurd (cc h)
same_text-eq (c ∷ s) [] h = absurd (cc h)
same_text-eq (c ∷ s) (d ∷ t) h = ground (arith, same_text-eq s t)

-- A key of the embedding or of the head is looked for.
local_key-word :
    (start end : ℤ) (word key : List ℕ)
    → is_some (local_key start end word) ≡ true
    → same_text key word ≡ true
    → is_some (local_key start end key) ≡ true
local_key-word start end word key found same = rw (same_text-eq key word same) found

embedding :
    (start end : ℤ) → is_some (local_key start end (codes "model.embed_tokens.weight")) ≡ true
unfolding local_key match_layer renamed starts_with read_index
embedding start end = refl

norm : (start end : ℤ) → is_some (local_key start end (codes "model.norm.weight")) ≡ true
unfolding local_key match_layer renamed starts_with read_index
norm start end = refl

head : (start end : ℤ) → is_some (local_key start end (codes "lm_head.weight")) ≡ true
unfolding local_key match_layer renamed starts_with read_index
head start end = refl

model_head : (start end : ℤ) → is_some (local_key start end (codes "model.lm_head.weight")) ≡ true
unfolding local_key match_layer renamed starts_with read_index
model_head start end = refl

local_key-constant :
    (start end : ℤ) (key : List ℕ)
    → (is_embedding key || is_head key) ≡ true
    → is_some (local_key start end key) ≡ true
local_key-constant start end key h =
    let word = λ (w : List ℕ). local_key-word start end w key in
    ground (
      arith,
      word (codes "model.embed_tokens.weight") (embedding start end),
      word (codes "model.norm.weight") (norm start end),
      word (codes "lm_head.weight") (head start end),
      word (codes "model.lm_head.weight") (model_head start end),
    )

all-selected :
    (start end : ℤ) (first last : Bool) (key : List ℕ)
    → all (λ k. is_some (local_key start end k)) (selected start end first last key) ≡ true
unfolding selected
all-selected start end first last key = elim (Option-cases (layer_of key)) [
  | inr (i, layer) ↦ elim (Bool-cases (in_range start end i)) [
    | inl inside ↦
        rw (layer, selected) (rw inside (rw (local_key-layer start end key i layer inside) refl))
    | inr outside ↦ rw (layer, selected) (rw outside refl)
  ]
  | inl constant ↦ rw (constant, selected) (ground (arith, local_key-constant start end key))
]

-- A key that `keys_for_shard` selects for a range of layers is never skipped by `load_state_dict`
-- of a module of that range: it is looked for in the module.
pub local_key-keys_for_shard :
    (start end : ℤ) (first last : Bool) (keys : List (List ℕ))
    → all (λ key. is_some (local_key start end key)) (keys_for_shard start end first last keys)
      ≡ true
unfolding keys_for_shard
local_key-keys_for_shard start end first last [] = refl
local_key-keys_for_shard start end first last (key ∷ keys) = ground (
  arith,
  all-selected start end first last key,
  local_key-keys_for_shard start end first last keys,
  all-append (λ k. is_some (local_key start end k)) (selected start end first last key)
      (keys_for_shard start end first last keys),
)
