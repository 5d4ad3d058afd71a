-- ===== src/Llm/Weights.antt =====
-- src/computecloud_node/llm/weights.py: which tensors of a model a shard loads. A key is the list of
-- its code points; the digits of a layer number are ASCII.
pub mod Shards
mod Tests
use computecloud_node.Prelude.{
  ℕ, ◌+◌, ◌-◌, ◌*◌, Bool, Option, none, some, List, [], ◌∷◌, ◌++◌, drop, length, ◌&&◌, ◌||◌, not,
  ◌==◌, if◌then◌else◌,
}
use computecloud_node.Prelude.Int.{ℤ, pos, ltb_ℤ}
use computecloud_node.Python.{codes, is_digit}
use computecloud_node.Python.Text.{starts_with, same_text}

-- `(\d+)\.` at the start of a text: the number, if there is one. `seen` is the number so far.
unfoldable pub read_layer : Option ℕ → List ℕ → Option ℕ
read_layer seen [] = none
read_layer none (c ∷ s) =
    let rest = read_layer (some (c - 48)) s in if is_digit c then rest else none
read_layer (some n) (c ∷ s) =
    let rest = read_layer (some (n * 10 + (c - 48))) s in
    if is_digit c then rest else if c == b'.' then some n else none

abbrev pub layer_prefix : List ℕ
layer_prefix = codes "model.layers."

-- `_LAYER_KEY_RE.match(key)`: the number of the layer.
unfoldable pub layer_of : List ℕ → Option ℕ
unfolding read_layer starts_with
layer_of key =
    if starts_with key layer_prefix then read_layer none (drop (length layer_prefix) key) else none

-- `i in set(range(start, end))`
abbrev pub in_range : ℤ → ℤ → ℕ → Bool
in_range start end i = not (ltb_ℤ (pos i) start) && ltb_ℤ (pos i) end

abbrev pub is_embedding : List ℕ → Bool
is_embedding key = same_text key (codes "model.embed_tokens.weight")

abbrev pub is_head : List ℕ → Bool
is_head key =
    same_text key (codes "model.norm.weight")
    || same_text key (codes "lm_head.weight")
    || same_text key (codes "model.lm_head.weight")

abbrev pub when {ℓ} : {A : Type ℓ} → Bool → A → List A
when b x = if b then x ∷ [] else []

-- What one round of the loop over the keys appends.
unfoldable pub selected : ℤ → ℤ → Bool → Bool → List ℕ → List (List ℕ)
selected start_layer end_layer is_first is_last key = elim (layer_of key) [
  | some i ↦ when (in_range start_layer end_layer i) key
  | none ↦ when (is_first && is_embedding key) key ++ when (is_last && is_head key) key
]

-- `keys_for_shard`
unfoldable pub keys_for_shard : ℤ → ℤ → Bool → Bool → List (List ℕ) → List (List ℕ)
keys_for_shard start_layer end_layer is_first is_last [] = []
keys_for_shard start_layer end_layer is_first is_last (key ∷ keys) =
    selected start_layer end_layer is_first is_last key
    ++ keys_for_shard start_layer end_layer is_first is_last keys
