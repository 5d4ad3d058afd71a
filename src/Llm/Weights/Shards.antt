-- ===== src/Llm/Weights/Shards.antt =====
-- src/computecloud_node/llm/weights.py: what the shards of adjacent layer ranges load together.
use computecloud_node.Prelude.{
  ℕ, ◌+◌, ◌≤◌, ◌≡◌, refl, Bool, true, false, List, [], ◌∷◌, ◌++◌, if◌then◌else◌, arith,
}
use computecloud_node.Prelude.Int.{ℤ, pos_part, neg_part}
use computecloud_node.Python.Text.{same_text}
use computecloud_node.Llm.Weights.{selected, keys_for_shard}

-- How often a key is in a list.
pub occurrences : List ℕ → List (List ℕ) → ℕ
occurrences key [] = 0
occurrences key (k ∷ keys) =
    let rest = occurrences key keys in if same_text key k then rest + 1 else rest

occurrences-append :
    (key : List ℕ) (xs ys : List (List ℕ))
    → occurrences key (xs ++ ys) ≡ occurrences key xs + occurrences key ys
unfolding occurrences
occurrences-append key [] ys = omega arith
occurrences-append key (x ∷ xs) ys = ground (arith, occurrences-append key xs ys)

abbrev pub ◌≤ℤ◌ : ℤ → ℤ → Type 0
◌≤ℤ◌ a b = pos_part a + neg_part b ≤ pos_part b + neg_part a

selected-split :
    (key k : List ℕ) (s m e : ℤ) (first last : Bool)
    → ◌≤ℤ◌ s m
    → ◌≤ℤ◌ m e
    → occurrences key (selected s e first last k)
      ≡ occurrences key (selected s m first false k) + occurrences key (selected m e false last k)
unfolding selected occurrences
selected-split key k s m e first last h h' = ground arith

keys_for_shard-split :
    (key : List ℕ) (s m e : ℤ) (first last : Bool) (keys : List (List ℕ))
    → ◌≤ℤ◌ s m
    → ◌≤ℤ◌ m e
    → occurrences key (keys_for_shard s e first last keys)
      ≡ occurrences key (keys_for_shard s m first false keys)
        + occurrences key (keys_for_shard m e false last keys)
unfolding keys_for_shard
keys_for_shard-split key s m e first last [] h h' = unfold occurrences in refl
keys_for_shard-split key s m e first last (k ∷ keys) h h' = omega (
  arith,
  selected-split key k s m e first last h h',
  keys_for_shard-split key s m e first last keys h h',
  occurrences-append key (selected s e first last k) (keys_for_shard s e first last keys),
  occurrences-append key (selected s m first false k) (keys_for_shard s m first false keys),
  occurrences-append key (selected m e false last k) (keys_for_shard m e false last keys),
)

-- The end of the last of the ranges that begin at `start` and end at the given layers.
abbrev pub last_layer : ℤ → List ℤ → ℤ
last_layer start [] = start
last_layer start (e ∷ ends) = last_layer e ends

-- The layers go up.
abbrev pub Ascending : ℤ → List ℤ → Type 0
Ascending start [] = Unit
Ascending start (e ∷ ends) = (◌≤ℤ◌ start e) × Ascending e ends

-- What shards of adjacent ranges load together; the first holds the embedding, the last the head.
pub load_shards : Bool → ℤ → List ℤ → List (List ℕ) → List (List ℕ)
load_shards is_first start [] keys = []
load_shards is_first start (e ∷ []) keys = keys_for_shard start e is_first true keys
load_shards is_first start (m ∷ e ∷ ends) keys =
    keys_for_shard start m is_first false keys ++ load_shards false m (e ∷ ends) keys

Ascending-last :
    (start : ℤ) (ends : List ℤ) → Ascending start ends → ◌≤ℤ◌ start (last_layer start ends)
Ascending-last start [] h = omega arith
Ascending-last start (e ∷ ends) (first, h) = omega (arith, Ascending-last e ends h)

-- Shards of adjacent layer ranges, of which the first holds the embedding and the last the head,
-- load together every key as often as one shard of all their layers: none is left out, and none is
-- loaded twice.
pub load_shards-keys_for_shard :
    (key : List ℕ) (is_first : Bool) (start e : ℤ) (ends : List ℤ) (keys : List (List ℕ))
    → Ascending start (e ∷ ends)
    → occurrences key (load_shards is_first start (e ∷ ends) keys)
      ≡ occurrences key (keys_for_shard start (last_layer start (e ∷ ends)) is_first true keys)
unfolding load_shards
load_shards-keys_for_shard key is_first start e [] keys h = refl
load_shards-keys_for_shard key is_first start m (e ∷ ends) keys (first, h) = omega (
  arith,
  load_shards-keys_for_shard key false m e ends keys h,
  occurrences-append key (keys_for_shard start m is_first false keys)
      (load_shards false m (e ∷ ends) keys),
  keys_for_shard-split key start m (last_layer m (e ∷ ends)) is_first true keys first
      (Ascending-last m (e ∷ ends) h),
)
