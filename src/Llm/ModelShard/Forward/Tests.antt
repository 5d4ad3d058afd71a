-- ===== src/Llm/ModelShard/Forward/Tests.antt =====
-- A small model: a tensor is a number, and a layer adds one to it.
use computecloud_node.Prelude.{
  ℕ, ◌+◌, ◌*◌, ◌≡◌, refl, Option, none, some, List, [], ◌∷◌, ◌++◌, length,
}
use computecloud_node.Prelude.Int.{ℤ, pos}
use computecloud_node.Python.{Result, ok, raise, other_error}
use computecloud_node.Llm.ModelShard.Forward.{
  TensorCalls, Layer, ShardModule, shard_forward, shard_forward_cached, hidden_input, layer_loop,
  headed,
}
use computecloud_node.Llm.ModelShard.Forward.Composition.{whole, first_shard, last_shard}
use computecloud_node.Llm.ModelShard.Forward.Layers.{Preserves}
use computecloud_node.Llm.ModelShard.Forward.Generation.{
  generate, generate_split, generate-generate_split,
}

abbrev torch : TensorCalls ℕ ℕ
torch = record {
  to_dtype = λ x. x;
  unsqueeze = λ x. x;
  dim = λ x. 3;
  seq_len = λ x. 1;
  rope = λ n offset. n;
}

-- A layer adds what it has cached, or one, and caches its output.
abbrev cached : Option ℕ → ℕ
cached none = 1
cached (some kv) = kv

abbrev layer : Layer ℕ ℕ ℕ
layer tables past x = ok (x + cached past, x + cached past)

abbrev twice : ℕ → Result ℕ
twice x = ok (2 * x)

layer-Preserves : Preserves torch layer
layer-Preserves n tables past h out kv hidden e = record { plain = refl; length = hidden.length }

runs :
    shard_forward torch
      (whole torch (some twice) (layer ∷ layer ∷ []) (some twice) none)
      none
      (pos 0)
      5
    ≡ ok 24
unfolding shard_forward shard_forward_cached hidden_input layer_loop headed
runs = refl

-- The second layer has nothing cached.
too_short :
    shard_forward_cached torch
      (whole torch (some twice) (layer ∷ layer ∷ []) (some twice) none)
      (some (1 ∷ []))
      (pos 0)
      5
    ≡ raise other_error
unfolding shard_forward_cached hidden_input layer_loop headed
too_short = refl

-- A pass is given the number of outputs so far.
abbrev next : List ℕ → ℤ × ℕ
next outs = (pos 0, length outs)

abbrev model : ShardModule ℕ ℕ ℕ
model = whole torch (some twice) ((layer ∷ []) ++ layer ∷ []) (some twice) none

generates : generate torch next model 3 [] none ≡ ok (4 ∷ 10 ∷ 24 ∷ [])
unfolding generate shard_forward_cached hidden_input layer_loop headed
generates = refl

generate-generate_split_example :
    generate torch next model 3 [] none
    ≡ generate_split torch next
        (first_shard torch (some twice) (layer ∷ []))
        (last_shard torch (layer ∷ []) (some twice) none)
        3
        []
        none
        none
generate-generate_split_example =
    generate-generate_split torch next (some twice) (some twice) none (layer ∷ []) (layer ∷ [])
      (layer-Preserves, tt) (λ t. refl) 3 [] none none tt
