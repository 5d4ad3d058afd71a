-- ===== src/Pipeline/Bounds.antt =====
-- The values that the toy layers compute stay in range.
use computecloud_node.Prelude.{
  ℕ, zero, suc, ◌+◌, ◌-◌, ◌<◌, String, ◌≡◌, refl, List, [], ◌∷◌, All, arith, length, length-map,
  ◌∙◌,
}
use computecloud_node.Prelude.Int.{ℤ, pos, pos_part, neg_part, mod_ℤ-lt, ◌+ℤ◌, ◌*ℤ◌}
use computecloud_node.Python.Runtime.{Runtime}
use computecloud_node.Pipeline.{modulus, apply_layer, layer_params, run_layers_loop, run_layers}

-- A value in [0, modulus).
abbrev pub InRange : ℤ → Type 0
InRange z = (neg_part z ≡ 0) × (pos_part z < modulus)

apply_layer-InRange : (values : List ℤ) (mult bias : ℕ) → All InRange (apply_layer values mult bias)
unfolding apply_layer
apply_layer-InRange [] mult bias = tt
apply_layer-InRange (v ∷ values) mult bias = (
  (refl, mod_ℤ-lt (v *ℤ pos mult +ℤ pos bias) modulus (omega arith)),
  apply_layer-InRange values mult bias,
)

run_layers_loop-InRange :
    (rt : Runtime) (m : String) (rounds i : ℕ) (v : List ℤ)
    → All InRange v
    → All InRange (run_layers_loop rt m rounds i v)
unfolding run_layers_loop
run_layers_loop-InRange rt m zero i v h = h
run_layers_loop-InRange rt m (suc rounds) i v h =
    run_layers_loop-InRange rt m rounds (i + 1) _ (apply_layer-InRange v _ _)

some_layer-InRange :
    (rt : Runtime) (m : String) (rounds i : ℕ) (v : List ℤ)
    → All InRange (run_layers_loop rt m (suc rounds) i v)
unfolding run_layers_loop
some_layer-InRange rt m rounds i v =
    run_layers_loop-InRange rt m rounds (i + 1) _ (apply_layer-InRange v _ _)

length-run_layers_loop :
    (rt : Runtime) (m : String) (rounds i : ℕ) (v : List ℤ)
    → length (run_layers_loop rt m rounds i v) ≡ length v
unfolding run_layers_loop apply_layer
length-run_layers_loop rt m zero i v = refl
length-run_layers_loop rt m (suc rounds) i v =
    length-run_layers_loop rt m rounds (i + 1) _ ∙ length-map _ v

-- Whatever the input integers, once at least one layer has run every activation lies in
-- [0, modulus), and there are as many as there were inputs.
pub run_layers-InRange :
    (rt : Runtime) (m : String) (start stop : ℕ) (v : List ℤ)
    → start < stop
    → All InRange (run_layers rt m start stop v)
      × (length (run_layers rt m start stop v) ≡ length v)
unfolding run_layers
run_layers-InRange rt m start stop v h =
    let gap : stop - start ≡ suc (stop - start - 1) = omega arith in
    (
      rw gap (some_layer-InRange rt m (stop - start - 1) start v),
      length-run_layers_loop rt m (stop - start) start v,
    )

-- Of the parameters that are derived for a layer, the multiplier is in [1, modulus) and the bias in
-- [0, modulus).
pub layer_params_bounds :
    (rt : Runtime) (m : String) (i : ℕ)
    → (0 < (layer_params rt m i).0)
      × ((layer_params rt m i).0 < modulus)
      × ((layer_params rt m i).1 < modulus)
unfolding layer_params
layer_params_bounds rt m i = (omega arith, omega arith, omega arith)
