-- ===== src/Tensor/Loss.antt =====
-- What a payload does not keep of a nested list.
use computecloud_node.Prelude.{
  ℕ, String, ◌≡◌, true, ap, ap₂, ◌∙◌, sym, some, List, ◌∷◌, map, ◌==◌, ==_iff, arith,
}
use computecloud_node.Prelude.Int.{pos}
use computecloud_node.Python.{ok, Value, arr}
use computecloud_node.Python.Struct.{Format}
use computecloud_node.Tensor.{
  FloatFormats, TensorPayload, default_max_decoded_bytes, validate_shape, find_dtype, or_unknown,
  packed_as, validate, from_nested_list, nested_of, to_nested_list,
}
use computecloud_node.Tensor.Nested.{prod, infer_shape, reshape, empties}
use computecloud_node.Tensor.Flatten.{leaves, flatten-leaves}
use computecloud_node.Tensor.Validation.{validate_shape-map, validate_iff}

module _ (floats : FloatFormats) where
  -- Two nested lists with the same elements in the same order, and the same lengths along their
  -- first rows, are packed alike, whatever the lengths of their other rows are: `from_nested_list`
  -- does not tell a ragged list from a rectangular one.
  pub from_nested_list_ragged :
      (limit : ℕ) (dtype : String) (a b : Value)
      → infer_shape a ≡ infer_shape b
      → leaves a ≡ leaves b
      → from_nested_list floats limit a dtype ≡ from_nested_list floats limit b dtype
  unfolding from_nested_list
  from_nested_list_ragged limit dtype a b shapes elements =
      ap₂ (λ s f. packed_as floats limit dtype s f (find_dtype floats dtype)) shapes
        (flatten-leaves a ∙ ap some elements ∙ sym (flatten-leaves b))

  nested_of-empties :
      (f : Format) (d e : ℕ) (ds raw : List ℕ)
      → prod (e ∷ ds) ≡ 0
      → nested_of floats f (d ∷ e ∷ ds) raw ≡ arr (empties d)
  unfolding reshape
  nested_of-empties f d e ds raw hollow =
      let none_in_rows : (prod (e ∷ ds) == 0) ≡ true = (==_iff _ _).1 hollow in
      let none_at_all : (prod (d ∷ e ∷ ds) == 0) ≡ true = (==_iff _ _).1 (grind (arith, hollow)) in
      rw (none_at_all, none_in_rows)

  -- Of a payload that is valid and whose dimensions after the first have the product 0,
  -- `to_nested_list` gives as many empty lists as the first dimension says, however many dimensions
  -- there are.
  pub to_nested_list-empties :
      (t : TensorPayload) (d e : ℕ) (ds : List ℕ)
      → validate floats default_max_decoded_bytes t ≡ ok tt
      → t.shape ≡ map pos (d ∷ e ∷ ds)
      → prod (e ∷ ds) ≡ 0
      → to_nested_list floats t ≡ ok (arr (empties d))
  unfolding to_nested_list
  to_nested_list-empties t d e ds valid shape hollow =
      let w = (validate_iff floats default_max_decoded_bytes t).0 valid in
      let dims : validate_shape t.shape ≡ ok (d ∷ e ∷ ds) =
        ap validate_shape shape ∙ validate_shape-map (d ∷ e ∷ ds) in
      rw valid (
        rw (ap or_unknown w.known)
          (rw dims (rw w.decoded (ap ok (nested_of-empties w.format d e ds w.raw hollow)))))
