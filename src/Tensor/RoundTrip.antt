-- ===== src/Tensor/RoundTrip.antt =====
-- Packing a nested list and unpacking it again.
use computecloud_node.Prelude.{
  ℕ, ◌*◌, ◌<◌, ◌≤◌, String, ◌≡◌, refl, ap, ◌∙◌, sym, true, false, some, List, [], ◌∷◌, map, length,
  All, leb, ◌==◌, ==_iff, str_eq, eq_iff, Bool-cases, inl, inr, arith,
}
use computecloud_node.Prelude.Int.{pos}
use computecloud_node.Python.{ok, Value, null, bool, int, float, str, arr, obj}
use computecloud_node.Python.Base64
use computecloud_node.Python.Base64.{AllBytes}
use computecloud_node.Python.Base64.RoundTrip.{decode-encode}
use computecloud_node.Python.Struct.{Format, format_q, fits_word, pack, unpack}
use computecloud_node.Python.Struct.RoundTrip.{IsExact, int-IsExact, ArePacked, pack-IsExact}
use computecloud_node.Tensor.{
  FloatFormats, TensorPayload, default_max_decoded_bytes, raw_bytes, find_dtype, packed_as,
  or_unknown, dtype_info, validate, packed_payload, from_nested_list, nested_of, to_nested_list,
}
use computecloud_node.Tensor.Validation.{validate_shape-map}
use computecloud_node.Tensor.Nested.{prod}
use computecloud_node.Tensor.Flatten.{flatten-leaves}
use computecloud_node.Tensor.Reshape.{
  IsShaped, elements, prod_pos, leaves-elements, length-elements, reshape-elements,
  infer_shape-IsShaped,
}

decode_empty : Base64.decode "" ≡ ok []
unfolding Base64.decode
decode_empty = refl

raw_bytes-encode : (bytes : List ℕ) → AllBytes bytes → raw_bytes (Base64.encode bytes) ≡ ok bytes
raw_bytes-encode bytes h = elim (Bool-cases (str_eq (Base64.encode bytes) "")) [
  | inl empty ↦ rw empty (
      sym decode_empty
      ∙ ap Base64.decode (sym ((eq_iff (Base64.encode bytes) "").0 empty))
      ∙ decode-encode bytes h)
  | inr full ↦ rw full (decode-encode bytes h)
]

abbrev payload_of : String → List ℕ → List ℕ → TensorPayload
payload_of dtype ds bytes = record {
  shape = map pos ds;
  dtype = dtype;
  data_b64 = Base64.encode bytes;
}

module _ (floats : FloatFormats) (dtype : String) (f : Format) (ds : List ℕ) (bytes : List ℕ)
    (known : find_dtype floats dtype ≡ some f) (in_range : AllBytes bytes)
    (sized : length bytes ≡ prod ds * f.size) where
  info : dtype_info floats dtype ≡ ok f
  info = ap or_unknown known

  validate_payload :
      (limit : ℕ)
      → prod ds * f.size ≤ limit
      → validate floats limit (payload_of dtype ds bytes) ≡ ok tt
  unfolding validate
  validate_payload limit small =
      let same : (length bytes == prod ds * f.size) ≡ true = (==_iff _ _).1 sized in
      let fits : leb (prod ds * f.size) limit ≡ true = ground arith in
      rw (validate_shape-map ds)
        (rw info (rw (raw_bytes-encode bytes in_range) (rw same (rw fits))))

  to_nested_list_payload :
      prod ds * f.size ≤ default_max_decoded_bytes
      → to_nested_list floats (payload_of dtype ds bytes) ≡ ok (nested_of floats f ds bytes)
  unfolding to_nested_list
  to_nested_list_payload small =
      rw (validate_payload default_max_decoded_bytes small)
        (rw info (rw (validate_shape-map ds) (rw (raw_bytes-encode bytes in_range))))

  packed_payload_lem :
      (limit : ℕ) (values : List Value)
      → pack f values ≡ ok bytes
      → prod ds * f.size ≤ limit
      → packed_payload floats limit dtype f ds (some (ok values))
        ≡ some (ok (payload_of dtype ds bytes))
  unfolding packed_payload
  packed_payload_lem limit values packs small = rw packs (rw (validate_payload limit small))

-- A nested list of a shape whose elements a format keeps.
module _ (floats : FloatFormats) (dtype : String) (f : Format) (ds : List ℕ) (nested : Value)
    (known : find_dtype floats dtype ≡ some f) (positive : All (λ d. 0 < d) ds)
    (shaped : IsShaped ds nested) (p : ArePacked f (elements nested)) where
  packed_size : length p.bytes ≡ prod ds * f.size
  packed_size = p.sized ∙ ap (λ (n : ℕ). n * f.size) (length-elements shaped)

  from_nested_list-payload_of :
      (limit : ℕ)
      → prod ds * f.size ≤ limit
      → from_nested_list floats limit nested dtype ≡ some (ok (payload_of dtype ds p.bytes))
  unfolding from_nested_list packed_as
  from_nested_list-payload_of limit small =
      rw (flatten-leaves nested, leaves-elements shaped, infer_shape-IsShaped ds positive shaped)
        (ap (packed_as floats limit dtype ds (some (ok (elements nested)))) known
          ∙ packed_payload_lem floats dtype f ds p.bytes known p.in_range packed_size limit
              (elements nested) p.packs small)

  nested_of-elements : nested_of floats f ds p.bytes ≡ nested
  nested_of-elements =
      let some_elements : (prod ds == 0) ≡ false = ground (arith, prod_pos ds positive) in
      let same : unpack f (prod ds) p.bytes ≡ elements nested =
        ap (λ (n : ℕ). unpack f n p.bytes) (sym (length-elements shaped)) ∙ p.reads in
      rw some_elements (rw same (reshape-elements ds positive shaped))

-- An integer of 64 bits.
abbrev pub IsWord : Value → Type 0
IsWord (int z) = fits_word z ≡ true
IsWord _ = ⊥

All-IsExact : (vs : List Value) → All IsWord vs → All (IsExact format_q) vs
All-IsExact [] h = tt
All-IsExact (int z ∷ vs) (fits, h) = (int-IsExact z fits, All-IsExact vs h)
All-IsExact (float bits ∷ vs) (fits, h) = absurd fits
All-IsExact (str s ∷ vs) (fits, h) = absurd fits
All-IsExact (bool b ∷ vs) (fits, h) = absurd fits
All-IsExact (null ∷ vs) (fits, h) = absurd fits
All-IsExact (arr xs ∷ vs) (fits, h) = absurd fits
All-IsExact (obj d ∷ vs) (fits, h) = absurd fits

-- A nested list of 64-bit integers, whose rows at each depth have one length that is not zero, and
-- whose bytes meet the cap of the call and the default cap: `from_nested_list` packs it as `int64`,
-- and `to_nested_list` gives it back.
pub to_nested_list-from_nested_list :
    (floats : FloatFormats) (limit : ℕ) (ds : List ℕ) (nested : Value)
    → All (λ d. 0 < d) ds
    → IsShaped ds nested
    → All IsWord (elements nested)
    → prod ds * 8 ≤ limit
    → prod ds * 8 ≤ default_max_decoded_bytes
    → (t : TensorPayload) × (from_nested_list floats limit nested "int64" ≡ some (ok t))
      × (to_nested_list floats t ≡ ok nested)
to_nested_list-from_nested_list floats limit ds nested positive shaped words small small' =
    let p = pack-IsExact format_q (elements nested) (All-IsExact (elements nested) words) in
    (
      payload_of "int64" ds p.bytes,
      from_nested_list-payload_of floats "int64" format_q ds nested refl positive shaped p limit
          small,
      to_nested_list_payload floats "int64" format_q ds p.bytes refl p.in_range
            (packed_size floats "int64" format_q ds nested refl positive shaped p) small'
          ∙ ap ok (nested_of-elements floats "int64" format_q ds nested refl positive shaped p),
    )
