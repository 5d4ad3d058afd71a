-- ===== src/Tensor/Validation.antt =====
-- What `validate` lets through, and the way of a payload through a dict.
use computecloud_node.Prelude.{
  ℕ, ◌*◌, ◌≤◌, String, Option, none, some, ◌≡◌, refl, ap, ◌∙◌, sym, Bool, true, false, List, [],
  ◌∷◌, map, length, leb, leb→le, ◌==◌, ==_iff, not, str_eq, eq_iff, if◌then◌else◌, Bool-cases, inl,
  inr, ◌↔◌, arith,
}
use computecloud_node.Prelude.Int.{ℤ, pos, negsuc}
use computecloud_node.Python.{Result, ok, value_error, returns, check, int_items, truthy, to_int}
use computecloud_node.Python.Dict.{lookup}
use computecloud_node.Python.Runtime.{Runtime}
use computecloud_node.Python.Struct.{Format}
use computecloud_node.Tensor.{
  FloatFormats, TensorPayload, validate_shape, raw_bytes, find_dtype, or_unknown, dtype_info,
  validate, to_dict, from_dict, ints_of,
}
use computecloud_node.Tensor.Nested.{prod}

-- A payload whose text holds as many bytes as its shape and its data type need, up to a limit.
pub record IsWellFormed (floats : FloatFormats) (limit : ℕ) (t : TensorPayload) : Type 0 where
  pub dims : List ℕ
  pub format : Format
  pub raw : List ℕ
  pub non_negative : t.shape ≡ map pos dims
  pub known : find_dtype floats t.dtype ≡ some format
  pub decoded : raw_bytes t.data_b64 ≡ ok raw
  pub sized : length raw ≡ prod dims * format.size
  pub small : prod dims * format.size ≤ limit

pub validate_shape-map : (ds : List ℕ) → validate_shape (map pos ds) ≡ ok ds
unfolding validate_shape
validate_shape-map [] = refl
validate_shape-map (d ∷ ds) = rw (validate_shape-map ds)

ok_inj : {A : Type 0} (x y : A) → Result.ok x ≡ ok y → x ≡ y
ok_inj x y e = cc

map-validate_shape :
    (shape : List ℤ) (ds : List ℕ) → validate_shape shape ≡ ok ds → shape ≡ map pos ds
unfolding validate_shape
map-validate_shape [] ds e = rw (← ok_inj [] ds e)
map-validate_shape (negsuc n ∷ shape) ds e = absurd (cc)
map-validate_shape (pos n ∷ shape) ds e =
    let (rest, read, same) = returns (validate_shape shape) _ ds e in
    rw (← ok_inj (n ∷ rest) ds same) (ap (◌∷◌ (pos n)) (map-validate_shape shape rest read))

checked : (b : Bool) (done : Unit {0}) → check b value_error ≡ ok done → b ≡ true
checked true done e = refl
checked false done e = absurd (cc)

-- `s or ""`
or_empty : (s : String) → (if not (str_eq s "") then s else "") ≡ s
or_empty s = elim (Bool-cases (str_eq s "")) [
  | inl empty ↦ rw empty (sym ((eq_iff s "").0 empty))
  | inr full ↦ rw full
]

module _ (floats : FloatFormats) (limit : ℕ) (t : TensorPayload) where
  validate-ok : IsWellFormed floats limit t → validate floats limit t ≡ ok tt
  unfolding validate
  validate-ok w =
      let shape : validate_shape t.shape ≡ ok w.dims =
        ap validate_shape w.non_negative ∙ validate_shape-map w.dims in
      let info : dtype_info floats t.dtype ≡ ok w.format = ap or_unknown w.known in
      let same : (length w.raw == prod w.dims * w.format.size) ≡ true = (==_iff _ _).1 w.sized in
      let fits : leb (prod w.dims * w.format.size) limit ≡ true = ground (arith, w.small) in
      rw shape (rw info (rw w.decoded (rw same (rw fits))))

  format_of : (o : Option Format) (f : Format) → or_unknown o ≡ ok f → o ≡ some f
  format_of none f e = absurd (cc)
  format_of (some g) f e = ap some (ok_inj g f e)

  well_formed : (done : Unit {0}) → validate floats limit t ≡ ok done → IsWellFormed floats limit t
  unfolding validate
  well_formed done e =
      let (dims, shape, e1) = returns (validate_shape t.shape) _ done e in
      let (f, info, e2) = returns (dtype_info floats t.dtype) _ done e1 in
      let (raw, decoded, e3) = returns (raw_bytes t.data_b64) _ done e2 in
      let (ready, sized, e4) =
        returns (check (length raw == prod dims * f.size) value_error) _ done e3 in
      record {
        dims = dims;
        format = f;
        raw = raw;
        non_negative = map-validate_shape t.shape dims shape;
        known = format_of (find_dtype floats t.dtype) f info;
        decoded = decoded;
        sized = (==_iff _ _).0 (checked _ ready sized);
        small = leb→le _ _ (checked _ done e4);
      }

  -- `validate` returns exactly if no dimension is negative, the data type is known, the text is
  -- Base64, and its bytes are as many as shape and data type need and not more than the limit.
  pub validate_iff : (validate floats limit t ≡ ok tt) ↔ IsWellFormed floats limit t
  validate_iff = (well_formed tt, validate-ok)

  ints_of-int_items : (shape : List ℤ) → ints_of floats (int_items shape) ≡ ok shape
  unfolding ints_of to_int
  ints_of-int_items [] = refl
  ints_of-int_items (z ∷ shape) = rw (ints_of-int_items shape)

  -- A payload that `validate` lets through comes back from its dict.
  pub from_dict-to_dict :
      (rt : Runtime)
      → validate floats limit t ≡ ok tt
      → from_dict floats rt limit (to_dict floats t) ≡ ok t
  unfolding from_dict to_dict lookup truthy
  from_dict-to_dict rt valid = rw (ints_of-int_items t.shape) (rw (or_empty t.data_b64) (rw valid))
