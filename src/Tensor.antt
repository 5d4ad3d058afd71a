-- ===== src/Tensor.antt =====
-- src/computecloud_node/tensor_format.py: `TensorPayload`. Bytes are packed by `Python.Struct` and
-- encoded by `Python.Base64`.
pub mod Nested
pub mod Flatten
pub mod Reshape
pub mod RoundTrip
pub mod Loss
pub mod Validation
mod Tests
use computecloud_node.Prelude.{
  ℕ, ◌*◌, String, Option, none, some, List, [], ◌∷◌, length, map, leb, ◌==◌, str_eq, not,
  if◌then◌else◌,
}
use computecloud_node.Prelude.Int.{ℤ, pos, negsuc}
use computecloud_node.Python.{
  Result, ok, raise, ◌>>=◌, value_error, Value, int, str, arr, Items, nil, cons, Fields, empty,
  entry, check, int_items, truthy, to_int,
}
use computecloud_node.Python.Base64
use computecloud_node.Python.Dict.{get_or}
use computecloud_node.Python.Runtime.{Runtime, to_str}
use computecloud_node.Python.Struct.{Format, format_q, pack, unpack}
use Nested.{prod, flatten, infer_shape, reshape}

-- The formats `f` and `e` of `struct`, which convert floats.
pub record FloatFormats : Type 0 where
  pub single : Format
  pub half : Format

pub record TensorPayload : Type 0 where
  pub shape : List ℤ
  pub dtype : String
  pub data_b64 : String

-- `DEFAULT_MAX_DECODED_BYTES`
unfoldable pub default_max_decoded_bytes : ℕ
default_max_decoded_bytes = 256 * 1024 * 1024

-- `_validate_shape`: the dimensions, none of which is negative.
unfoldable pub validate_shape : List ℤ → Result (List ℕ)
validate_shape [] = ok []
validate_shape (negsuc n ∷ ds) = raise value_error
validate_shape (pos n ∷ ds) = let rest = validate_shape ds in do dims ← rest; ok (n ∷ dims)

-- `base64.b64decode(self.data_b64) if self.data_b64 else b""`
abbrev pub raw_bytes : String → Result (List ℕ)
raw_bytes data_b64 = if str_eq data_b64 "" then ok [] else Base64.decode data_b64

abbrev pub or_unknown : Option Format → Result Format
or_unknown none = raise value_error
or_unknown (some f) = ok f

module _ (floats : FloatFormats) where
  -- `_DTYPE_INFO.get(dtype)`
  abbrev pub find_dtype : String → Option Format
  find_dtype dtype =
      if str_eq dtype "float32"
      then some floats.single
      else if str_eq dtype "float16"
      then some floats.half
      else if str_eq dtype "int64"
      then some format_q
      else none

  -- `_dtype_info`
  abbrev pub dtype_info : String → Result Format
  dtype_info dtype = or_unknown (find_dtype dtype)

  -- `validate`
  unfoldable pub validate : ℕ → TensorPayload → Result (Unit {0})
  unfolding validate_shape prod
  validate max_decoded_bytes t = do
    dims ← validate_shape t.shape
    f ← dtype_info t.dtype
    raw ← raw_bytes t.data_b64
    ready ← check (length raw == prod dims * f.size) value_error
    check (leb (prod dims * f.size) max_decoded_bytes) value_error

  -- What follows the flattening in `from_nested_list`. `none`: out of fuel.
  unfoldable pub packed_payload :
      ℕ → String → Format → List ℕ → Option (Result (List Value)) → Option (Result TensorPayload)
  unfolding validate
  packed_payload max_decoded_bytes dtype f shape none = none
  packed_payload max_decoded_bytes dtype f shape (some flat) = some (do
    values ← flat
    packed ← pack f values
    let t : TensorPayload = record {
      shape = map pos shape;
      dtype = dtype;
      data_b64 = Base64.encode packed;
    }
    valid ← validate max_decoded_bytes t
    ok t)

  -- `from_nested_list`, once the data type is looked up.
  unfoldable pub packed_as :
      ℕ
      → String
      → List ℕ
      → Option (Result (List Value))
      → Option Format
      → Option (Result TensorPayload)
  unfolding packed_payload
  packed_as max_decoded_bytes dtype shape flat none = some (raise value_error)
  packed_as max_decoded_bytes dtype shape flat (some f) =
      packed_payload max_decoded_bytes dtype f shape flat

  -- `from_nested_list`
  unfoldable pub from_nested_list : ℕ → Value → String → Option (Result TensorPayload)
  unfolding flatten infer_shape packed_as
  from_nested_list max_decoded_bytes nested dtype =
      packed_as max_decoded_bytes dtype (infer_shape nested) (flatten nested) (find_dtype dtype)

  -- The end of `to_nested_list`: `n_elems` is not 0 in the last case but one.
  abbrev pub nested_of : Format → List ℕ → List ℕ → Value
  nested_of f dims raw =
      if prod dims == 0 then reshape dims [] else reshape dims (unpack f (prod dims) raw)

  -- `to_nested_list`
  unfoldable pub to_nested_list : TensorPayload → Result Value
  unfolding default_max_decoded_bytes validate
  to_nested_list t = do
    valid ← validate default_max_decoded_bytes t
    f ← dtype_info t.dtype
    dims ← validate_shape t.shape
    raw ← raw_bytes t.data_b64
    ok (nested_of f dims raw)

  -- `to_dict`
  unfoldable pub to_dict : TensorPayload → Fields
  to_dict t =
      entry "shape" (arr (int_items t.shape))
        (entry "dtype" (str t.dtype) (entry "data_b64" (str t.data_b64) empty))

  -- `tuple(int(d) for d in shape_raw)`
  unfoldable pub ints_of : Items → Result (List ℤ)
  ints_of nil = ok []
  ints_of (cons v vs) = let rest = ints_of vs in do z ← to_int v; zs ← rest; ok (z ∷ zs)

  -- The shape that `from_dict` reads; JSON has no tuples.
  abbrev pub shape_of : Value → Result (List ℤ)
  shape_of (arr xs) = ints_of xs
  shape_of _ = raise value_error

  -- `from_dict`. A missing shape is the empty tuple.
  unfoldable pub from_dict : Runtime → ℕ → Fields → Result TensorPayload
  unfolding ints_of validate
  from_dict rt max_decoded_bytes d = do
    shape ← shape_of (get_or "shape" (arr nil) d)
    let data_b64 = get_or "data_b64" (str "") d
    let t : TensorPayload = record {
      shape = shape;
      dtype = to_str rt (get_or "dtype" (str "float32") d);
      data_b64 = if truthy data_b64 then to_str rt data_b64 else "";
    }
    valid ← validate max_decoded_bytes t
    ok t
