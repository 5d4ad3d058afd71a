-- ===== src/Tensor/Tests.antt =====
-- Payloads at concrete data.
use computecloud_node.Prelude.{ℕ, ◌*◌, ◌≤◌, ◌≡◌, refl, some, List, [], ◌∷◌, All, arith}
use computecloud_node.Prelude.Int.{pos, negsuc}
use computecloud_node.Python.{ok, Value, int, arr, items_of, nil}
use computecloud_node.Python.Base64
use computecloud_node.Python.Struct.{format_q, pack, unpack, pack_q, from_le}
use computecloud_node.Python.Runtime.{Runtime}
use computecloud_node.Tensor.{
  FloatFormats, TensorPayload, default_max_decoded_bytes, validate, from_nested_list,
  to_nested_list, to_dict, from_dict,
}
use computecloud_node.Tensor.Nested.{infer_shape, reshape, prod}
use computecloud_node.Tensor.Flatten.{leaves}
use computecloud_node.Tensor.Reshape.{scalar, nested, no_rows, row, IsShaped, elements}
use computecloud_node.Tensor.RoundTrip.{IsWord, to_nested_list-from_nested_list}
use computecloud_node.Tensor.Validation.{from_dict-to_dict}
use computecloud_node.Tensor.Loss.{from_nested_list_ragged}

-- The float formats are not used.
abbrev floats : FloatFormats
floats = record { single = format_q; half = format_q }

abbrev rt : Runtime
rt = record { sha256 = λ s. []; display = λ v. "" }

abbrev list : List Value → Value
list [] = arr nil
list (v ∷ vs) = arr (items_of (v ∷ vs))

abbrev num : ℕ → Value
num n = int (pos n)

-- [[1, -2], [3, 4]]
abbrev square : Value
square = list (list (num 1 ∷ int (negsuc 1) ∷ []) ∷ list (num 3 ∷ num 4 ∷ []) ∷ [])

abbrev packed_square : TensorPayload
packed_square = record {
  shape = pos 2 ∷ pos 2 ∷ [];
  dtype = "int64";
  data_b64 = "AQAAAAAAAAD+/////////wMAAAAAAAAABAAAAAAAAAA=";
}

packs : from_nested_list floats 100 square "int64" ≡ some (ok packed_square)
unfolding from_nested_list pack pack_q Base64.encode Base64.sextet_char Base64.decode
packs = refl

unpacks : to_nested_list floats packed_square ≡ ok square
unfolding to_nested_list Base64.decode reshape unpack from_le
unpacks = refl

square-IsShaped : IsShaped (2 ∷ 2 ∷ []) square
square-IsShaped = nested (
    row (nested (row (scalar refl) (row (scalar refl) no_rows)))
      (row (nested (row (scalar refl) (row (scalar refl) no_rows))) no_rows))

small : prod (2 ∷ 2 ∷ []) * 8 ≤ 100
unfolding prod
small = omega arith

small_enough : prod (2 ∷ 2 ∷ []) * 8 ≤ default_max_decoded_bytes
unfolding prod default_max_decoded_bytes
small_enough = omega arith

words : All IsWord (elements square)
unfolding elements
words = (refl, (refl, (refl, (refl, tt))))

to_nested_list-from_nested_list_example :
    (t : TensorPayload) × (from_nested_list floats 100 square "int64" ≡ some (ok t))
    × (to_nested_list floats t ≡ ok square)
to_nested_list-from_nested_list_example =
    to_nested_list-from_nested_list floats 100 (2 ∷ 2 ∷ []) square (omega arith) square-IsShaped
      words small small_enough

valid : validate floats 100 packed_square ≡ ok tt
unfolding validate Base64.decode
valid = refl

from_dict-to_dict_example :
    from_dict floats rt 100 (to_dict floats packed_square) ≡ ok packed_square
from_dict-to_dict_example = from_dict-to_dict floats 100 packed_square rt valid

-- [[1, 2], [3], [4, 5, 6]] and [[1, 2], [3, 4], [5, 6]]
abbrev ragged : Value
ragged =
    list (list (num 1 ∷ num 2 ∷ []) ∷ list (num 3 ∷ []) ∷ list (num 4 ∷ num 5 ∷ num 6 ∷ []) ∷ [])

abbrev even : Value
even = list (list (num 1 ∷ num 2 ∷ []) ∷ list (num 3 ∷ num 4 ∷ []) ∷ list (num 5 ∷ num 6 ∷ []) ∷ [])

same_shape : infer_shape ragged ≡ infer_shape even
unfolding infer_shape
same_shape = refl

same_leaves : leaves ragged ≡ leaves even
unfolding leaves
same_leaves = refl

from_nested_list_ragged_example :
    from_nested_list floats 100 ragged "int64" ≡ from_nested_list floats 100 even "int64"
from_nested_list_ragged_example =
    from_nested_list_ragged floats 100 "int64" ragged even same_shape same_leaves

-- [[[], [], []], [[], [], []]] as a payload.
abbrev hollow : TensorPayload
hollow = record { shape = pos 2 ∷ pos 3 ∷ pos 0 ∷ []; dtype = "int64"; data_b64 = "" }

hollow_valid : validate floats default_max_decoded_bytes hollow ≡ ok tt
unfolding validate default_max_decoded_bytes
hollow_valid = refl

nothing : prod (3 ∷ 0 ∷ []) ≡ 0
unfolding prod
nothing = refl
