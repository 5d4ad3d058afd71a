-- ===== src/Llm/Executor/Tensors.antt =====
-- `_torch_to_tensor_payload` and `_tensor_payload_to_torch`.
use computecloud_node.Prelude.{map}
use computecloud_node.Prelude.Int.{pos}
use computecloud_node.Python.{Result, ok, raise, ◌>>=◌, other_error, Value, obj, Fields}
use computecloud_node.Python.Base64
use computecloud_node.Python.Runtime.{Runtime}
use computecloud_node.Python.Struct.{pack}
use computecloud_node.Tensor.{
  FloatFormats, TensorPayload, validate, to_dict, from_dict, to_nested_list,
  default_max_decoded_bytes,
}
use computecloud_node.Llm.Executor.{Torch}

module _ {T KV : Type 0} (rt : Runtime) (formats : FloatFormats) (torch : Torch T KV) where
  unfoldable pub torch_to_tensor_payload : T → Result Fields
  unfolding validate to_dict
  torch_to_tensor_payload tensor = do
    packed ← pack formats.single (torch.floats tensor)
    let payload : TensorPayload = record {
      shape = map pos (torch.shape tensor);
      dtype = "float32";
      data_b64 = Base64.encode packed;
    }
    valid ← validate formats default_max_decoded_bytes payload
    ok (to_dict formats payload)

  unfoldable pub tensor_payload_to_torch : Value → Result T
  unfolding from_dict to_nested_list
  tensor_payload_to_torch (obj payload_dict) = do
    payload ← from_dict formats rt default_max_decoded_bytes payload_dict
    nested ← to_nested_list formats payload
    torch.of_nested payload.dtype nested
  tensor_payload_to_torch other = raise other_error
