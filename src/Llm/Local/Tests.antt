-- ===== src/Llm/Local/Tests.antt =====
-- A directory with one file of weights.
use computecloud_node.Prelude.{
  ℕ, ◌≡◌, refl, String, Option, none, some, List, [], ◌∷◌, str_eq, if◌then◌else◌,
}
use computecloud_node.Prelude.Equality.{lookup, insert, string_eq}
use computecloud_node.Python.{Result, ok, raise, key_error, not_found_error, Value, null, empty}
use computecloud_node.Python.Dict.{put}
use computecloud_node.Llm.Hub.{Library, refused, single_index}
use computecloud_node.Llm.Local.{
  LocalSource, local_source, local_list_keys, local_get_tensor, local_ensure_index, local_safe_open,
}
use computecloud_node.Llm.Local.Fresh.{
  Answers, directory_keys, directory_tensor, local_list_keys-local_get_tensor,
  local_source-IsFaithful,
}

-- A file is its bytes, with two keys; a tensor is the bytes with the key.
abbrev library : Library ℕ (List ℕ) (List ℕ × String)
library = record {
  stream = λ url w. (refused, w);
  safe_open = λ bytes. ok bytes;
  keys = λ handle. "a" ∷ "b" ∷ [];
  get_tensor = λ handle key. ok (handle, key);
  load = λ bytes. ok null;
}

abbrev dir : String → Option (List ℕ)
dir name = if str_eq name "model.safetensors" then some (1 ∷ 2 ∷ []) else none

abbrev empty_dir : String → Option (List ℕ)
empty_dir name = none

abbrev fresh : LocalSource (List ℕ)
fresh = local_source

keys : (local_list_keys library dir fresh).0 ≡ ok ("a" ∷ "b" ∷ [])
unfolding local_list_keys local_ensure_index local_safe_open local_source lookup single_index put
keys = refl

tensor : (local_get_tensor library dir "b" fresh).0 ≡ ok (1 ∷ 2 ∷ [], "b")
unfolding local_get_tensor local_ensure_index local_safe_open local_source lookup insert string_eq
    single_index put computecloud_node.Python.Dict.lookup
tensor = refl

nothing : (local_get_tensor library empty_dir "b" fresh).0 ≡ raise not_found_error
unfolding local_get_tensor local_ensure_index local_source
nothing = refl

local_list_keys-local_get_tensor_example :
    Answers library dir (directory_keys library dir) (local_list_keys library dir fresh)
    × Answers library dir
        (directory_tensor library dir "b")
        (local_get_tensor library dir "b" fresh)
local_list_keys-local_get_tensor_example =
    local_list_keys-local_get_tensor library dir "b" fresh (local_source-IsFaithful library dir)
