-- ===== src/Llm/Local.antt =====
-- src/computecloud_node/llm/weights.py: `LocalWeightsSource`, a source of weights in a directory. The
-- directory is a function from names to contents, which does not change; `none` is a name that is no
-- file.
pub mod Fresh
mod Tests
use computecloud_node.Prelude.{
  ℕ, String, ◌<>◌, Bool, true, false, Option, none, some, List, [], ◌∷◌, if◌then◌else◌,
}
use computecloud_node.Prelude.Equality.{lookup, insert, string_eq}
use computecloud_node.Python.{
  Result, ok, raise, key_error, type_error, not_found_error, other_error, ◌>>=◌, Value, null, str,
  obj, Fields, empty,
}
use computecloud_node.Python.Dict.{get}
use computecloud_node.Llm.Hub.{Library, single_name, index_name, single_index, weight_map, keys_of}

-- `LocalWeightsSource`, with `_cache` as `opened`.
pub record LocalSource (H : Type 0) : Type 0 where
  pub opened : List (String × H)
  pub index : Option Fields
  pub all_keys : Option (List String)
  pub config : Option Fields

-- `__init__`, for a directory that is there.
unfoldable pub local_source : {H : Type 0} → LocalSource H
local_source = record { opened = []; index = none; all_keys = none; config = none }

module _ {W H T : Type 0} (lib : Library W H T) (dir : String → Option (List ℕ)) where
  abbrev pub Source : Type 0
  Source = LocalSource H

  -- The file of a name, as safetensors opens it.
  abbrev pub opened_bytes : Option (List ℕ) → Result H
  opened_bytes none = raise not_found_error
  opened_bytes (some bytes) = lib.safe_open bytes

  abbrev pub local_keep : String → Result H → Source → Result H × Source
  local_keep filename (raise exc) s = (raise exc, s)
  local_keep filename (ok handle) s =
      (ok handle, record s { opened = insert filename handle s.opened })

  abbrev pub local_unless : String → Option H → Source → Result H × Source
  local_unless filename (some handle) s = (ok handle, s)
  local_unless filename none s = local_keep filename (opened_bytes (dir filename)) s

  -- `_safe_open`
  unfoldable pub local_safe_open : String → Source → Result H × Source
  local_safe_open filename s = local_unless filename (lookup filename s.opened) s

  abbrev pub local_set_index : Result Fields → Source → Result Fields × Source
  local_set_index (raise exc) s = (raise exc, s)
  local_set_index (ok index) s = (ok index, record s { index = some index })

  -- The index of the one file, once it is opened.
  abbrev pub index_opened : Result H × Source → Result Fields × Source
  index_opened (raise exc, s) = (raise exc, s)
  index_opened (ok handle, s) = local_set_index (ok (single_index lib (lib.keys handle) empty)) s

  -- The index file.
  abbrev pub index_file : Option (List ℕ) → Result Fields
  index_file none = raise not_found_error
  index_file (some bytes) = lib.load bytes >>= weight_map lib

  abbrev pub local_index_by : Option (List ℕ) → Source → Result Fields × Source
  local_index_by (some bytes) s = index_opened (local_safe_open (single_name lib) s)
  local_index_by none s = local_set_index (index_file (dir (index_name lib))) s

  abbrev pub local_index_unless : Option Fields → Source → Result Fields × Source
  local_index_unless (some index) s = (ok index, s)
  local_index_unless none s = local_index_by (dir (single_name lib)) s

  -- `_ensure_index`, with the index that is there after it.
  unfoldable pub local_ensure_index : Source → Result Fields × Source
  unfolding local_safe_open
  local_ensure_index s = local_index_unless s.index s

  abbrev pub local_listed :
      Option (List String) → Result Fields × Source → Result (List String) × Source
  local_listed all_keys (raise exc, s) = (raise exc, s)
  local_listed (some keys) (ok index, s) = (ok keys, s)
  local_listed none (ok index, s) =
      (ok (keys_of lib index), record s { all_keys = some (keys_of lib index) })

  -- `list_keys`
  unfoldable pub local_list_keys : Source → Result (List String) × Source
  unfolding local_ensure_index
  local_list_keys s = local_listed s.all_keys (local_ensure_index s)

  abbrev pub local_tensor_opened : String → Result H × Source → Result T × Source
  local_tensor_opened key (raise exc, s) = (raise exc, s)
  local_tensor_opened key (ok handle, s) = (lib.get_tensor handle key, s)

  abbrev pub local_tensor_at : String → Value → Source → Result T × Source
  local_tensor_at key null s = (raise key_error, s)
  local_tensor_at key (str filename) s = local_tensor_opened key (local_safe_open filename s)
  local_tensor_at key other s = (raise type_error, s)

  abbrev pub local_tensor_indexed : String → Result Fields × Source → Result T × Source
  local_tensor_indexed key (raise exc, s) = (raise exc, s)
  local_tensor_indexed key (ok index, s) = local_tensor_at key (get key index) s

  -- `get_tensor`
  unfoldable pub local_get_tensor : String → Source → Result T × Source
  unfolding local_ensure_index local_safe_open
  local_get_tensor key s = local_tensor_indexed key (local_ensure_index s)

  -- `json.load` of the configuration, which must be a dict, or an empty dict.
  abbrev pub config_read : Option (List ℕ) → Result Fields
  config_read none = ok empty
  config_read (some bytes) = lib.load bytes >>= as_dict
    where
      as_dict : Value → Result Fields
      as_dict (obj d) = ok d
      as_dict _ = raise type_error

  abbrev pub local_config : Option Fields → Result Fields → Source → Result Fields × Source
  local_config (some config) read s = (ok config, s)
  local_config none (raise exc) s = (raise exc, s)
  local_config none (ok config) s = (ok config, record s { config = some config })

  -- `get_config`
  unfoldable pub local_get_config : Source → Result Fields × Source
  local_get_config s = local_config s.config (config_read (dir "config.json")) s

  -- `get_tokenizer_path`, within the directory.
  unfoldable pub local_get_tokenizer_path : Option String
  local_get_tokenizer_path = elim (dir "tokenizer.json") [
    | none ↦ none
    | some bytes ↦ some "tokenizer.json"
  ]
