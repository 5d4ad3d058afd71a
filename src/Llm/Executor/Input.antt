-- ===== src/Llm/Executor/Input.antt =====
-- `_prepare_and_run` and `_pack_output`: the input of a shard, its forward pass, and its output.
use computecloud_node.Prelude.{
  ℕ, suc, ◌-◌, ◌%◌, String, Bool, Option, none, some, List, [], ◌∷◌, ◌&&◌, ◌==◌, if◌then◌else◌,
}
use computecloud_node.Prelude.Int.{ℤ, pos, negsuc, ltb_ℤ}
use computecloud_node.Python.{
  Result, ok, raise, value_error, type_error, other_error, Value, null, int, bool, str, Fields,
  truthy, to_int, codes,
}
use computecloud_node.Python.Dict.{get, get_or}
use computecloud_node.Python.Effect.{Effect, ◌>>=◌, lift}
use computecloud_node.Python.Runtime.{Runtime, to_str}
use computecloud_node.Python.Text.{starts_with}
use computecloud_node.Tensor.{FloatFormats}
use computecloud_node.Llm.Loader.{WeightsSource}
use computecloud_node.Llm.Uri.{parse_file_uri, file_scheme}
use computecloud_node.Llm.Executor.{Module, Torch, Tools, Engine, on_world}
use computecloud_node.Llm.Executor.Tensors.{tensor_payload_to_torch}

-- `n % m` of a natural number and an integer, with the sign of `m`.
unfoldable pub remainder : ℕ → ℤ → Result ℤ
remainder n (pos m) = if m == 0 then raise other_error else ok (pos (n % m))
remainder n (negsuc m) = ok (if n % suc m == 0 then pos 0 else negsuc (m - n % suc m))

abbrev pub size_of : Value → Option ℤ
size_of (int m) = some m
size_of (bool b) = some (pos (if b then 1 else 0))
size_of other = none

-- `ord(c) % vocab_size`; a size that is a float is not modelled.
unfoldable pub char_id : Option ℤ → ℕ → Result ℤ
unfolding remainder
char_id none c = raise type_error
char_id (some m) c = remainder c m

-- The identifier of a character with those of the text after it.
abbrev pub with_id : Result ℤ → Result (List ℤ) → Result (List ℤ)
with_id (raise exc) rest = raise exc
with_id (ok id) (raise exc) = raise exc
with_id (ok id) (ok ids) = ok (id ∷ ids)

-- `[ord(c) % vocab_size for c in prompt]`
unfoldable pub char_ids : Value → List ℕ → Result (List ℤ)
unfolding char_id
char_ids vocab_size [] = ok []
char_ids vocab_size (c ∷ prompt) =
    with_id (char_id (size_of vocab_size) c) (char_ids vocab_size prompt)

-- A path, or the empty text where there is none.
abbrev pub path_or_empty : Option (List ℕ) → List ℕ
path_or_empty none = []
path_or_empty (some path) = path

module _ {W T KV : Type 0} (rt : Runtime) (formats : FloatFormats) (torch : Torch T KV)
    (tools : Tools W T) where
  abbrev pub State : Type 0
  State = Engine W KV

  module _ (payload : Fields) (source : WeightsSource W T) where
    -- `tok_path`: an address of a file is parsed, and a path that is `None` comes from the loader. The
    -- empty text stands for what is false.
    unfoldable pub tokenizer_path : Value → Effect State (List ℕ)
    tokenizer_path null = do
      path ← on_world source.get_tokenizer_path
      lift (ok (path_or_empty path))
    tokenizer_path (str s) = lift (
        if starts_with (codes s) file_scheme
        then parse_file_uri tools.url (codes s)
        else ok (codes s))
    tokenizer_path other = lift (if truthy other then raise other_error else ok [])

    -- `prompt` as token ids, with the tokenizer at a path or without one.
    unfoldable pub prompt_ids : Fields → String → List ℕ → Effect State (List ℤ)
    unfolding char_ids
    prompt_ids config prompt [] =
        lift (char_ids (get_or "vocab_size" (int (pos 256)) config) (codes prompt))
    prompt_ids config prompt (c ∷ path) = on_world (tools.encode (c ∷ path) prompt)

    -- The tensor of the token that a generation goes on with.
    unfoldable pub next_token : Value → Result T
    next_token null = raise value_error
    next_token ntid = elim (to_int ntid) [
      | raise exc ↦ raise exc
      | ok id ↦ ok (torch.tensor (id ∷ []))
    ]

    unfoldable pub received_input : Value → Result T
    unfolding tensor_payload_to_torch
    received_input null = raise value_error
    received_input input = tensor_payload_to_torch rt formats torch input

    unfoldable pub prompted : Fields → Effect State T
    unfolding tokenizer_path prompt_ids
    prompted config = do
      path ← tokenizer_path (get "tokenizer_uri" payload)
      token_ids ← prompt_ids config (to_str rt (get_or "prompt" (str "") payload)) path
      lift (ok (torch.tensor token_ids))

    -- The input tensor.
    unfoldable pub input_tensor : Module T → Bool → ℤ → Effect State T
    unfolding next_token received_input prompted
    input_tensor shard use_cache pass_index =
        if shard.is_first
        then if use_cache && ltb_ℤ (pos 0) pass_index
          then lift (next_token (get "next_token_id" payload))
          else prompted shard.config
        else lift (received_input (get "input" payload))
