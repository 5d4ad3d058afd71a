-- ===== src/Llm/Executor/Tests.antt =====
-- A shard over a small stand-in for torch: a tensor is a list of integers, the pass adds one to each,
-- and a cached pass is the number of tokens that it has seen.
use computecloud_node.Prelude.{
  ℕ, ◌+◌, ◌≡◌, refl, true, false, Option, none, some, List, [], ◌∷◌, drop, map, length,
}
use computecloud_node.Prelude.Equality.{lookup, insert, string_eq}
use computecloud_node.Prelude.Int.{ℤ, pos, ◌+ℤ◌}
use computecloud_node.Python.{
  Result, ok, raise, type_error, Value, null, bool, int, str, obj, Fields, empty, entry, codes,
  strip, truthy, to_int,
}
use computecloud_node.Python.Effect.{lift}
use computecloud_node.Python.Runtime.{Runtime}
use computecloud_node.Python.Struct.{format_q, pack, pack_q}
use computecloud_node.Python.Text.{same_text, split}
use computecloud_node.Python.Base64
use computecloud_node.Llm.Weights.{keys_for_shard, selected, layer_of}
use computecloud_node.Tensor.{FloatFormats}
use native.Mathlib.Decide.{ℕ_discrete}
use computecloud_node.Llm.KvCache.{Key, key_eq, init, kv_cache_put, evict_loop}
use computecloud_node.Llm.KvCache.Invariant.{IsValid, init-IsValid, kv_cache_put-IsValid}
use computecloud_node.Llm.Loader.{WeightsSource}
use computecloud_node.Llm.Uri.{UrlLibrary}
use computecloud_node.Llm.Executor.{Module, Torch, Tools, Engine}
use computecloud_node.Llm.Executor.Invariant.{execute-IsValid, execute-Unchanged, Unchanged}
use computecloud_node.Llm.Executor.LostPast.{IsLaterPass, LostPast, prepare_and_run-lost_past}
use computecloud_node.Llm.Executor.Shard.{prepare_and_run, execute}

abbrev rt : Runtime
rt = record { sha256 = λ s. []; display = λ v. "" }

abbrev floats : FloatFormats
floats = record { single = format_q; half = format_q }

abbrev past : Option ℕ → ℕ
past none = 0
past (some n) = n

abbrev torch : Torch (List ℤ) ℕ
torch = record {
  shape = λ t. length t ∷ [];
  floats = map int;
  tensor = λ ids. ids;
  of_nested = λ dtype nested. raise type_error;
  construct = λ config start end is_first is_last. ok ((codes "norm.weight", pos 0 ∷ []) ∷ []);
  forward = λ shard t. ok (map (λ z. z +ℤ pos 1) t);
  forward_cached = λ shard t kv offset. ok (map (λ z. z +ℤ pos 1) t, past kv + length t);
  past_length = pos;
  argmax = λ t. ok (pos 7);
}

-- The source has one tensor; the world counts what is read.
abbrev source : WeightsSource ℕ (List ℤ)
source = record {
  list_keys = λ reads. (ok (codes "model.norm.weight" ∷ []), reads);
  get_tensor = λ key reads. (ok (pos 5 ∷ []), reads + 1);
  get_config = λ reads. (ok empty, reads);
  get_tokenizer_path = λ reads. (ok none, reads);
}

abbrev url : UrlLibrary
url = record {
  scheme = λ s. codes "file";
  netloc = λ s. [];
  path = drop 7;
  unquote = λ s. s;
  is_abs = λ s. true;
  normpath = λ s. s;
  is_alpha = λ c. false;
}

abbrev tools : Tools ℕ (List ℤ)
tools = record {
  open_local = λ path. lift (ok source);
  open_hub = λ model_id revision. lift (ok source);
  encode = λ path text. lift (ok []);
  decode = λ path id. lift (ok "x");
  loads = λ text. ok (obj empty);
  url = url;
}

-- The second pass of the run r1 on the first shard.
abbrev payload : Fields
payload = entry "kind" (str "llm_shard") (
    entry "weights_uri" (str "file:///w") (
      entry "start_layer" (int (pos 0)) (
        entry "end_layer" (int (pos 2)) (
          entry "is_first" (bool true) (
            entry "use_cache" (bool true) (
              entry "data_run_id" (str "r1")
                (entry "pass_index" (int (pos 1)) (entry "next_token_id" (int (pos 9)) empty))))))))

abbrev mine : Key
mine = record { run_id = "r1"; shard_index = pos 0 }

abbrev other : Key
other = record { run_id = "r2"; shard_index = pos 0 }

-- The cache holds the run r2 alone.
abbrev engine : Engine ℕ ℕ
engine = record { world = 0; cache = kv_cache_put other 30 (init 2) }

engine-IsValid : IsValid engine.cache
engine-IsValid = kv_cache_put-IsValid other 30 (init 2) (init-IsValid 2)

abbrev shard : Module (List ℤ)
shard = record {
  config = empty;
  start = pos 0;
  end = pos 2;
  is_first = true;
  is_last = false;
  own = [];
}

execute-IsValid_example : IsValid (execute rt floats torch tools (obj payload) engine).1.cache
execute-IsValid_example = execute-IsValid rt floats torch tools (obj payload) engine engine-IsValid

execute-Unchanged_example :
    Unchanged rt floats torch tools other
      (lookup other engine.cache.entries)
      (execute rt floats torch tools (obj payload) engine).1.cache
unfolding string_eq computecloud_node.Python.Dict.lookup
execute-Unchanged_example = execute-Unchanged rt floats torch tools payload other engine refl

later : IsLaterPass rt floats torch tools payload shard "r1" 0 (pos 0) (pos 9)
unfolding computecloud_node.Python.Dict.lookup
later = record {
  caches = refl;
  of_run = refl;
  pass_index = refl;
  position_offset = refl;
  next_token_id = refl;
  first = refl;
}

gone : lookup mine engine.cache.entries ≡ none
unfolding lookup kv_cache_put evict_loop init insert key_eq string_eq
gone = refl

prepare_and_run-lost_past_example :
    LostPast rt floats torch tools payload source
      (pos 0)
      shard
      mine
      (pos 0)
      (pos 9)
      engine
      (prepare_and_run rt floats torch tools payload source (pos 0) shard engine)
prepare_and_run-lost_past_example =
    prepare_and_run-lost_past rt floats torch tools payload source (pos 0) shard "r1" 0 (pos 0)
      (pos 9) engine later gone

-- A run: the later pass goes through without the past of its run, and its own past is one token.
lost_runs :
    lookup mine (execute rt floats torch tools (obj payload) engine).1.cache.entries ≡ some 1
unfolding execute computecloud_node.Python.Dict.lookup strip truthy to_int same_text split
    keys_for_shard selected layer_of pack pack_q ◌+ℤ◌ Base64.encode Base64.sextet_char Base64.decode
    lookup kv_cache_put evict_loop init insert key_eq string_eq ℕ_discrete
lost_runs = refl
