-- ===== src/Llm/Hub/Tests.antt =====
-- The server counts its requests, and gives one answer to all of them.
use computecloud_node.Prelude.{ℕ, ◌+◌, String, ◌≡◌, refl, none, some, List, [], ◌∷◌}
use computecloud_node.Prelude.Equality.{lookup, insert, string_eq}
use computecloud_node.Python.{ok, raise, transport_error, null, empty}
use computecloud_node.Llm.Hub.{
  Download, refused, whole, Library, Hub, underscored, cache_path, written, download, fetch_unless,
  fetch, keep_open, open_fetched, open_unless, safe_open, list_keys,
}
use computecloud_node.Llm.Hub.Loss.{list_keys_lost}

abbrev library : Download → Library ℕ (List ℕ) ℕ
library answer = record {
  stream = λ url requests. (answer, requests + 1);
  safe_open = λ bytes. ok bytes;
  keys = λ bytes. [];
  get_tensor = λ bytes key. ok 0;
  load = λ bytes. ok null;
}

abbrev hub : List (String × List ℕ) → ℕ → Hub ℕ (List ℕ)
hub files requests = record {
  source = record {
    model_id = "org/model";
    revision = "v1";
    max_cache = 1;
    cache_size = 0;
    opened = [];
    index = none;
    config = none;
  };
  files = files;
  world = requests;
}

path : cache_path (hub [] 0).source "a b.bin" ≡ "org_model_a_b.bin"
unfolding cache_path underscored
path = refl

-- A file of two bytes, in a cache for one.
abbrev opened_hub : Hub ℕ (List ℕ)
opened_hub = record {
  source = record {
    model_id = "org/model";
    revision = "v1";
    max_cache = 1;
    cache_size = 2;
    opened = ("a.bin", 1 ∷ 2 ∷ []) ∷ [];
    index = none;
    config = none;
  };
  files = ("org_model_a.bin", 1 ∷ 2 ∷ []) ∷ [];
  world = 1;
}

opened_once :
    safe_open (library (whole (1 ∷ 2 ∷ []))) "a.bin" (hub [] 0) ≡ (ok (1 ∷ 2 ∷ []), opened_hub)
unfolding safe_open open_unless open_fetched fetch fetch_unless download written keep_open
    cache_path underscored lookup insert string_eq
opened_once = refl

abbrev stored_hub : Hub ℕ (List ℕ)
stored_hub = hub (("org_model_a.bin", 7 ∷ []) ∷ []) 0

stored : lookup (cache_path stored_hub.source "a.bin") stored_hub.files ≡ some (7 ∷ [])
unfolding lookup cache_path underscored string_eq
stored = refl

abbrev lost_hub : Hub ℕ (List ℕ)
lost_hub = record (hub [] 2) { source = record (hub [] 2).source { index = some empty } }

index_refused :
    fetch (library refused) "model.safetensors.index.json" (hub [] 0)
    ≡ (raise transport_error, hub [] 1)
unfolding fetch fetch_unless download written cache_path underscored lookup
index_refused = refl

abbrev tried : Hub ℕ (List ℕ)
tried = record (hub [] 1) { source = record (hub [] 1).source { index = some empty } }

single_refused :
    fetch (library refused) "model.safetensors" tried ≡ (raise transport_error, lost_hub)
unfolding fetch fetch_unless download written cache_path underscored lookup
single_refused = refl

none_opened : lookup "model.safetensors" (hub [] 1).source.opened ≡ none
unfolding lookup
none_opened = refl

list_keys_lost_example :
    (list_keys (library refused) (hub [] 0) ≡ (raise transport_error, lost_hub))
    × (list_keys (library refused) lost_hub ≡ (ok [], lost_hub))
list_keys_lost_example =
    list_keys_lost (library refused) transport_error transport_error (hub [] 0) (hub [] 1) lost_hub
      refl index_refused none_opened single_refused
