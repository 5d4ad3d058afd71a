-- ===== src/Llm/Hub.antt =====
-- src/computecloud_node/llm/weights.py: `HFWeightsSource`, a source of weights over HTTP with its files
-- in a directory. The directory is a `dict` from names to contents, without the path before the
-- names.
pub mod Cache
pub mod Config
pub mod Loss
mod Tests
use Prim.Native.Char.{code}
use computecloud_node.Prelude.{
  ℕ, ◌+◌, String, ◌<>◌, Bool, true, false, Option, none, some, List, [], ◌∷◌, length, ◌||◌, ◌==◌,
  leb, ◌&&◌, if◌then◌else◌,
}
use computecloud_node.Prelude.Equality.{lookup, has, insert, string_eq}
use computecloud_node.Python.{
  Result, ok, raise, key_error, type_error, not_found_error, transport_error, other_error, ◌>>=◌,
  Value, null, str, obj, Fields, empty, entry, is_digit,
}
use computecloud_node.Python.Dict.{put, get, get_or}

-- A request whose content is written to a file: it fails before the file is opened, it breaks off
-- after some content, or it ends.
pub data Download : Type 0 where
  refused : Download
  broken whole : List ℕ → Download

-- httpx, safetensors (a file, its keys, a tensor) and json.
pub record Library (W H T : Type 0) : Type 0 where
  pub stream : String → W → Download × W
  pub safe_open : List ℕ → Result H
  pub keys : H → List String
  pub get_tensor : H → String → Result T
  pub load : List ℕ → Result Value

-- `HFWeightsSource`, with `_cache` as `opened`.
pub record HfWeightsSource (H : Type 0) : Type 0 where
  pub model_id : String
  pub revision : String
  pub max_cache : ℕ
  pub cache_size : ℕ
  pub opened : List (String × H)
  pub index : Option Fields
  pub config : Option Fields

-- The source with the world and the directory.
pub record Hub (W H : Type 0) : Type 0 where
  pub source : HfWeightsSource H
  pub files : List (String × List ℕ)
  pub world : W

-- Each character that fails the test is replaced by `_`.
unfoldable pub underscored : (ℕ → Bool) → String → String
underscored keeps String.[] = ""
underscored keeps (String.◌∷◌ c s) =
    let rest = underscored keeps s in if keeps (code c) then String.◌∷◌ c rest else "_" <> rest

abbrev pub is_safe : ℕ → Bool
is_safe c =
    (leb 65 c && leb c 90)
    || (leb 97 c && leb c 122)
    || is_digit c
    || c == b'.'
    || c == b'_'
    || c == b'-'

abbrev pub is_no_slash : ℕ → Bool
is_no_slash c = if c == b'/' then false else true

module _ {H : Type 0} where
  -- `_cache_path`, within the directory.
  unfoldable pub cache_path : HfWeightsSource H → String → String
  cache_path source filename =
      underscored is_no_slash source.model_id <> "_" <> underscored is_safe filename

  -- `index_url`, `shard_url`
  unfoldable pub url_of : HfWeightsSource H → String → String
  url_of source filename =
      "https://huggingface.co/" <> source.model_id <> "/resolve/" <> source.revision <> "/"
      <> filename

module _ {W H : Type 0} where
  abbrev pub with_index : Fields → Hub W H → Hub W H
  with_index index h = record h { source = record h.source { index = some index } }

  -- What `_download` leaves of an answer to its request.
  unfoldable pub written : String → Download × W → Hub W H → Result (Unit {0}) × Hub W H
  written dest (refused, w) h = (raise transport_error, record h { world = w })
  written dest (broken bytes, w) h =
      (raise transport_error, record h { world = w; files = insert dest bytes h.files })
  written dest (whole bytes, w) h = (
    ok tt,
    record {
      source = record h.source { cache_size = h.source.cache_size + length bytes };
      files = insert dest bytes h.files;
      world = w;
    },
  )

module _ {W H T : Type 0} (lib : Library W H T) where
  -- `_download`
  unfoldable pub download : String → String → Hub W H → Result (Unit {0}) × Hub W H
  unfolding written
  download url dest h = written dest (lib.stream url h.world) h

  -- `if not ...: self._download(...)`; the first argument is `self._cache_has(filename)`.
  unfoldable pub fetch_unless : Bool → String → Hub W H → Result (Unit {0}) × Hub W H
  unfolding cache_path url_of download
  fetch_unless true filename h = (ok tt, h)
  fetch_unless false filename h =
      download (url_of h.source filename) (cache_path h.source filename) h

  unfoldable pub fetch : String → Hub W H → Result (Unit {0}) × Hub W H
  unfolding fetch_unless
  fetch filename h = fetch_unless (has (cache_path h.source filename) h.files) filename h

  -- A file of the directory.
  abbrev pub content_of : Option (List ℕ) → Result (List ℕ)
  content_of none = raise not_found_error
  content_of (some bytes) = ok bytes

  abbrev pub content : String → Hub W H → Result (List ℕ)
  content filename h = content_of (lookup (cache_path h.source filename) h.files)

  -- `self._cache[filename] = ...`, and the return after it.
  unfoldable pub keep_open : String → Result H → Hub W H → Result H × Hub W H
  keep_open filename (raise exc) h = (raise exc, h)
  keep_open filename (ok handle) h = (
    ok handle,
    record h { source = record h.source { opened = insert filename handle h.source.opened } },
  )

  unfoldable pub open_fetched : String → Result (Unit {0}) × Hub W H → Result H × Hub W H
  unfolding cache_path keep_open
  open_fetched filename (raise exc, h) = (raise exc, h)
  open_fetched filename (ok done, h) = keep_open filename (content filename h >>= lib.safe_open) h

  -- `_safe_open`, after the look into `_cache`.
  unfoldable pub open_unless : Option H → String → Hub W H → Result H × Hub W H
  unfolding fetch open_fetched
  open_unless (some handle) filename h = (ok handle, h)
  open_unless none filename h = open_fetched filename (fetch filename h)

  -- `_safe_open`
  unfoldable pub safe_open : String → Hub W H → Result H × Hub W H
  unfolding open_unless
  safe_open filename h = open_unless (lookup filename h.source.opened) filename h

  abbrev pub index_name : String
  index_name = "model.safetensors.index.json"

  abbrev pub single_name : String
  single_name = "model.safetensors"

  -- `{k: "model.safetensors" for k in f.keys()}`
  unfoldable pub single_index : List String → Fields → Fields
  single_index [] d = d
  single_index (k ∷ ks) d = single_index ks (put k (str single_name) d)

  -- `dict(json.load(fh).get("weight_map", {}))`, for a map that is a dict.
  abbrev pub weight_map : Value → Result Fields
  weight_map (obj d) = elim (get_or "weight_map" (obj empty) d) [
    | obj files ↦ ok files
    | other ↦ raise other_error
  ]
  weight_map _ = raise other_error

  abbrev pub set_index : Result Fields → Hub W H → Result (Unit {0}) × Hub W H
  set_index (raise exc) h = (raise exc, h)
  set_index (ok index) h = (ok tt, with_index index h)

  -- The one file of a model without an index, once it is opened.
  unfoldable pub index_single : Result H × Hub W H → Result (Unit {0}) × Hub W H
  unfolding single_index
  index_single (raise exc, h) = (raise exc, h)
  index_single (ok handle, h) = (ok tt, with_index (single_index (lib.keys handle) empty) h)

  -- `_ensure_index`, from the download of the index on. A download that raises sets an empty index
  -- before the one file is opened.
  unfoldable pub index_fetched : Result (Unit {0}) × Hub W H → Result (Unit {0}) × Hub W H
  unfolding cache_path index_single safe_open
  index_fetched (ok done, h) = set_index (content index_name h >>= lib.load >>= weight_map) h
  index_fetched (raise exc, h) = index_single (safe_open single_name (with_index empty h))

  -- `_ensure_index`; the first argument is `self._index`.
  unfoldable pub ensure_unless : Option Fields → Hub W H → Result (Unit {0}) × Hub W H
  unfolding fetch index_fetched
  ensure_unless (some index) h = (ok tt, h)
  ensure_unless none h = index_fetched (fetch index_name h)

  unfoldable pub ensure_index : Hub W H → Result (Unit {0}) × Hub W H
  unfolding ensure_unless
  ensure_index h = ensure_unless h.source.index h

  abbrev pub keys_of : Fields → List String
  keys_of empty = []
  keys_of (entry k v d) = k ∷ keys_of d

  abbrev pub index_of : Option Fields → Fields
  index_of none = empty
  index_of (some d) = d

  abbrev pub keys_indexed : Result (Unit {0}) × Hub W H → Result (List String) × Hub W H
  keys_indexed (raise exc, h) = (raise exc, h)
  keys_indexed (ok done, h) = (ok (keys_of (index_of h.source.index)), h)

  -- `list_keys`
  unfoldable pub list_keys : Hub W H → Result (List String) × Hub W H
  unfolding ensure_index
  list_keys h = keys_indexed (ensure_index h)

  -- `self._safe_open(fn).get_tensor(key)`
  abbrev pub tensor_opened : String → Result H × Hub W H → Result T × Hub W H
  tensor_opened key (raise exc, h) = (raise exc, h)
  tensor_opened key (ok handle, h) = (lib.get_tensor handle key, h)

  unfoldable pub tensor_indexed : String → Result (Unit {0}) × Hub W H → Result T × Hub W H
  unfolding safe_open
  tensor_indexed key (raise exc, h) = (raise exc, h)
  tensor_indexed key (ok done, h) = elim (get key (index_of h.source.index)) [
    | null ↦ (raise key_error, h)
    | str filename ↦ tensor_opened key (safe_open filename h)
    | other ↦ (raise type_error, h)
  ]

  -- `get_tensor`
  unfoldable pub get_tensor : String → Hub W H → Result T × Hub W H
  unfolding ensure_index tensor_indexed
  get_tensor key h = tensor_indexed key (ensure_index h)
