-- ===== src/Llm/Uri.antt =====
-- src/computecloud_node/llm/uri.py: addresses of local weights. A text is the list of its code points.
use computecloud_node.Prelude.{
  ℕ, Bool, true, false, List, [], ◌∷◌, ◌++◌, any, map, not, ◌&&◌, ◌||◌, ◌==◌, if◌then◌else◌,
}
use computecloud_node.Python.{Result, ok, raise, value_error, ◌>>=◌, check, codes, strip}
use computecloud_node.Python.Text.{starts_with, same_text, split}

-- `urlparse`, `unquote`, `os.path.isabs`, `os.path.normpath` and `str.isalpha` of a character.
pub record UrlLibrary : Type 0 where
  pub scheme : List ℕ → List ℕ
  pub netloc : List ℕ → List ℕ
  pub path : List ℕ → List ℕ
  pub unquote : List ℕ → List ℕ
  pub is_abs : List ℕ → Bool
  pub normpath : List ℕ → List ℕ
  pub is_alpha : ℕ → Bool

abbrev pub file_scheme : List ℕ
file_scheme = codes "file://"

-- `is_llm_weights_uri`
unfoldable pub is_llm_weights_uri : List ℕ → Bool
is_llm_weights_uri uri =
    starts_with (strip uri) (codes "hf://") || starts_with (strip uri) file_scheme

module _ (url : UrlLibrary) where
  -- `len(s) >= 2 and s[1] == ":" and s[0].isalpha()`
  abbrev pub is_drive : List ℕ → Bool
  is_drive (c ∷ d ∷ s) = d == b':' && url.is_alpha c
  is_drive _ = false

  -- The path with the host, which may be a drive.
  unfoldable pub with_host : List ℕ → List ℕ → Result (List ℕ)
  with_host [] path = ok path
  with_host (c ∷ s) path =
      if same_text (c ∷ s) (codes "localhost")
      then ok path
      else if is_drive (c ∷ s)
      then ok (c ∷ s ++ path)
      else raise value_error

  -- The path without the slash before a drive.
  unfoldable pub without_slash : List ℕ → List ℕ
  without_slash [] = []
  without_slash (c ∷ path) = if c == b'/' && is_drive path then path else c ∷ path

  abbrev pub is_empty : List ℕ → Bool
  is_empty [] = true
  is_empty (c ∷ s) = false

  -- `".." in path.replace("\\", "/").split("/")`
  abbrev pub has_dots : List ℕ → Bool
  has_dots path =
      any (λ part. same_text part (codes ".."))
        (split b'/' (map (λ c. if c == 92 then b'/' else c) path))

  -- `parse_file_uri`, after `uri.strip()`.
  unfoldable pub parse_file : List ℕ → Result (List ℕ)
  unfolding with_host without_slash
  parse_file s = do
    prefixed ← check (starts_with s file_scheme) value_error
    schemed ← check (same_text (url.scheme s) (codes "file")) value_error
    path ← with_host (url.netloc s) (url.unquote (url.path s))
    full ← check (not (is_empty path)) value_error
    absolute ← check (url.is_abs (without_slash path)) value_error
    plain ← check (not (has_dots (without_slash path))) value_error
    ok (url.normpath (without_slash path))

  -- `parse_file_uri`
  unfoldable pub parse_file_uri : List ℕ → Result (List ℕ)
  unfolding parse_file
  parse_file_uri uri = parse_file (strip uri)
