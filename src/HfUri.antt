-- ===== src/HfUri.antt =====
-- src/computecloud_node/hf_uri.py: the `hf://` addresses of weights. A text is the list of its code
-- points. The two regular expressions are read off: no character of a model's name is `@`, so that a
-- match splits the text at its first `@`.
pub mod RoundTrip
mod Tests
use computecloud_node.Prelude.{
  ℕ, Bool, false, Option, none, some, List, [], ◌∷◌, ◌++◌, length, drop, all, any, leb, ◌&&◌, ◌||◌,
  not, ◌==◌, if◌then◌else◌,
}
use computecloud_node.Python.{Result, ok, raise, value_error, ◌>>=◌, check, codes, is_digit, strip}
use computecloud_node.Python.Text.{starts_with, is_infix, split}

abbrev pub is_alnum : ℕ → Bool
is_alnum c = (leb 65 c && leb c 90) || (leb 97 c && leb c 122) || is_digit c

-- `[A-Za-z0-9._\-]` and `[A-Za-z0-9._\-/]`
abbrev pub is_revision_char : ℕ → Bool
is_revision_char c = is_alnum c || c == b'.' || c == b'_' || c == b'-'

abbrev pub is_name_char : ℕ → Bool
is_name_char c = is_revision_char c || c == b'/'

-- `[A-Za-z0-9][A-Za-z0-9._\-/]*`
abbrev pub is_name : List ℕ → Bool
is_name [] = false
is_name (c ∷ s) = is_alnum c && all is_name_char s

-- `[A-Za-z0-9._\-]+`
abbrev pub is_revision : List ℕ → Bool
is_revision [] = false
is_revision (c ∷ s) = all is_revision_char (c ∷ s)

-- The text before the first `@` and, if there is one, the text after it.
unfoldable pub split_at_sign : List ℕ → List ℕ × Option (List ℕ)
split_at_sign [] = ([], none)
split_at_sign (c ∷ s) =
    let (before, after) = split_at_sign s in if c == b'@' then ([], some s) else (c ∷ before, after)

abbrev pub default_revision : List ℕ
default_revision = codes "main"

abbrev pub scheme : List ℕ
scheme = codes "hf://"

-- `_HF_URI_RE.match(s)`, else `_HF_URI_NO_REV_RE.match(s)`, on the text after the scheme.
unfoldable pub match_parts : List ℕ × Option (List ℕ) → Result (List ℕ × List ℕ)
match_parts (name, some revision) =
    if is_name name && is_revision revision then ok (name, revision) else raise value_error
match_parts (name, none) = if is_name name then ok (name, default_revision) else raise value_error

-- The tests of the segments of the name, and of the revision.
unfoldable pub check_parts : List ℕ → List ℕ → Result (Unit {0})
check_parts model_id revision = do
  let parts = split b'/' model_id
  few ← check (leb (length parts) 2) value_error
  full ← check (all (λ seg. not (length seg == 0)) parts) value_error
  relative ← check (not (starts_with model_id (b'/' ∷ []))) value_error
  check (not (is_infix (b'/' ∷ []) revision)) value_error

abbrev pub is_control : ℕ → Bool
is_control c = c == 0 || c == 10 || c == 13

-- `parse_hf_uri`, after `uri.strip()`.
unfoldable pub parse_stripped : List ℕ → Result (List ℕ × List ℕ)
parse_stripped s = do
  schemed ← check (starts_with s scheme) value_error
  no_dots ← check (not (is_infix (codes "..") s)) value_error
  no_control ← check (not (any is_control s)) value_error
  full ← check (not (length (drop (length scheme) s) == 0)) value_error
  found ← match_parts (split_at_sign (drop (length scheme) s))
  valid ← check_parts found.0 found.1
  ok found

-- `parse_hf_uri`
unfoldable pub parse_hf_uri : List ℕ → Result (List ℕ × List ℕ)
parse_hf_uri uri = parse_stripped (strip uri)

abbrev pub uri_of : List ℕ → List ℕ → List ℕ
uri_of model_id revision = scheme ++ (model_id ++ b'@' ∷ revision)

-- `build_hf_uri`
unfoldable pub build_hf_uri : List ℕ → List ℕ → Result (List ℕ)
build_hf_uri model_id revision = do
  parsed ← parse_hf_uri (uri_of model_id revision)
  ok (uri_of model_id revision)
