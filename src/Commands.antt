-- ===== src/Commands.antt =====
-- The executors that run a task's command: src/computecloud_node/local_executor.py and
-- src/computecloud_node/docker_executor.py. This file holds what both share.
pub mod Local
pub mod Docker
pub mod Daemon
pub mod Hardening
mod Tests
use computecloud_node.Prelude.{
  ℕ, String, ◌<>◌, Bool, true, false, Option, none, some, List, [], ◌∷◌, if◌then◌else◌,
}
use computecloud_node.Prelude.Int.{ℤ, negsuc}
use computecloud_node.Python.{
  Result, ok, raise, value_error, type_error, Value, null, bool, int, float, str, arr, obj, Items,
  nil, cons, Fields, empty, entry,
}
use computecloud_node.Python.Dict.{lookup, get, get_item}
use computecloud_node.Python.Runtime.{Runtime, to_str}

-- `CommandResult`
pub record CommandResult : Type 0 where
  pub return_code : ℤ
  pub stdout : String
  pub stderr : String

-- What `subprocess.run` does: it returns, it times out (with the output so far, where there is
-- one), or it raises another exception; `not_found` is a `FileNotFoundError`.
pub data Finished : Type 0 where
  completed : CommandResult → Finished
  timed_out : Option String → Option String → Finished
  not_found : Finished
  crashed : Finished

-- `" ".join(str(v) for v in value)`
unfoldable pub join_words : (Value → String) → Items → String
join_words text nil = ""
join_words text (cons x nil) = text x
join_words text (cons x (cons y ys)) = text x <> " " <> join_words text (cons y ys)

-- `stdout or ""`
abbrev pub or_empty : Option String → String
or_empty none = ""
or_empty (some s) = s

module _ (rt : Runtime) where
  -- The text of a command: a list is joined.
  unfoldable pub command_text : Value → String
  unfolding join_words
  command_text (arr xs) = join_words (to_str rt) xs
  command_text v = to_str rt v

  -- The loop `for key in ("command", "cmd", "shell")`, and the exception after it.
  unfoldable pub first_command : List String → Fields → Result String
  unfolding command_text
  first_command [] payload = raise value_error
  first_command (key ∷ keys) payload =
      let rest = first_command keys payload in
      elim (get key payload) [ null ↦ rest | value ↦ ok (command_text value) ]

  -- `_extract_command`. `none` is a payload that is `None`.
  unfoldable pub extract_command : Option Fields → Result String
  unfolding first_command
  extract_command none = raise value_error
  extract_command (some payload) = first_command ("command" ∷ "cmd" ∷ "shell" ∷ []) payload

-- `except (TypeError, ValueError): pass`, with the default after it.
abbrev pub or_default : ℕ → Result ℕ → Result ℕ
or_default default (ok seconds) = ok seconds
or_default default (raise type_error) = ok default
or_default default (raise value_error) = ok default
or_default default (raise exc) = raise exc

-- `_extract_timeout`; `to_float` is `float(value)`. Times are binary64 bit patterns.
unfoldable pub extract_timeout : (Value → Result ℕ) → ℕ → Option Fields → Result ℕ
extract_timeout to_float default none = ok default
extract_timeout to_float default (some payload) = elim (lookup "timeout_seconds" payload) [
  | none ↦ ok default
  | some value ↦ or_default default (to_float value)
]
