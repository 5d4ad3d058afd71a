-- ===== src/Commands/Local.antt =====
-- src/computecloud_node/local_executor.py: `LocalProcessExecutor`.
use computecloud_node.Prelude.{
  ℕ, String, ◌<>◌, str_eq, ◌≡◌, Bool, true, Option, none, some, List, [], ◌∷◌, if◌then◌else◌, arith,
}
use computecloud_node.Prelude.Int.{negsuc}
use computecloud_node.Python.{
  Result, ok, raise, not_found_error, os_error, other_error, ◌>>=◌, Value, int, float, str, obj,
  Fields, empty, entry,
}
use computecloud_node.Python.Runtime.{Runtime}
use computecloud_node.Commands.{
  CommandResult, Finished, completed, timed_out, not_found, crashed, or_empty, extract_command,
  extract_timeout,
}

pub record LocalProcessExecutor : Type 0 where
  pub default_timeout_seconds : ℕ
  pub shell : Bool

-- What the executor calls: `str.split`, `shutil.which`, and `subprocess.run` with a command line or
-- with arguments, each with a time-out.
pub record Host : Type 0 where
  pub words : String → List String
  pub which : String → Option String
  pub run_shell : String → ℕ → Finished
  pub run_args : List String → ℕ → Finished

-- The dict that `execute` returns.
abbrev pub report : String → CommandResult → Value
report command result = obj (
    entry "command" (str command) (
      entry "return_code" (int result.return_code)
        (entry "stdout" (str result.stdout) (entry "stderr" (str result.stderr) empty))))

module _ (rt : Runtime) (host : Host) where
  abbrev pub timeout_note : ℕ → String
  timeout_note timeout = "Command timed out after " <> rt.display (float timeout) <> "s"

  -- The text that a time-out leaves as the standard error.
  abbrev pub timeout_text : ℕ → Option String → String
  timeout_text timeout none = timeout_note timeout
  timeout_text timeout (some err) =
      if str_eq err "" then timeout_note timeout else timeout_note timeout <> "\n" <> err

  -- The `try` block of `_run`.
  unfoldable pub command_result : ℕ → Finished → Result CommandResult
  command_result timeout (completed result) = ok result
  command_result timeout (timed_out out err) =
      ok (record {
        return_code = negsuc 0;
        stdout = or_empty out;
        stderr = timeout_text timeout err;
      })
  command_result timeout not_found = raise not_found_error
  command_result timeout crashed = raise os_error

  -- The call of `subprocess.run` without a shell.
  unfoldable pub run_words : List String → ℕ → Result Finished
  run_words [] timeout = raise other_error
  run_words (executable ∷ rest) timeout = elim (host.which executable) [
    | none ↦ raise not_found_error
    | some resolved ↦ ok (host.run_args (resolved ∷ rest) timeout)
  ]

  -- `_run`
  unfoldable pub run : LocalProcessExecutor → String → ℕ → Result CommandResult
  unfolding run_words command_result
  run ex command timeout =
      (if ex.shell
        then ok (host.run_shell command timeout)
        else run_words (host.words command) timeout)
      >>= command_result timeout

  -- `LocalProcessExecutor.execute`
  unfoldable pub execute : (Value → Result ℕ) → LocalProcessExecutor → Option Fields → Result Value
  execute to_float ex payload = do
    command ← extract_command rt payload
    timeout ← extract_timeout to_float ex.default_timeout_seconds payload
    result ← run ex command timeout
    ok (report command result)

  -- In a shell, a command that ends within its time is no exception, whatever its exit code is: the
  -- result has the code and the output. A command that does not end in time gives the code -1.
  pub execute-report :
      (to_float : Value → Result ℕ) (ex : LocalProcessExecutor) (payload : Option Fields)
      (command : String) (timeout : ℕ)
      → ex.shell ≡ true
      → extract_command rt payload ≡ ok command
      → extract_timeout to_float ex.default_timeout_seconds payload ≡ ok timeout
      → ((result : CommandResult)
          → host.run_shell command timeout ≡ completed result
          → execute to_float ex payload ≡ ok (report command result))
        × ((out err : Option String)
            → host.run_shell command timeout ≡ timed_out out err
            → execute to_float ex payload
              ≡ ok (
                  report command (record {
                    return_code = negsuc 0;
                    stdout = or_empty out;
                    stderr = timeout_text timeout err;
                  })))
  unfolding execute run command_result
  execute-report to_float ex payload command timeout shell has_command has_timeout = (
    λ result ended. ground (arith, shell, has_command, has_timeout, ended),
    λ out err late. ground (arith, shell, has_command, has_timeout, late),
  )
