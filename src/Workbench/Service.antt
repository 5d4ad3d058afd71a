-- ===== src/Workbench/Service.antt =====
-- What the self-heal of a session asks of its executor: `repull_image` and `container_logs`.
use Prim.Native.String.{count}
use computecloud_node.Prelude.{ℕ, String, ◌<>◌, [], ◌∷◌, leb, str_eq, if◌then◌else◌}
use computecloud_node.Python.{
  Result, ok, raise, type_error, os_error, not_found_error, other_error, Value, str, Fields,
}
use computecloud_node.Python.Dict.{get_item}
use computecloud_node.Python.Text.{str_strip}
use computecloud_node.Commands.{Finished, completed, timed_out, not_found, crashed}
use computecloud_node.Workbench.{DockerSession, Machine, Site, run}

-- `s[-n:]`, for `n` that is not 0.
unfoldable pub last_chars : ℕ → String → String
last_chars n String.[] = ""
last_chars n (String.◌∷◌ c s) =
    let rest = last_chars n s in if leb (count (String.◌∷◌ c s)) n then String.◌∷◌ c s else rest

-- A process whose end does not matter, unless it raises.
abbrev pub ended : Finished → Result (Unit {0})
ended (completed r) = ok tt
ended (timed_out out err) = raise other_error
ended not_found = raise not_found_error
ended crashed = raise os_error

-- `(stdout + stderr).strip()[-2000:]`, and the empty text where it raises.
unfoldable pub logs_of : Finished → String
unfolding last_chars
logs_of (completed r) = last_chars 2000 (str_strip (r.stdout <> r.stderr))
logs_of (timed_out out err) = ""
logs_of not_found = ""
logs_of crashed = ""

module _ {W : Type 0} (host : Machine W) where
  unfoldable pub repulled : Result Value → Site W → Result (Unit {0}) × Site W
  unfolding run
  repulled (raise exc) s = (raise exc, s)
  repulled (ok (str image)) s =
      let (finished, s') = run host (host.docker ∷ "pull" ∷ image ∷ []) 600000 s in
      (ended finished, s')
  repulled (ok other) s = (raise type_error, s)

  -- `repull_image`
  unfoldable pub repull_image : Fields → Site W → Result (Unit {0}) × Site W
  unfolding repulled
  repull_image session_data s = repulled (get_item "docker_image" session_data) s

  -- `container_logs`; `tail` is the text of the number of lines.
  unfoldable pub container_logs : DockerSession → String → Site W → String × Site W
  unfolding logs_of run
  container_logs handle tail s =
      let (finished, s') =
        run host (host.docker ∷ "logs" ∷ "--tail" ∷ tail ∷ handle.container_id ∷ []) 15000 s in
      if str_eq handle.container_id "" then ("", s) else (logs_of finished, s')
