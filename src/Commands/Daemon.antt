-- ===== src/Commands/Daemon.antt =====
-- src/computecloud_node/docker_executor.py: `DockerExecutor.is_docker_available` and
-- `ensure_docker_running`. The processes and the clock are a parameter; times are in milliseconds.
pub mod Ensured
use computecloud_node.Prelude.{
  ℕ, zero, suc, ◌+◌, String, Bool, true, false, Option, none, some, List, ltb, str_eq, ◌&&◌,
  if◌then◌else◌,
}
use computecloud_node.Commands.Docker.{Machine, find_docker, launch_docker_desktop}

-- `docker info` (true where it ends with the code 0 in time), the start of a process, `time.monotonic`
-- and `time.sleep`.
pub record Daemon (S : Type 0) : Type 0 where
  pub info : String → S → Bool × S
  pub popen : List String → S → Bool × S
  pub now : S → ℕ
  pub sleep : ℕ → S → S

-- `which("docker") is None`
abbrev pub is_missing : Option String → Bool
is_missing none = true
is_missing (some path) = false

module _ {S : Type 0} (host : Machine) (daemon : Daemon S) where
  -- `is_docker_available`
  unfoldable pub is_docker_available : S → Bool × S
  unfolding find_docker
  is_docker_available s =
      if str_eq (find_docker host) "docker" && is_missing (host.which "docker")
      then (false, s)
      else daemon.info (find_docker host) s

  module _ (interval deadline : ℕ) where
    -- The answer of a probe within the loop; `next` is the rest of the loop.
    abbrev pub probed : (S → Option (Bool × S)) → Bool × S → Option (Bool × S)
    probed next (true, s) = some (true, s)
    probed next (false, s) = next (daemon.sleep interval s)

    -- The loop `while time.monotonic() < deadline`, with the last probe after it. The fuel counts the
    -- rounds: `none` is a loop that goes on.
    unfoldable pub daemon_loop : ℕ → S → Option (Bool × S)
    unfolding is_docker_available
    daemon_loop zero s = none
    daemon_loop (suc fuel) s =
        let rest = probed (λ s'. daemon_loop fuel s') (is_docker_available s) in
        if ltb (daemon.now s) deadline then rest else some (is_docker_available s)

  -- From the launch on.
  abbrev pub waited : ℕ → ℕ → ℕ → Bool × S → Option (Bool × S)
  waited fuel timeout interval (false, s) = some (false, s)
  waited fuel timeout interval (true, s) = daemon_loop interval (daemon.now s + timeout) fuel s

  abbrev pub unless_available : (S → Option (Bool × S)) → Bool × S → Option (Bool × S)
  unless_available next (true, s) = some (true, s)
  unless_available next (false, s) = next s

  -- `ensure_docker_running`
  unfoldable pub ensure_docker_running : ℕ → ℕ → ℕ → S → Option (Bool × S)
  unfolding is_docker_available daemon_loop launch_docker_desktop
  ensure_docker_running fuel timeout interval s =
      unless_available
        (λ s'. waited fuel timeout interval (launch_docker_desktop host daemon.popen s'))
        (is_docker_available s)
