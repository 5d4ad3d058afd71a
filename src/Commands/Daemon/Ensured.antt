-- ===== src/Commands/Daemon/Ensured.antt =====
-- How the wait for the Docker daemon ends.
use computecloud_node.Prelude.{
  ℕ, zero, suc, ◌+◌, ◌≤◌, ◌<◌, ◌≡◌, refl, String, Bool, true, false, Option, some, ltb, arith,
  Bool-cases, inl, inr, str_eq, ◌&&◌,
}
use computecloud_node.Commands.Docker.{Machine, find_docker, launch_docker_desktop}
use computecloud_node.Commands.Daemon.{
  Daemon, is_missing, is_docker_available, probed, daemon_loop, waited, unless_available,
  ensure_docker_running,
}

-- A clock that does not go back, and that a sleep moves on by its time.
pub record IsTicking {S : Type 0} (daemon : Daemon S) : Type 0 where
  pub info_later : (docker : String) (s : S) → daemon.now s ≤ daemon.now (daemon.info docker s).1
  pub sleep_later : (time : ℕ) (s : S) → time + daemon.now s ≤ daemon.now (daemon.sleep time s)

module _ {S : Type 0} (host : Machine) (daemon : Daemon S) where
  -- What a wait has found: the daemon has answered a probe, the last probe was not answered, or
  -- there was nothing to launch.
  pub data Ensured : Option (Bool × S) → Type 0 where
    answered :
        (asked s : S) → is_docker_available host daemon asked ≡ (true, s) → Ensured (some (true, s))
    unanswered :
        (asked s : S)
        → is_docker_available host daemon asked ≡ (false, s)
        → Ensured (some (false, s))
    not_launched :
        (asked s : S)
        → launch_docker_desktop host daemon.popen asked ≡ (false, s)
        → Ensured (some (false, s))

  asked_once :
      (asked : S) (p : Bool × S) → is_docker_available host daemon asked ≡ p → Ensured (some p)
  asked_once asked (true, s) e = answered asked s e
  asked_once asked (false, s) e = unanswered asked s e

  is_docker_available-later :
      IsTicking daemon → (s : S) → daemon.now s ≤ daemon.now (is_docker_available host daemon s).1
  unfolding is_docker_available
  is_docker_available-later ticking s =
      elim (Bool-cases (str_eq (find_docker host) "docker" && is_missing (host.which "docker"))) [
        | inl missing ↦ rw missing (omega arith)
        | inr found ↦ rw found (ticking.info_later (find_docker host) s)
      ]

  module _ (interval deadline : ℕ) where
    probed-Ensured :
        (next : S → Option (Bool × S)) (asked : S) (p : Bool × S)
        → is_docker_available host daemon asked ≡ p
        → Ensured (next (daemon.sleep interval p.1))
        → Ensured (probed host daemon interval deadline next p)
    probed-Ensured next asked (true, s) e rest = answered asked s e
    probed-Ensured next asked (false, s) e rest = rest

    daemon_loop-Ensured :
        IsTicking daemon
        → 0 < interval
        → (fuel : ℕ) (s : S) → deadline ≤ fuel + daemon.now s
        → Ensured (daemon_loop host daemon interval deadline (suc fuel) s)
    unfolding daemon_loop
    daemon_loop-Ensured ticking moves zero s enough =
        let late : ltb (daemon.now s) deadline ≡ false = ground (arith, enough) in
        rw late (asked_once s (is_docker_available host daemon s) refl)
    daemon_loop-Ensured ticking moves (suc fuel) s enough =
        elim (Bool-cases (ltb (daemon.now s) deadline)) [
          | inr late ↦ rw late (asked_once s (is_docker_available host daemon s) refl)
          | inl early ↦
              let after = (is_docker_available host daemon s).1 in
              let later = is_docker_available-later ticking s in
              let slept = ticking.sleep_later interval after in
              rw early (
                probed-Ensured (λ s'. daemon_loop host daemon interval deadline (suc fuel) s') s
                  (is_docker_available host daemon s) refl
                  (daemon_loop-Ensured ticking moves fuel (daemon.sleep interval after)
                    (omega (arith, enough, later, slept, moves))))
        ]

  waited-Ensured :
      IsTicking daemon
      → (timeout interval : ℕ) → 0 < interval
      → (asked : S) (p : Bool × S) → launch_docker_desktop host daemon.popen asked ≡ p
      → Ensured (waited host daemon (suc timeout) timeout interval p)
  waited-Ensured ticking timeout interval moves asked (false, s) e = not_launched asked s e
  waited-Ensured ticking timeout interval moves asked (true, s) e =
      daemon_loop-Ensured interval (daemon.now s + timeout) ticking moves timeout s (omega arith)

  unless_available-Ensured :
      (next : S → Option (Bool × S)) (asked : S) (p : Bool × S)
      → is_docker_available host daemon asked ≡ p
      → ((s : S) → Ensured (next s))
      → Ensured (unless_available host daemon next p)
  unless_available-Ensured next asked (true, s) e rest = answered asked s e
  unless_available-Ensured next asked (false, s) e rest = rest s

  -- On a clock that does not go back, with a pause between probes, `ensure_docker_running` ends within
  -- `timeout` rounds and one more. It gives true exactly where its last probe found the daemon; it
  -- gives false after a probe that did not, or where there was nothing to launch.
  pub ensure_docker_running-Ensured :
      (timeout interval : ℕ) (s : S)
      → IsTicking daemon
      → 0 < interval
      → Ensured (ensure_docker_running host daemon (suc timeout) timeout interval s)
  unfolding ensure_docker_running
  ensure_docker_running-Ensured timeout interval s ticking moves =
      unless_available-Ensured _ s (is_docker_available host daemon s) refl (λ s'.
        waited-Ensured ticking timeout interval moves s'
          (launch_docker_desktop host daemon.popen s') refl)
