-- ===== src/Session/Tests.antt =====
-- A session that a restart heals, one that ends, and one whose readiness cannot be reported.
use computecloud_node.Prelude.{
  ℕ, ◌+◌, ◌≡◌, refl, Bool, true, false, Option, none, some, List, [], ◌∷◌, leb, ◌==◌, if◌then◌else◌,
}
use computecloud_node.Prelude.Equality.{contains, string_eq}
use computecloud_node.Python.{ok, str, bool, Fields, empty, entry}
use computecloud_node.Python.Dict.{lookup, get_or}
use computecloud_node.Security.{Observation, SecurityMonitor}
use computecloud_node.Session.{SessionHandle, Workbench, Place, exited, verify_and_heal_session}
use computecloud_node.Session.Healing.{Healed, verify_and_heal_session-Healed}
use computecloud_node.Session.Ending.{Ends, run_session_container-Ends}
use computecloud_node.Session.Running.{Tick, run_session_container, session_loop}
use computecloud_node.Session.Alarms.{Reported, session_loop-Alarmed}

abbrev handle_of : Bool → ℕ → SessionHandle
handle_of docker port = record {
  host_port = port;
  auth_token = "token";
  container_id = if docker then some "c" else none;
  is_docker = docker;
}

-- The world counts the starts: the second container answers. Readiness is taken by the server if
-- `reachable`.
abbrev bench : Bool → Bool → Workbench ℕ
bench docker reachable = record {
  start_session = λ w. (ok (handle_of docker (9000 + w)), w + 1);
  stop_session = λ handle w. (ok tt, w);
  repull_image = none;
  container_logs = none;
  probe = λ port w. (leb 9001 port, w);
  pause = λ w. w;
  post_ready = λ handle w. (reachable, w);
}

abbrev place : ℕ → Place ℕ
place starts = record { world = starts; reports = []; alerts = []; active = "other" ∷ [] }

abbrev heard : Bool → Option Observation → Tick
heard alive seen = record {
  stopped = false;
  should_terminate = some false;
  alive = alive;
  scan = seen;
}

abbrev lower : List ℕ → List ℕ
lower s = s

abbrev parse_float : List ℕ → Option ℕ
parse_float s = some 0

-- A container in which a miner runs.
abbrev mining : Observation
mining = record {
  top = some (0, 97 ∷ 10 ∷ 49 ∷ 32 ∷ 120 ∷ 109 ∷ 114 ∷ 105 ∷ 103 ∷ []);
  stats = none;
}

restart_heals :
    verify_and_heal_session (bench true true) "s" (handle_of true 9000) (place 1)
    ≡ (some (handle_of true 9001), place 2)
unfolding verify_and_heal_session
restart_heals = refl

verify_and_heal_session-Healed_example :
    Healed
      (bench true true)
      "s"
      (place 1)
      (verify_and_heal_session (bench true true) "s" (handle_of true 9000) (place 1)).0
      (verify_and_heal_session (bench true true) "s" (handle_of true 9000) (place 1)).1
verify_and_heal_session-Healed_example =
    verify_and_heal_session-Healed (bench true true) "s" (handle_of true 9000) (place 1)

idle : contains "s" (place 0).active ≡ false
unfolding string_eq
idle = refl

dies :
    (run_session_container lower parse_float
      (some (bench true true))
      "s"
      (heard true none ∷ heard false none ∷ [])
      (place 0)).reports
    ≡ ("s", exited) ∷ []
unfolding run_session_container
dies = refl

run_session_container-Ends_example : Ends "s" (place 0) (
    run_session_container lower parse_float
      (some (bench true true))
      "s"
      (heard true none ∷ heard false none ∷ [])
      (place 0))
run_session_container-Ends_example =
    run_session_container-Ends "s" lower parse_float (some (bench true true))
      (heard true none ∷ heard false none ∷ []) (place 0) idle

abbrev monitor : SecurityMonitor
monitor = record { cpu_threshold = 0; sustained_checks = 10; cpu_history = [] }

session_loop-Alarmed_example :
    Reported lower parse_float true monitor
      (heard true (some mining) ∷ [])
      []
      (session_loop lower parse_float true monitor [] (heard true (some mining) ∷ [])).0
      (session_loop lower parse_float true monitor [] (heard true (some mining) ∷ [])).1
session_loop-Alarmed_example =
    session_loop-Alarmed lower parse_float true (heard true (some mining) ∷ []) monitor []

abbrev assignment : Fields
assignment = entry "has_session" (bool true) (entry "session_id" (str "s") empty)

assigned : get_or "session_id" (str "") assignment ≡ str "s"
unfolding lookup
assigned = refl

abbrev is_success : ℕ → Bool
is_success status = status == 200
