-- ===== src/Session/Running.antt =====
-- The main loop of a session in src/computecloud_node/node.py, and the whole of
-- `_run_session_container`.
use computecloud_node.Prelude.{
  ℕ, String, Bool, true, false, Option, none, some, List, [], ◌∷◌, ◌++◌, not, ◌&&◌, ◌||◌,
  if◌then◌else◌,
}
use computecloud_node.Prelude.Equality.{contains, string_eq}
use computecloud_node.Python.{
  Result, ok, raise, other_error, type_error, Value, str, obj, Fields, truthy,
}
use computecloud_node.Python.Dict.{get, get_or}
use computecloud_node.Security.{
  SecurityMonitor, SecurityAlert, Severity, critical, warning, Observation, scan_container, init,
}
use computecloud_node.Exchange.{Response}
use computecloud_node.Node.{json_of}
use computecloud_node.Session.{
  SessionHandle, has_container, init_failed, start_failed, ready_failed, exited, by_renter, alarmed,
  Workbench, Place, report_session_terminated, deactivate, activate, call, stop_quietly,
  verify_and_heal_session,
}

-- One round of the session's main loop, as the session meets it: whether the stop event is set, the
-- answer to the heartbeat (`none` if it raises), whether the session is alive (false if that
-- raises), and what a scan would see (`none` if none is due).
pub record Tick : Type 0 where
  pub stopped : Bool
  pub should_terminate : Option Bool
  pub alive : Bool
  pub scan : Option Observation

-- How the main loop has ended; `open_end` is a session that goes on.
pub data LoopEnd : Type 0 where
  open_end left_loop found_dead : LoopEnd
  raised_alarm : SecurityAlert → LoopEnd

abbrev pub asked_to_end : Option Bool → Bool
asked_to_end none = false
asked_to_end (some b) = b

abbrev pub is_critical : Severity → Bool
is_critical critical = true
is_critical warning = false

-- What follows a scan: a critical alert ends the loop, any alert is reported. `go` is the rest of the
-- loop.
unfoldable pub after_scan :
    List SecurityAlert
    → Option SecurityAlert
    → (List SecurityAlert → LoopEnd × List SecurityAlert)
    → LoopEnd × List SecurityAlert
after_scan alerts none go = go alerts
after_scan alerts (some a) go =
    if is_critical a.severity then (raised_alarm a, alerts ++ a ∷ []) else go (alerts ++ a ∷ [])

-- One round.
unfoldable pub session_round :
    Tick
    → List SecurityAlert
    → Option SecurityAlert
    → (List SecurityAlert → LoopEnd × List SecurityAlert)
    → LoopEnd × List SecurityAlert
unfolding after_scan
session_round tick alerts alert go =
    if tick.stopped || asked_to_end tick.should_terminate
    then (left_loop, alerts)
    else if not tick.alive
    then (found_dead, alerts)
    else after_scan alerts alert go

-- The main loop of `_run_session_container`, over its rounds. `monitored` is a Docker session with a
-- container; the monitor is the state of its scanner.
module _ (lower : List ℕ → List ℕ) (parse_float : List ℕ → Option ℕ) where
  -- A scan that is due, if the session is monitored.
  abbrev pub scan_once :
      Bool → Option Observation → SecurityMonitor → Option SecurityAlert × SecurityMonitor
  scan_once monitored none monitor = (none, monitor)
  scan_once monitored (some seen) monitor =
      if monitored then scan_container lower parse_float seen monitor else (none, monitor)

  unfoldable pub session_loop :
      Bool → SecurityMonitor → List SecurityAlert → List Tick → LoopEnd × List SecurityAlert
  unfolding session_round
  session_loop monitored monitor alerts [] = (open_end, alerts)
  session_loop monitored monitor alerts (tick ∷ ticks) =
      let (alert, monitor') = scan_once monitored tick.scan monitor in
      session_round tick alerts alert (λ alerts'. session_loop monitored monitor' alerts' ticks)

  module _ {W : Type 0} (ex : Workbench W) (session_id : String) where
    -- What follows the main loop.
    unfoldable pub finish : SessionHandle → LoopEnd → Place W → Place W
    finish handle open_end p = p
    finish handle left_loop p =
        deactivate session_id
          (report_session_terminated session_id by_renter (stop_quietly ex handle p))
    finish handle found_dead p =
        deactivate session_id (report_session_terminated session_id exited p)
    finish handle (raised_alarm a) p =
        deactivate session_id
          (report_session_terminated session_id (alarmed a.alert_type) (stop_quietly ex handle p))

    -- `_run_session_container` from the answer to the report of readiness on. 4636385447633747968
    -- is the float 95.0.
    unfoldable pub served : List Tick → SessionHandle → Bool × Place W → Place W
    unfolding finish session_loop
    served ticks handle (false, p) =
        report_session_terminated session_id ready_failed (stop_quietly ex handle p)
    served ticks handle (true, p) =
        let (ending, alerts) =
          session_loop (handle.is_docker && has_container handle.container_id)
            (init 4636385447633747968 10) p.alerts ticks in
        finish handle ending (record p { alerts = alerts })

    -- `_run_session_container` from the check of the service on.
    unfoldable pub verified_session : List Tick → Option SessionHandle × Place W → Place W
    unfolding served
    verified_session ticks (none, p) = p
    verified_session ticks (some handle, p) =
        served ticks handle (call (ex.post_ready handle) (activate session_id p))

    -- The deep check, for a Docker session.
    unfoldable pub checked : SessionHandle → Place W → Option SessionHandle × Place W
    unfolding verify_and_heal_session
    checked handle p =
        if handle.is_docker
        then verify_and_heal_session ex session_id handle p
        else (some handle, p)

    -- `_run_session_container` from the start of the session on.
    unfoldable pub started_session : List Tick → Result SessionHandle × Place W → Place W
    unfolding checked verified_session
    started_session ticks (raise exc, p) = report_session_terminated session_id start_failed p
    started_session ticks (ok handle, p) = verified_session ticks (checked handle p)

  -- `_run_session_container`; `none` is an executor that could not be made.
  unfoldable pub run_session_container :
      {W : Type 0} → Option (Workbench W) → String → List Tick → Place W → Place W
  unfolding started_session
  run_session_container none session_id ticks p = report_session_terminated session_id init_failed p
  run_session_container (some ex) session_id ticks p =
      started_session ex session_id ticks (call ex.start_session p)

-- What follows the request in `_session_poll_once`: the session to run in a new thread. A body that
-- is no dict raises outside the `try`, and so does a session id that is no text.
unfoldable pub pulled_session : Result Value → List String → Result (Option Fields)
pulled_session (raise exc) active = ok none
pulled_session (ok (obj body)) active =
    if not (truthy (get "has_session" body))
    then ok none
    else elim (get_or "session_id" (str "") body) [
      | str session_id ↦ ok (if contains session_id active then none else some body)
      | other ↦ raise type_error
    ]
pulled_session (ok _) active = raise other_error

-- `_session_poll_once` in HTTP mode.
unfoldable pub session_poll_once :
    (ℕ → Bool) → Option Response → List String → Result (Option Fields)
unfolding pulled_session
session_poll_once is_success answer active = pulled_session (json_of is_success answer) active
