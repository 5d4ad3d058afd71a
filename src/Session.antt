-- ===== src/Session.antt =====
-- The life of a workbench session in src/computecloud_node/node.py: `_session_poll_once`,
-- `_run_session_container` and `_verify_and_heal_session`. The executor of sessions and the server
-- act on a world that is a parameter; what they are told is kept in `Place`. The log is not
-- modelled, and a message is kept as the place that it comes from.
pub mod Running
pub mod Healing
pub mod Ending
pub mod Removal
pub mod Swept
pub mod Docker
pub mod Tunnel
pub mod Alarms
mod Tests
use computecloud_node.Prelude.{
  ℕ, zero, suc, String, Bool, true, false, Option, none, some, List, [], ◌∷◌, ◌++◌, not, str_eq,
  if◌then◌else◌,
}
use computecloud_node.Prelude.Equality.{contains, without, string_eq}
use computecloud_node.Python.{Result, ok, raise}
use computecloud_node.Security.{SecurityAlert, AlertType}

-- `SessionHandle`, with the fields that the node uses.
pub record SessionHandle : Type 0 where
  pub host_port : ℕ
  pub auth_token : String
  pub container_id : Option String
  pub is_docker : Bool

-- `getattr(handle, "container_id", None)`, as a condition.
abbrev pub has_container : Option String → Bool
has_container none = false
has_container (some container_id) = not (str_eq container_id "")

-- Why a session has ended, as it is reported: a failure with the place that it comes from, the end
-- of the session, or an alert.
pub data Reason : Type 0 where
  init_failed start_failed restart_failed repull_failed ready_failed : Reason
  exhausted : String → Reason
  exited by_renter : Reason
  alarmed : AlertType → Reason

-- A `WorkbenchExecutor` with what the node uses beside it: the probe of the service
-- (`probe_session_service`, true for no problem), the pause between probes, and the report that a
-- session is ready. `none` is a method that the executor does not have.
pub record Workbench (W : Type 0) : Type 0 where
  pub start_session : W → Result SessionHandle × W
  pub stop_session : SessionHandle → W → Result (Unit {0}) × W
  pub repull_image : Option (W → Result (Unit {0}) × W)
  pub container_logs : Option (SessionHandle → W → Result String × W)
  pub probe : ℕ → W → Bool × W
  pub pause : W → W
  pub post_ready : SessionHandle → W → Bool × W

-- The world, the terminations that were reported, and `_active_sessions`.
pub record Place (W : Type 0) : Type 0 where
  pub world : W
  pub reports : List (String × Reason)
  pub alerts : List SecurityAlert
  pub active : List String

module _ {W : Type 0} where
  -- `_report_session_terminated`. The server's answer does not matter.
  abbrev pub report_session_terminated : String → Reason → Place W → Place W
  report_session_terminated session_id reason p = record p {
    reports = p.reports ++ (session_id, reason) ∷ [];
  }

  -- `_active_sessions.pop(session_id, None)`
  abbrev pub deactivate : String → Place W → Place W
  deactivate session_id p = record p { active = without session_id p.active }

  -- `_active_sessions[session_id] = handle`
  abbrev pub activate : String → Place W → Place W
  activate session_id p = record p {
    active = if contains session_id p.active then p.active else p.active ++ session_id ∷ [];
  }

  -- A call of the executor.
  abbrev pub call {ℓ} : {A : Type ℓ} → (W → A × W) → Place W → A × Place W
  call act p = let (a, w) = act p.world in (a, record p { world = w })

module _ {W : Type 0} (ex : Workbench W) where
  -- The inner `_capture_logs`: the last non-empty tail.
  unfoldable pub capture_logs : SessionHandle → String → Place W → String × Place W
  capture_logs handle last_logs p = elim ex.container_logs [
    | none ↦ (last_logs, p)
    | some logs ↦
        let (result, p') = call (logs handle) p in
        elim result [
          | raise exc ↦ (last_logs, p')
          | ok tail ↦ (if str_eq tail "" then last_logs else tail, p')
        ]
  ]

  -- The loop `for attempt in range(3)` over the attempts that are left.
  unfoldable pub probe_loop : ℕ → ℕ → Place W → Bool × Place W
  probe_loop zero port p = (false, p)
  probe_loop (suc attempts) port p =
      let (healthy, p') = call (ex.probe port) p in
      elim healthy [
        | true ↦ (true, p')
        | false ↦ probe_loop attempts port (record p' { world = ex.pause p'.world })
      ]

  -- `try: executor.stop_session(handle) except Exception: pass`
  abbrev pub stop_quietly : SessionHandle → Place W → Place W
  stop_quietly handle p = (call (ex.stop_session handle) p).1

  -- `stop_session`, the call between, and `start_session`, in one `try` block.
  unfoldable pub restart :
      SessionHandle → (W → Result (Unit {0}) × W) → Place W → Result SessionHandle × Place W
  restart handle between p =
      let (stopped, p1) = call (ex.stop_session handle) p in
      elim stopped [
        | raise exc ↦ (raise exc, p1)
        | ok done ↦
            let (prepared, p2) = call between p1 in
            elim prepared [ raise exc ↦ (raise exc, p2) | ok done' ↦ call ex.start_session p2 ]
      ]

  module _ (session_id : String) where
    -- Step 4 of the ladder.
    unfoldable pub give_up : SessionHandle → String → Place W → Option SessionHandle × Place W
    unfolding capture_logs
    give_up handle last_logs p =
        let (logs, p') = capture_logs handle last_logs p in
        (none, report_session_terminated session_id (exhausted logs) (stop_quietly handle p'))

    -- A restart that is part of the ladder, after `restart`, with its probe; `next` is the step after
    -- it.
    unfoldable pub rung_from :
        Reason
        → (SessionHandle → Place W → Option SessionHandle × Place W)
        → Result SessionHandle × Place W
        → Option SessionHandle × Place W
    rung_from reason next (raise exc, p) = (none, report_session_terminated session_id reason p)
    rung_from reason next (ok handle, p) =
        let (healthy, p') = call (ex.probe handle.host_port) p in
        if healthy then (some handle, p') else next handle p'

    -- Steps 3 and 4 of the ladder, from the logs on; the first argument is `repull_image`.
    unfoldable pub repull_from :
        Option (W → Result (Unit {0}) × W)
        → SessionHandle
        → String × Place W
        → Option SessionHandle × Place W
    unfolding restart rung_from give_up
    repull_from none handle (logs, p) = give_up handle logs p
    repull_from (some repull) handle (logs, p) =
        rung_from repull_failed (λ handle'. give_up handle' logs) (restart handle repull p)

    -- Step 3 of the ladder, and what follows.
    unfoldable pub repull_step : String → SessionHandle → Place W → Option SessionHandle × Place W
    unfolding capture_logs repull_from
    repull_step last_logs handle p =
        repull_from ex.repull_image handle (capture_logs handle last_logs p)

    -- Step 2 of the ladder, and what follows.
    unfoldable pub restart_step : SessionHandle → String × Place W → Option SessionHandle × Place W
    unfolding restart rung_from repull_step
    restart_step handle (logs, p) =
        rung_from restart_failed (repull_step logs) (restart handle (λ w. (ok tt, w)) p)

    -- The ladder from the three probes on.
    unfoldable pub heal_from : SessionHandle → Bool × Place W → Option SessionHandle × Place W
    unfolding capture_logs restart_step
    heal_from handle (true, p) = (some handle, p)
    heal_from handle (false, p) = restart_step handle (capture_logs handle "" p)

    -- `_verify_and_heal_session`
    unfoldable pub verify_and_heal_session :
        SessionHandle → Place W → Option SessionHandle × Place W
    unfolding probe_loop heal_from
    verify_and_heal_session handle p = heal_from handle (probe_loop 3 handle.host_port p)
