-- ===== src/Session/Healing.antt =====
-- The self-heal ladder ends with a service that answered, or with one report.
use computecloud_node.Prelude.{
  ℕ, zero, suc, String, ◌≡◌, refl, ap, ◌∙◌, Bool, true, false, Option, none, some, List, [], ◌∷◌,
  ◌++◌, Bool-cases, inl, inr, arith,
}
use computecloud_node.Python.{Result, ok, raise}
use computecloud_node.Session.{
  SessionHandle, Reason, Workbench, Place, capture_logs, probe_loop, restart, give_up, rung_from,
  repull_from, repull_step, restart_step, heal_from, verify_and_heal_session,
  report_session_terminated, exhausted, repull_failed, restart_failed,
}

-- Nothing but the world differs.
pub record Same {W : Type 0} (p p' : Place W) : Type 0 where
  pub reports : p'.reports ≡ p.reports
  pub alerts : p'.alerts ≡ p.alerts
  pub active : p'.active ≡ p.active

-- The failures of the ladder: a restart that raises, a pull with its restart that raises, or no rung left.
abbrev pub is_failure : Reason → Bool
is_failure restart_failed = true
is_failure repull_failed = true
is_failure (exhausted logs) = true
is_failure _ = false

module _ {W : Type 0} (ex : Workbench W) (session_id : String) where
  -- The ladder has ended: with a handle whose port has just answered a probe, and nothing reported,
  -- or with no handle and one more report, of a failure of this session.
  pub data Healed (p : Place W) : Option SessionHandle → Place W → Type 0 where
    healthy :
        (handle : SessionHandle) (w : W) (p' : Place W)
        → (ex.probe handle.host_port w).0 ≡ true
        → (ex.probe handle.host_port w).1 ≡ p'.world
        → Same p p'
        → Healed p (some handle) p'
    failed :
        (reason : Reason) (p' : Place W)
        → is_failure reason ≡ true
        → p'.reports ≡ p.reports ++ (session_id, reason) ∷ []
        → p'.alerts ≡ p.alerts
        → p'.active ≡ p.active
        → Healed p none p'

  Same-trans : (p q r : Place W) → Same p q → Same q r → Same p r
  Same-trans p q r a b = record {
    reports = b.reports ∙ a.reports;
    alerts = b.alerts ∙ a.alerts;
    active = b.active ∙ a.active;
  }

  reported :
      (reason : Reason) (p q : Place W)
      → is_failure reason ≡ true
      → Same p q
      → Healed p none (report_session_terminated session_id reason q)
  reported reason p q fails same =
      failed reason _ fails
        (ap (λ (r : List (String × Reason)). r ++ (session_id, reason) ∷ []) same.reports)
        same.alerts same.active

  capture_logs-Same :
      (handle : SessionHandle) (logs : String) (p : Place W)
      → Same p (capture_logs ex handle logs p).1
  unfolding capture_logs
  capture_logs-Same handle logs p = record {
    reports = ground arith;
    alerts = ground arith;
    active = ground arith;
  }

  restart-Same :
      (handle : SessionHandle) (between : W → Result (Unit {0}) × W) (p : Place W)
      → Same p (restart ex handle between p).1
  unfolding restart
  restart-Same handle between p = record {
    reports = ground arith;
    alerts = ground arith;
    active = ground arith;
  }

  give_up-Healed :
      (handle : SessionHandle) (logs : String) (p q : Place W)
      → Same p q
      → Healed p (give_up ex session_id handle logs q).0 (give_up ex session_id handle logs q).1
  unfolding give_up
  give_up-Healed handle logs p q same =
      let captured = capture_logs-Same handle logs q in
      reported (exhausted (capture_logs ex handle logs q).0) p _ refl (record {
        reports = captured.reports ∙ same.reports;
        alerts = captured.alerts ∙ same.alerts;
        active = captured.active ∙ same.active;
      })

  rung_from-Healed :
      (p : Place W) (reason : Reason) (fails : is_failure reason ≡ true)
      (step : SessionHandle → Place W → Option SessionHandle × Place W)
      → ((handle : SessionHandle) (r : Place W)
          → Same p r
          → Healed p (step handle r).0 (step handle r).1)
      → (started : Result SessionHandle) (q : Place W) → Same p q
      → Healed p
          (rung_from ex session_id reason step (started, q)).0
          (rung_from ex session_id reason step (started, q)).1
  unfolding rung_from
  rung_from-Healed p reason fails step steps (raise exc) q same = reported reason p q fails same
  rung_from-Healed p reason fails step steps (ok handle) q same =
      let after : Same p (record q { world = (ex.probe handle.host_port q.world).1 }) = record {
        reports = same.reports;
        alerts = same.alerts;
        active = same.active;
      } in
      elim (Bool-cases (ex.probe handle.host_port q.world).0) [
        | inl good ↦ rw good (healthy handle q.world _ good refl after)
        | inr bad ↦ rw bad (steps handle _ after)
      ]

  repull_from-Healed :
      (repull : Option (W → Result (Unit {0}) × W)) (handle : SessionHandle) (logs : String)
      (p q : Place W)
      → Same p q
      → Healed p
          (repull_from ex session_id repull handle (logs, q)).0
          (repull_from ex session_id repull handle (logs, q)).1
  unfolding repull_from
  repull_from-Healed none handle logs p q same = give_up-Healed handle logs p q same
  repull_from-Healed (some repull) handle logs p q same =
      rung_from-Healed p repull_failed refl _
        (λ handle' r same'. give_up-Healed handle' logs p r same') _ _
        (Same-trans p q _ same (restart-Same handle repull q))

  repull_step-Healed :
      (logs : String) (handle : SessionHandle) (p q : Place W)
      → Same p q
      → Healed p
          (repull_step ex session_id logs handle q).0
          (repull_step ex session_id logs handle q).1
  unfolding repull_step
  repull_step-Healed logs handle p q same =
      repull_from-Healed ex.repull_image handle _ p _
        (Same-trans p q _ same (capture_logs-Same handle logs q))

  restart_step-Healed :
      (handle : SessionHandle) (logs : String) (p q : Place W)
      → Same p q
      → Healed p
          (restart_step ex session_id handle (logs, q)).0
          (restart_step ex session_id handle (logs, q)).1
  unfolding restart_step
  restart_step-Healed handle logs p q same =
      rung_from-Healed p restart_failed refl _
        (λ handle' r same'. repull_step-Healed logs handle' p r same') _ _
        (Same-trans p q _ same (restart-Same handle (λ w. (ok tt, w)) q))

  -- A probe loop that succeeds has just seen its port answer.
  pub data Probed (port : ℕ) (p : Place W) : Bool → Place W → Type 0 where
    answered :
        (w : W) (p' : Place W)
        → (ex.probe port w).0 ≡ true
        → (ex.probe port w).1 ≡ p'.world
        → Same p p'
        → Probed port p true p'
    silent : (p' : Place W) → Same p p' → Probed port p false p'

  probe_loop-Probed :
      (attempts port : ℕ) (p q : Place W)
      → Same p q
      → Probed port p (probe_loop ex attempts port q).0 (probe_loop ex attempts port q).1
  unfolding probe_loop
  probe_loop-Probed zero port p q same = silent q same
  probe_loop-Probed (suc attempts) port p q same = elim (Bool-cases (ex.probe port q.world).0) [
    | inl good ↦
        rw (good, probe_loop)
          (answered q.world _ good refl
            (record { reports = same.reports; alerts = same.alerts; active = same.active }))
    | inr bad ↦
        rw (bad, probe_loop)
          (probe_loop-Probed attempts port p
            (record q { world = ex.pause (ex.probe port q.world).1 })
            (record { reports = same.reports; alerts = same.alerts; active = same.active }))
  ]

  heal_from-Healed :
      (handle : SessionHandle) (p : Place W) {found : Bool} {q : Place W}
      → Probed handle.host_port p found q
      → Healed p
          (heal_from ex session_id handle (found, q)).0
          (heal_from ex session_id handle (found, q)).1
  unfolding heal_from
  heal_from-Healed handle p (answered w q good there same) = healthy handle w q good there same
  heal_from-Healed handle p (silent q same) =
      restart_step-Healed handle _ p _ (Same-trans p q _ same (capture_logs-Same handle "" q))

  -- `_verify_and_heal_session` either gives back a handle whose port has just answered a probe, and
  -- has reported nothing, or gives back none and has reported exactly one failure of this session: that
  -- a restart or a pull of the image has failed, or that no rung is left.
  -- In both cases the active sessions and the alerts are as before.
  pub verify_and_heal_session-Healed :
      (handle : SessionHandle) (p : Place W)
      → Healed p
          (verify_and_heal_session ex session_id handle p).0
          (verify_and_heal_session ex session_id handle p).1
  unfolding verify_and_heal_session
  verify_and_heal_session-Healed handle p = heal_from-Healed handle p (
      probe_loop-Probed 3 handle.host_port p p
        (record { reports = refl; alerts = refl; active = refl }))
