-- ===== src/Session/Ending.antt =====
-- Every session is reported as ended exactly once, or goes on.
use computecloud_node.Prelude.{
  ℕ, String, ◌≡◌, refl, ◌∙◌, ap, Bool, true, false, Option, none, some, List, [], ◌∷◌, ◌++◌, arith,
  if◌then◌else◌, ◌&&◌, ◌||◌,
}
use computecloud_node.Prelude.Equality.{contains, ◌≟◌, string_eq, contains-without, contains-append}
use computecloud_node.Python.{Result, ok, raise}
use computecloud_node.Session.{
  SessionHandle, has_container, Reason, ready_failed, init_failed, start_failed, exited, by_renter,
  alarmed, Workbench, Place, report_session_terminated, deactivate, activate,
  verify_and_heal_session,
}
use computecloud_node.Security.{init}
use computecloud_node.Session.Healing.{Healed, healthy, failed, verify_and_heal_session-Healed}
use computecloud_node.Session.Running.{
  Tick, LoopEnd, open_end, left_loop, found_dead, raised_alarm, finish, served, verified_session,
  checked, started_session, run_session_container, session_loop,
}

-- The other sessions are active as before.
abbrev pub OthersKept : String → List String → List String → Type 0
OthersKept session_id before after =
    (j : String) → (j ≟ session_id) ≡ false → contains j after ≡ contains j before

module _ {W : Type 0} (session_id : String) where
  -- What is left of a session: it goes on, and is active; or it has ended with one report, and is
  -- active no more; or the report that it is ready has failed, and it has ended with one report, and
  -- is active still.
  pub data Outcome (p : Place W) (p' : Place W) : Type 0 where
    goes_on : p'.reports ≡ p.reports → contains session_id p'.active ≡ true → Outcome p p'
    ended :
        (reason : Reason)
        → p'.reports ≡ p.reports ++ (session_id, reason) ∷ []
        → contains session_id p'.active ≡ false
        → Outcome p p'
    not_ready :
        p'.reports ≡ p.reports ++ (session_id, ready_failed) ∷ []
        → contains session_id p'.active ≡ true
        → Outcome p p'

  pub record Ends (p p' : Place W) : Type 0 where
    pub outcome : Outcome p p'
    pub others : OthersKept session_id p.active p'.active

  pub contains-activate :
      (j : String) (p : Place W)
      → contains j (activate session_id p).active ≡ (j ≟ session_id || contains j p.active)
  contains-activate j p = ground (arith, contains-append j p.active (session_id ∷ []))

  -- What is left does not depend on the world at the start.
  Outcome-moved :
      (p : Place W) (w : W) (p' : Place W) → Outcome (record p { world = w }) p' → Outcome p p'
  Outcome-moved p w p' (goes_on reports active) = goes_on reports active
  Outcome-moved p w p' (ended reason reports active) = ended reason reports active
  Outcome-moved p w p' (not_ready reports active) = not_ready reports active

  module _ (lower : List ℕ → List ℕ) (parse_float : List ℕ → Option ℕ) (ex : Workbench W) where
    -- What holds of a place where the session is active and nothing is reported yet.
    record IsServing (p q : Place W) : Type 0 where
      active : contains session_id q.active ≡ true
      reports : q.reports ≡ p.reports
      others : OthersKept session_id p.active q.active

    closed :
        (reason : Reason) (p q : Place W)
        → IsServing p q
        → Ends p (deactivate session_id (report_session_terminated session_id reason q))
    closed reason p q s = record {
      outcome =
          ended reason
            (ap (λ (r : List (String × Reason)). r ++ (session_id, reason) ∷ []) s.reports)
            (ground (arith, contains-without session_id session_id q.active));
      others = λ j h. contains-without j session_id q.active ∙ ground (arith, s.others j h, h);
    }

    finish-Ends :
        (handle : SessionHandle) (ending : LoopEnd) (p q : Place W)
        → IsServing p q
        → Ends p (finish lower parse_float ex session_id handle ending q)
    unfolding finish
    finish-Ends handle open_end p q s = record {
      outcome = goes_on s.reports s.active;
      others = s.others;
    }
    finish-Ends handle left_loop p q s =
        closed by_renter p _ (record { active = s.active; reports = s.reports; others = s.others })
    finish-Ends handle found_dead p q s = closed exited p q s
    finish-Ends handle (raised_alarm a) p q s =
        closed (alarmed a.alert_type) p _
          (record { active = s.active; reports = s.reports; others = s.others })

    served-Ends :
        (ticks : List Tick) (handle : SessionHandle) (ready : Bool) (p q : Place W)
        → IsServing p q
        → Ends p (served lower parse_float ex session_id ticks handle (ready, q))
    unfolding served
    served-Ends ticks handle true p q s =
        let looped =
          session_loop lower parse_float (handle.is_docker && has_container handle.container_id)
            (init 4636385447633747968 10) q.alerts ticks in
        finish-Ends handle looped.0 p (record q { alerts = looped.1 })
          (record { active = s.active; reports = s.reports; others = s.others })
    served-Ends ticks handle false p q s = record {
      outcome =
          not_ready
            (ap (λ (r : List (String × Reason)). r ++ (session_id, ready_failed) ∷ []) s.reports)
            s.active;
      others = s.others;
    }

    serving :
        (p q r : Place W)
        → q.reports ≡ p.reports
        → q.active ≡ p.active
        → r.reports ≡ q.reports
        → r.active ≡ (activate session_id q).active
        → IsServing p r
    serving p q r e e' f f' = record {
      active = ap (contains session_id) f' ∙ ground (arith, contains-activate session_id q);
      reports = f ∙ e;
      others =
          λ j h. ap (contains j) f' ∙ contains-activate j q ∙ ground (arith, h, ap (contains j) e');
    }

    verified_session-Ends :
        (ticks : List Tick) (handle : SessionHandle) (p q : Place W)
        → q.reports ≡ p.reports
        → q.active ≡ p.active
        → Ends p (verified_session lower parse_float ex session_id ticks (some handle, q))
    unfolding verified_session
    verified_session-Ends ticks handle p q e f =
        served-Ends ticks handle _ p _ (serving p q _ e f refl refl)

    verified_session-Ends_after :
        (ticks : List Tick) (p : Place W) {handle : Option SessionHandle} {q : Place W}
        → contains session_id p.active ≡ false
        → Healed ex session_id p handle q
        → Ends p (verified_session lower parse_float ex session_id ticks (handle, q))
    unfolding verified_session
    verified_session-Ends_after ticks p idle (healthy handle w q good there same) =
        verified_session-Ends ticks handle p q same.reports same.active
    verified_session-Ends_after ticks p idle (failed reason q fails reports alerts active) =
        record {
          outcome = ended reason reports (ap (contains session_id) active ∙ idle);
          others = λ j h. ap (contains j) active;
        }

    checked_session-Ends :
        (ticks : List Tick) (handle : SessionHandle) (docker : Bool) (p : Place W)
        → contains session_id p.active ≡ false
        → Ends p (
            verified_session lower parse_float ex session_id ticks
              (if docker then verify_and_heal_session ex session_id handle p else (some handle, p)))
    checked_session-Ends ticks handle true p idle =
        verified_session-Ends_after ticks p idle
          (verify_and_heal_session-Healed ex session_id handle p)
    checked_session-Ends ticks handle false p idle =
        verified_session-Ends ticks handle p p refl refl

    started_session-Ends :
        (ticks : List Tick) (started : Result SessionHandle) (p : Place W)
        → contains session_id p.active ≡ false
        → Ends p (started_session lower parse_float ex session_id ticks (started, p))
    unfolding started_session checked
    started_session-Ends ticks (raise exc) p idle = record {
      outcome = ended start_failed refl idle;
      others = λ j h. refl;
    }
    started_session-Ends ticks (ok handle) p idle =
        checked_session-Ends ticks handle handle.is_docker p idle

  -- A session that is not active when it starts, whatever its executor and the server answer and
  -- however long it runs: it goes on and is active, with nothing reported; or exactly one
  -- termination is reported, of this session, and it is active no more; or exactly one is reported,
  -- that its readiness could not be reported, and it is active still. The other sessions stay as
  -- they are.
  pub run_session_container-Ends :
      (lower : List ℕ → List ℕ) (parse_float : List ℕ → Option ℕ) (ex : Option (Workbench W))
      (ticks : List Tick) (p : Place W)
      → contains session_id p.active ≡ false
      → Ends p (run_session_container lower parse_float ex session_id ticks p)
  unfolding run_session_container
  run_session_container-Ends lower parse_float none ticks p idle = record {
    outcome = ended init_failed refl idle;
    others = λ j h. refl;
  }
  run_session_container-Ends lower parse_float (some ex) ticks p idle =
      let start =
        started_session-Ends lower parse_float ex ticks (ex.start_session p.world).0
          (record p { world = (ex.start_session p.world).1 }) idle in
      record { outcome = Outcome-moved p _ _ start.outcome; others = start.others }
