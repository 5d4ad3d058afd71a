-- ===== src/Session/Alarms.antt =====
-- The alerts of a session's main loop, and the sessions whose readiness is not reported.
use computecloud_node.Prelude.{
  ℕ, String, ◌≡◌, refl, sym, ◌∙◌, ap, Bool, true, false, Option, none, some, List, [], ◌∷◌, ◌++◌,
  append_assoc, append-nil, Bool-cases, inl, inr, arith, ◌||◌,
}
use computecloud_node.Prelude.Equality.{contains, string_eq}
use computecloud_node.Python.{Result, ok, obj, str, Fields}
use computecloud_node.Python.Dict.{get_or}
use computecloud_node.Security.{
  SecurityAlert, SecurityMonitor, Severity, critical, warning, Observation, scan_container,
}
use computecloud_node.Exchange.{Response}
use computecloud_node.Node.{json_of}
use computecloud_node.Session.{SessionHandle, Workbench, Place, activate}
use computecloud_node.Session.Ending.{contains-activate}
use computecloud_node.Session.Running.{
  Tick, LoopEnd, open_end, left_loop, found_dead, raised_alarm, session_loop, session_round,
  after_scan, is_critical, scan_once, asked_to_end, started_session, served, verified_session,
  checked, run_session_container, pulled_session, session_poll_once,
}

is_critical-critical : (severity : Severity) → is_critical severity ≡ true → severity ≡ critical
is_critical-critical critical e = refl
is_critical-critical warning e = absurd (cc)

is_critical-warning : (severity : Severity) → is_critical severity ≡ false → severity ≡ warning
is_critical-warning critical e = absurd (cc)
is_critical-warning warning e = refl

-- The rounds of the main loop, with how it ends and what its scans have raised. A round with a scan that
-- is due, of a session that is monitored, scans the container with the monitor as the scan before left it.
module _ (lower : List ℕ → List ℕ) (parse_float : List ℕ → Option ℕ) (monitored : Bool) where
  abbrev pub is_due : Option Observation → Bool
  is_due none = false
  is_due (some seen) = monitored

  -- The session goes on past its heartbeat, and is alive.
  pub record IsRunning (tick : Tick) : Type 0 where
    pub stays : (tick.stopped || asked_to_end tick.should_terminate) ≡ false
    pub alive : tick.alive ≡ true

  pub data Watched : SecurityMonitor → List Tick → LoopEnd → List SecurityAlert → Type 0 where
    over : (m : SecurityMonitor) → Watched m [] open_end []
    leaves :
        (m : SecurityMonitor) (tick : Tick) (ticks : List Tick)
        → (tick.stopped || asked_to_end tick.should_terminate) ≡ true
        → Watched m (tick ∷ ticks) left_loop []
    dies :
        (m : SecurityMonitor) (tick : Tick) (ticks : List Tick)
        → (tick.stopped || asked_to_end tick.should_terminate) ≡ false
        → tick.alive ≡ false
        → Watched m (tick ∷ ticks) found_dead []
    unscanned :
        (m : SecurityMonitor) (tick : Tick) (ticks : List Tick) (ending : LoopEnd)
        (raised : List SecurityAlert)
        → IsRunning tick
        → is_due tick.scan ≡ false
        → Watched m ticks ending raised
        → Watched m (tick ∷ ticks) ending raised
    clean :
        (m m' : SecurityMonitor) (tick : Tick) (ticks : List Tick) (ending : LoopEnd)
        (raised : List SecurityAlert) (seen : Observation)
        → IsRunning tick
        → monitored ≡ true
        → tick.scan ≡ some seen
        → scan_container lower parse_float seen m ≡ (none, m')
        → Watched m' ticks ending raised
        → Watched m (tick ∷ ticks) ending raised
    warned :
        (m m' : SecurityMonitor) (tick : Tick) (ticks : List Tick) (ending : LoopEnd)
        (raised : List SecurityAlert) (seen : Observation) (a : SecurityAlert)
        → IsRunning tick
        → monitored ≡ true
        → tick.scan ≡ some seen
        → scan_container lower parse_float seen m ≡ (some a, m')
        → a.severity ≡ warning
        → Watched m' ticks ending raised
        → Watched m (tick ∷ ticks) ending (a ∷ raised)
    alarmed :
        (m m' : SecurityMonitor) (tick : Tick) (ticks : List Tick) (seen : Observation)
        (a : SecurityAlert)
        → IsRunning tick
        → monitored ≡ true
        → tick.scan ≡ some seen
        → scan_container lower parse_float seen m ≡ (some a, m')
        → a.severity ≡ critical
        → Watched m (tick ∷ ticks) (raised_alarm a) (a ∷ [])

  -- How the loop has ended, and the alerts that it has reported beside those before it.
  pub record Reported (m : SecurityMonitor) (ticks : List Tick) (before : List SecurityAlert)
      (ending : LoopEnd) (alerts : List SecurityAlert) : Type 0 where
    pub raised : List SecurityAlert
    pub reported : alerts ≡ before ++ raised
    pub watched : Watched m ticks ending raised

  module _ (m : SecurityMonitor) (tick : Tick) (ticks : List Tick) (before : List SecurityAlert)
      (runs : IsRunning tick) where
    abbrev After : LoopEnd × List SecurityAlert → Type 0
    After p = Reported m (tick ∷ ticks) before p.0 p.1

    after_scan-Reported :
        (m' : SecurityMonitor) (seen : Observation) (alert : Option SecurityAlert)
        (go : List SecurityAlert → LoopEnd × List SecurityAlert)
        → monitored ≡ true
        → tick.scan ≡ some seen
        → scan_container lower parse_float seen m ≡ (alert, m')
        → ((alerts : List SecurityAlert) → Reported m' ticks alerts (go alerts).0 (go alerts).1)
        → After (after_scan before alert go)
    unfolding after_scan
    after_scan-Reported m' seen none go due given scanned rest =
        let later = rest before in
        record {
          raised = later.raised;
          reported = later.reported;
          watched = clean m m' tick ticks _ _ seen runs due given scanned later.watched;
        }
    after_scan-Reported m' seen (some a) go due given scanned rest =
        elim (Bool-cases (is_critical a.severity)) [
          | inl bad ↦ simp bad (record {
            raised = a ∷ [];
            reported = refl;
            watched =
                alarmed m m' tick ticks seen a runs due given scanned
                  (is_critical-critical a.severity bad);
          })
          | inr mild ↦
              let later = rest (before ++ a ∷ []) in
              simp mild (record {
                raised = a ∷ later.raised;
                reported = later.reported ∙ append_assoc before (a ∷ []) later.raised;
                watched =
                    warned m m' tick ticks _ _ seen a runs due given scanned
                      (is_critical-warning a.severity mild) later.watched;
              })
        ]

    scan_once-Reported :
        (scan : Option Observation) (due : Bool)
        (go : SecurityMonitor → List SecurityAlert → LoopEnd × List SecurityAlert)
        → tick.scan ≡ scan
        → monitored ≡ due
        → ((m' : SecurityMonitor) (alerts : List SecurityAlert)
            → Reported m' ticks alerts (go m' alerts).0 (go m' alerts).1)
        → After (
            after_scan before
              (scan_once lower parse_float due scan m).0
              (go (scan_once lower parse_float due scan m).1))
    unfolding after_scan
    scan_once-Reported none due go given e rest =
        let later = rest m before in
        record {
          raised = later.raised;
          reported = later.reported;
          watched = unscanned m tick ticks _ _ runs (ap is_due given) later.watched;
        }
    scan_once-Reported (some seen) false go given e rest =
        let later = rest m before in
        record {
          raised = later.raised;
          reported = later.reported;
          watched = unscanned m tick ticks _ _ runs (ap is_due given ∙ e) later.watched;
        }
    scan_once-Reported (some seen) true go given e rest =
        let (alert, m') = scan_container lower parse_float seen m in
        after_scan-Reported m' seen alert (go m') e given refl (rest m')

  session_round-Reported :
      (m : SecurityMonitor) (tick : Tick) (ticks : List Tick) (before : List SecurityAlert)
      (go : List SecurityAlert → LoopEnd × List SecurityAlert) (alert : Option SecurityAlert)
      → (IsRunning tick
          → Reported m
              (tick ∷ ticks)
              before
              (after_scan before alert go).0
              (after_scan before alert go).1)
      → Reported m
          (tick ∷ ticks)
          before
          (session_round tick before alert go).0
          (session_round tick before alert go).1
  unfolding session_round
  session_round-Reported m tick ticks before go alert running =
      elim (Bool-cases (tick.stopped || asked_to_end tick.should_terminate)) [
        | inl gone ↦ simp gone (record {
          raised = [];
          reported = sym (append-nil before);
          watched = leaves m tick ticks gone;
        })
        | inr stays ↦ elim (Bool-cases tick.alive) [
          | inl alive ↦ simp (stays, alive) (running (record { stays = stays; alive = alive }))
          | inr dead ↦
              simp (stays, dead)
                (record {
                  raised = [];
                  reported = sym (append-nil before);
                  watched = dies m tick ticks stays dead;
                })
        ]
      ]

  -- The main loop reports exactly the alerts that its scans raise, in their order. It scans the container
  -- of a monitored session in each round that it runs with a scan due, with the monitor as the scan
  -- before left it. It goes on after a warning; it ends with a critical alert in the round whose scan
  -- raises one, which is then the last that it reports.
  pub session_loop-Alarmed :
      (ticks : List Tick) (monitor : SecurityMonitor) (alerts : List SecurityAlert)
      → Reported monitor ticks alerts
          (session_loop lower parse_float monitored monitor alerts ticks).0
          (session_loop lower parse_float monitored monitor alerts ticks).1
  unfolding session_loop
  session_loop-Alarmed [] monitor alerts = record {
    raised = [];
    reported = sym (append-nil alerts);
    watched = over monitor;
  }
  session_loop-Alarmed (tick ∷ ticks) monitor alerts =
      let (alert, monitor') = scan_once lower parse_float monitored tick.scan monitor in
      session_round-Reported monitor tick ticks alerts
        (λ alerts'. session_loop lower parse_float monitored monitor' alerts' ticks) alert
        (λ runs.
          scan_once-Reported monitor tick ticks alerts runs tick.scan monitored
            (λ m' alerts'. session_loop lower parse_float monitored m' alerts' ticks) refl refl
            (session_loop-Alarmed ticks))

-- The node does not run a session that is active.
pulled_session-active :
    (session_id : String) (body : Fields) (active : List String)
    → get_or "session_id" (str "") body ≡ str session_id
    → contains session_id active ≡ true
    → pulled_session (ok (obj body)) active ≡ ok none
unfolding pulled_session
pulled_session-active session_id body active same busy =
    rw (same, pulled_session) (ground (arith, busy))

module _ {W : Type 0} (lower : List ℕ → List ℕ) (parse_float : List ℕ → Option ℕ) (ex : Workbench W)
    (session_id : String) (ticks : List Tick) (handle : SessionHandle) where
  served_lost :
      (ready : Bool) (q : Place W)
      → ready ≡ false
      → (served lower parse_float ex session_id ticks handle (ready, q)).active ≡ q.active
  unfolding served
  served_lost true q refused = absurd (cc)
  served_lost false q refused = refl

  started_lost :
      (started : Result SessionHandle) (q : Place W)
      → started ≡ ok handle
      → handle.is_docker ≡ false
      → (ex.post_ready handle q.world).0 ≡ false
      → (started_session lower parse_float ex session_id ticks (started, q)).active
        ≡ (activate session_id q).active
  unfolding started_session checked verified_session
  started_lost started q e native refused =
      rw (e, started_session) (simp native (served_lost _ _ refused))

  -- A session whose readiness could not be reported blocks its id: the session is over, and no
  -- later poll of the node takes an assignment with that id. The executor is no Docker executor.
  pub session_poll_once-lost :
      (p : Place W) (is_success : ℕ → Bool) (answer : Option Response) (body : Fields)
      → (ex.start_session p.world).0 ≡ ok handle
      → handle.is_docker ≡ false
      → (ex.post_ready handle (ex.start_session p.world).1).0 ≡ false
      → json_of is_success answer ≡ ok (obj body)
      → get_or "session_id" (str "") body ≡ str session_id
      → session_poll_once is_success answer
          (run_session_container lower parse_float (some ex) session_id ticks p).active
        ≡ ok none
  unfolding run_session_container session_poll_once
  session_poll_once-lost p is_success answer body started native refused pulled same =
      let after =
        started_lost (ex.start_session p.world).0
          (record p { world = (ex.start_session p.world).1 }) started native refused in
      rw pulled (
        pulled_session-active session_id body _ same (
          ap (contains session_id) after
          ∙ ground (arith, contains-activate session_id session_id p)))
