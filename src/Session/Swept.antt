-- ===== src/Session/Swept.antt =====
-- The containers that a whole run of `_run_session_container` leaves.
use computecloud_node.Prelude.{
  ℕ, String, ◌≡◌, refl, ap, ◌∙◌, Bool, true, false, Option, some, List, [], ◌∷◌, ◌++◌,
  if◌then◌else◌, ◌&&◌,
}
use computecloud_node.Python.{Result, ok, raise}
use computecloud_node.Security.{init}
use computecloud_node.Session.{
  SessionHandle, has_container, Reason, Workbench, Place, exited, verify_and_heal_session,
}
use computecloud_node.Session.Healing.{Healed, healthy, failed, verify_and_heal_session-Healed}
use computecloud_node.Session.Running.{
  Tick, LoopEnd, open_end, left_loop, found_dead, raised_alarm, finish, served, verified_session,
  started_session, checked, run_session_container, session_loop,
}
use computecloud_node.Session.Removal.{
  held, held_by, started_of, Removes, verify_and_heal_session-Holds,
}

-- What is left of the containers of a session: none; or that of a session that goes on, with nothing
-- reported; or that of a session that was found dead, with that as the only report.
pub data Swept {W : Type 0} (live : W → List String) (session_id : String) (p p' : Place W)
    : Type 0 where
  removed : live p'.world ≡ [] → Swept live session_id p p'
  goes_on :
      (handle : SessionHandle)
      → live p'.world ≡ held handle.container_id
      → p'.reports ≡ p.reports
      → Swept live session_id p p'
  died :
      (handle : SessionHandle)
      → live p'.world ≡ held handle.container_id
      → p'.reports ≡ p.reports ++ (session_id, exited) ∷ []
      → Swept live session_id p p'

module _ (lower : List ℕ → List ℕ) (parse_float : List ℕ → Option ℕ) {W : Type 0} (ex : Workbench W)
    (live : W → List String) (laws : Removes ex live) (session_id : String) where
  finish-Swept :
      (handle : SessionHandle) (ending : LoopEnd) (p q : Place W)
      → live q.world ≡ held handle.container_id
      → q.reports ≡ p.reports
      → Swept live session_id p (finish lower parse_float ex session_id handle ending q)
  unfolding finish
  finish-Swept handle open_end p q up same = goes_on handle up same
  finish-Swept handle left_loop p q up same = removed (laws.stop handle q.world up)
  finish-Swept handle found_dead p q up same =
      died handle up (ap (λ (r : List (String × Reason)). r ++ (session_id, exited) ∷ []) same)
  finish-Swept handle (raised_alarm a) p q up same = removed (laws.stop handle q.world up)

  served-Swept :
      (ticks : List Tick) (handle : SessionHandle) (ready : Bool) (p q : Place W)
      → live q.world ≡ held handle.container_id
      → q.reports ≡ p.reports
      → Swept live session_id p (served lower parse_float ex session_id ticks handle (ready, q))
  unfolding served
  served-Swept ticks handle false p q up same = removed (laws.stop handle q.world up)
  served-Swept ticks handle true p q up same =
      let looped =
        session_loop lower parse_float (handle.is_docker && has_container handle.container_id)
          (init 4636385447633747968 10) q.alerts ticks in
      finish-Swept handle looped.0 p (record q { alerts = looped.1 }) up same

  verified_session-Swept :
      (ticks : List Tick) (handle : SessionHandle) (p q : Place W)
      → live q.world ≡ held handle.container_id
      → q.reports ≡ p.reports
      → Swept live session_id p
          (verified_session lower parse_float ex session_id ticks (some handle, q))
  unfolding verified_session
  verified_session-Swept ticks handle p q up same =
      served-Swept ticks handle _ p _ (laws.post_ready handle q.world ∙ up) same

  healed_session-Swept :
      (ticks : List Tick) (p : Place W) {found : Option SessionHandle} {q : Place W}
      → Healed ex session_id p found q
      → live q.world ≡ held_by found
      → Swept live session_id p (verified_session lower parse_float ex session_id ticks (found, q))
  unfolding verified_session
  healed_session-Swept ticks p (healthy handle w q good there same) up =
      verified_session-Swept ticks handle p q up same.reports
  healed_session-Swept ticks p (failed reason q fails reports alerts active) up = removed up

  checked_session-Swept :
      (ticks : List Tick) (handle : SessionHandle) (docker : Bool) (p : Place W)
      → live p.world ≡ held handle.container_id
      → Swept live session_id p (
          verified_session lower parse_float ex session_id ticks
            (if docker then verify_and_heal_session ex session_id handle p else (some handle, p)))
  checked_session-Swept ticks handle true p up =
      healed_session-Swept ticks p (verify_and_heal_session-Healed ex session_id handle p)
        (verify_and_heal_session-Holds ex live laws session_id handle p up)
  checked_session-Swept ticks handle false p up = verified_session-Swept ticks handle p p up refl

  started_session-Swept :
      (ticks : List Tick) (started : Result SessionHandle) (p : Place W)
      → live p.world ≡ held_by (started_of started)
      → Swept live session_id p (started_session lower parse_float ex session_id ticks (started, p))
  unfolding started_session checked
  started_session-Swept ticks (raise exc) p up = removed up
  started_session-Swept ticks (ok handle) p up =
      checked_session-Swept ticks handle handle.is_docker p up

  Swept-moved :
      (p : Place W) (w : W) (p' : Place W)
      → Swept live session_id (record p { world = w }) p'
      → Swept live session_id p p'
  Swept-moved p w p' (removed gone) = removed gone
  Swept-moved p w p' (goes_on handle up same) = goes_on handle up same
  Swept-moved p w p' (died handle up same) = died handle up same

  -- With an executor that keeps the laws, and no container before, `_run_session_container` leaves no
  -- container, unless the session goes on, or was found dead by its main loop.
  pub run_session_container-Swept :
      (ticks : List Tick) (p : Place W)
      → live p.world ≡ []
      → Swept live session_id p
          (run_session_container lower parse_float (some ex) session_id ticks p)
  unfolding run_session_container
  run_session_container-Swept ticks p none_up =
      let started = ex.start_session p.world in
      Swept-moved p started.1 _ (
        started_session-Swept ticks started.0 (record p { world = started.1 })
          (laws.start p.world none_up))
