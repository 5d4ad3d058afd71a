-- ===== src/Session/Removal.antt =====
-- What becomes of the containers of a session, for an executor that keeps the laws of `Removes`.
use computecloud_node.Prelude.{
  ℕ, zero, suc, String, ◌≡◌, refl, subst, ◌∙◌, Bool, true, false, Option, none, some, List, [],
  Bool-cases, inl, inr, arith,
}
use computecloud_node.Python.{Result, ok, raise}
use computecloud_node.Workbench.Kept.{named}
use computecloud_node.Session.{
  SessionHandle, Reason, Workbench, Place, capture_logs, probe_loop, restart, give_up, rung_from,
  repull_from, repull_step, restart_step, heal_from, verify_and_heal_session, repull_failed,
  restart_failed,
}

-- The containers of a session.
abbrev pub held : Option String → List String
held none = []
held (some container_id) = named container_id

abbrev pub held_by : Option SessionHandle → List String
held_by none = []
held_by (some handle) = held handle.container_id

abbrev pub started_of : Result SessionHandle → Option SessionHandle
started_of (raise exc) = none
started_of (ok handle) = some handle

module _ {W : Type 0} (live : W → List String) where
  abbrev pub RepullKeeps : Option (W → Result (Unit {0}) × W) → Type 0
  RepullKeeps none = Unit
  RepullKeeps (some repull) = (w : W) → live (repull w).1 ≡ live w

  abbrev pub LogsKeep : Option (SessionHandle → W → Result String × W) → Type 0
  LogsKeep none = Unit
  LogsKeep (some logs) = (handle : SessionHandle) (w : W) → live (logs handle w).1 ≡ live w

-- What an executor of sessions promises of the containers of the world, for one session: a start
-- leaves the container of the session that it hands back, or none if it raises; a stop removes it; and
-- nothing else changes what there is.
pub record Removes {W : Type 0} (ex : Workbench W) (live : W → List String) : Type 0 where
  pub start :
      (w : W)
      → live w ≡ []
      → live (ex.start_session w).1 ≡ held_by (started_of (ex.start_session w).0)
  pub stop :
      (handle : SessionHandle) (w : W)
      → live w ≡ held handle.container_id
      → live (ex.stop_session handle w).1 ≡ []
  pub repull : RepullKeeps live ex.repull_image
  pub logs : LogsKeep live ex.container_logs
  pub probe : (port : ℕ) (w : W) → live (ex.probe port w).1 ≡ live w
  pub pause : (w : W) → live (ex.pause w) ≡ live w
  pub post_ready : (handle : SessionHandle) (w : W) → live (ex.post_ready handle w).1 ≡ live w

module _ {W : Type 0} (ex : Workbench W) (live : W → List String) (laws : Removes ex live) where
  -- The containers are those of the handle.
  abbrev Holds : Option SessionHandle × Place W → Type 0
  Holds q = live q.1.world ≡ held_by q.0

  live-capture_logs :
      (handle : SessionHandle) (logs : String) (p : Place W)
      → live (capture_logs ex handle logs p).1.world ≡ live p.world
  unfolding capture_logs
  live-capture_logs handle logs p = go ex.container_logs refl
    where
      go :
          (reads : Option (SessionHandle → W → Result String × W))
          → ex.container_logs ≡ reads
          → live (capture_logs ex handle logs p).1.world ≡ live p.world
      go none e = rw (e, capture_logs) refl
      go (some reads) e =
          let keeps : LogsKeep live (some reads) = subst (LogsKeep live) e laws.logs in
          ground (arith, keeps handle p.world, e)

  live-probe_loop :
      (attempts port : ℕ) (p : Place W)
      → live (probe_loop ex attempts port p).1.world ≡ live p.world
  unfolding probe_loop
  live-probe_loop zero port p = refl
  live-probe_loop (suc attempts) port p =
      let w = (ex.probe port p.world).1 in
      ground (
        arith,
        laws.probe port p.world,
        laws.pause w,
        live-probe_loop attempts port (record p { world = ex.pause w }),
      )

  restart-Holds :
      (handle : SessionHandle) (between : W → Result (Unit {0}) × W) (p : Place W)
      → ((w : W) → live (between w).1 ≡ live w)
      → live p.world ≡ held handle.container_id
      → live (restart ex handle between p).1.world
        ≡ held_by (started_of (restart ex handle between p).0)
  unfolding restart
  restart-Holds handle between p kept up =
      let w = (ex.stop_session handle p.world).1 in
      let w' = (between w).1 in ground (arith, laws.stop handle p.world up, kept w, laws.start w')

  module _ (session_id : String) where
    give_up-Holds :
        (handle : SessionHandle) (logs : String) (p : Place W)
        → live p.world ≡ held handle.container_id
        → Holds (give_up ex session_id handle logs p)
    unfolding give_up
    give_up-Holds handle logs p up =
        laws.stop handle (capture_logs ex handle logs p).1.world
          (live-capture_logs handle logs p ∙ up)

    rung_from-Holds :
        (reason : Reason) (step : SessionHandle → Place W → Option SessionHandle × Place W)
        → ((handle : SessionHandle) (r : Place W)
            → live r.world ≡ held handle.container_id
            → Holds (step handle r))
        → (started : Result SessionHandle) (q : Place W)
        → live q.world ≡ held_by (started_of started)
        → Holds (rung_from ex session_id reason step (started, q))
    unfolding rung_from
    rung_from-Holds reason step steps (raise exc) q up = up
    rung_from-Holds reason step steps (ok handle) q up =
        let up' = laws.probe handle.host_port q.world ∙ up in
        elim (Bool-cases (ex.probe handle.host_port q.world).0) [
          | inl good ↦ rw good up'
          | inr bad ↦ rw bad (steps handle _ up')
        ]

    repull_from-Holds :
        (repull : Option (W → Result (Unit {0}) × W)) (handle : SessionHandle) (logs : String)
        (p : Place W)
        → RepullKeeps live repull
        → live p.world ≡ held handle.container_id
        → Holds (repull_from ex session_id repull handle (logs, p))
    unfolding repull_from
    repull_from-Holds none handle logs p kept up = give_up-Holds handle logs p up
    repull_from-Holds (some repull) handle logs p kept up =
        let restarted = restart ex handle repull p in
        rung_from-Holds repull_failed (λ handle'. give_up ex session_id handle' logs)
          (λ handle' r up'. give_up-Holds handle' logs r up') restarted.0 restarted.1
          (restart-Holds handle repull p kept up)

    repull_step-Holds :
        (logs : String) (handle : SessionHandle) (p : Place W)
        → live p.world ≡ held handle.container_id
        → Holds (repull_step ex session_id logs handle p)
    unfolding repull_step
    repull_step-Holds logs handle p up =
        let captured = capture_logs ex handle logs p in
        repull_from-Holds ex.repull_image handle captured.0 captured.1 laws.repull
          (live-capture_logs handle logs p ∙ up)

    heal_from-Holds :
        (handle : SessionHandle) (found : Bool) (p : Place W)
        → live p.world ≡ held handle.container_id
        → Holds (heal_from ex session_id handle (found, p))
    unfolding heal_from restart_step
    heal_from-Holds handle true p up = up
    heal_from-Holds handle false p up =
        let captured = capture_logs ex handle "" p in
        let restarted = restart ex handle (λ w. (ok tt, w)) captured.1 in
        rung_from-Holds restart_failed (repull_step ex session_id captured.0)
          (repull_step-Holds captured.0) restarted.0 restarted.1
          (restart-Holds handle (λ w. (ok tt, w)) captured.1 (λ w. refl)
            (live-capture_logs handle "" p ∙ up))

    -- After the ladder there is the container of the handle that it gives back, or none.
    pub verify_and_heal_session-Holds :
        (handle : SessionHandle) (p : Place W)
        → live p.world ≡ held handle.container_id
        → Holds (verify_and_heal_session ex session_id handle p)
    unfolding verify_and_heal_session
    verify_and_heal_session-Holds handle p up =
        let probed = probe_loop ex 3 handle.host_port p in
        heal_from-Holds handle probed.0 probed.1 (live-probe_loop 3 handle.host_port p ∙ up)
