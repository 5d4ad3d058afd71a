-- ===== src/Session/Docker.antt =====
-- `DockerWorkbenchExecutor` of src/computecloud_node/workbench_executor.py as the executor of
-- `_run_session_container` in src/computecloud_node/node.py. The connection of a probe and the report of
-- readiness are parameters.
mod Tests
use computecloud_node.Prelude.{
  ℕ, String, ◌≡◌, refl, ◌∙◌, Bool, true, false, Option, none, some, List, [], ◌∷◌, str_eq,
  Bool-cases, inl, inr,
}
use computecloud_node.Python.{Result, ok, raise, other_error, Value, str, Fields}
use computecloud_node.Python.Dict.{get_or, get_item}
use computecloud_node.Python.Runtime.{Runtime}
use computecloud_node.Workbench.{DockerSession, Machine, Site, pause, act, stop_session}
use computecloud_node.Workbench.Start.{start_session}
use computecloud_node.Workbench.Service.{repull_image, repulled, container_logs}
use computecloud_node.Workbench.Probe.{
  Connection, Finding, healthy, no_banner, unexpected_banner, connect_failed, probe_session_service,
}
use computecloud_node.Workbench.Waiting.{IsTicking}
use computecloud_node.Workbench.Kept.{kept, kept-other, named, Keeps, start_session-Keeps}
use computecloud_node.Workbench.Stopping.{kept-stop_session}
use computecloud_node.Session.{SessionHandle, Workbench, Place}
use computecloud_node.Session.Running.{Tick, run_session_container}
use computecloud_node.Session.Removal.{Removes, held, held_by, started_of}
use computecloud_node.Session.Swept.{Swept, run_session_container-Swept}

abbrev pub docker_handle : DockerSession → SessionHandle
docker_handle handle = record {
  host_port = handle.host_port;
  auth_token = handle.auth_token;
  container_id = some handle.container_id;
  is_docker = true;
}

abbrev pub handed_back : Result DockerSession → Result SessionHandle
handed_back (raise exc) = raise exc
handed_back (ok handle) = ok (docker_handle handle)

-- The handle as `DockerWorkbenchExecutor` reads it: a container that is `None` is as false as one
-- without a name.
abbrev pub container_name : Option String → String
container_name none = ""
container_name (some container_id) = container_id

abbrev pub docker_session : SessionHandle → DockerSession
docker_session handle = record {
  host_port = handle.host_port;
  auth_token = handle.auth_token;
  container_id = container_name handle.container_id;
}

-- `payload.get("session_type", "")`: only its equality with a text is asked.
abbrev pub session_type : Value → String
session_type (str s) = s
session_type _ = ""

-- `probe_session_service(...) is None`
abbrev pub is_healthy : Finding → Bool
is_healthy healthy = true
is_healthy no_banner = false
is_healthy unexpected_banner = false
is_healthy connect_failed = false

-- What the node meets beside the machine.
pub record Service (W : Type 0) : Type 0 where
  pub connect : ℕ → W → Connection × W
  pub post_ready : SessionHandle → W → Bool × W

module _ {W : Type 0} (rt : Runtime) (nb_b64 : String) (host : Machine W) (service : Service W)
    (payload : Fields) where
  -- A start; the second case is a start that is out of fuel.
  abbrev pub started_docker :
      Site W → Option (Result DockerSession × Site W) → Result SessionHandle × Site W
  started_docker s (some (result, s')) = (handed_back result, s')
  started_docker s none = (raise other_error, s)

  abbrev pub probe_service : ℕ → Site W → Bool × Site W
  probe_service port s =
      let (connection, s') = act host (service.connect port) s in
      (
        is_healthy (
            probe_session_service connection
              (session_type (get_or "session_type" (str "") payload))),
        s',
      )

  -- The executor for one session, with its payload.
  unfoldable pub docker_workbench : Workbench (Site W)
  unfolding start_session repull_image container_logs
  docker_workbench = record {
    start_session = λ s. started_docker s (start_session rt nb_b64 host payload s);
    stop_session = λ handle s. (ok tt, stop_session host (docker_session handle) s);
    repull_image = some (repull_image host payload);
    container_logs = some (λ handle s.
        let (logs, s') = container_logs host (docker_session handle) "40" s in (ok logs, s'));
    probe = probe_service;
    pause = pause host 5000;
    post_ready = λ handle s. act host (service.post_ready handle) s;
  }

  abbrev live : Site W → List String
  live s = kept s.ran

  live-started_docker :
      (s : Site W) {started : Option (Result DockerSession × Site W)}
      → Keeps rt nb_b64 host started
      → live (started_docker s started).1 ≡ held_by (started_of (started_docker s started).0)
  live-started_docker s (raise exc, s', ended, up) = rw ended up
  live-started_docker s (ok handle, s', ended, up) = rw ended up

  live-repull_image : (s : Site W) → live (repull_image host payload s).1 ≡ live s
  unfolding repull_image
  live-repull_image s = go (get_item "docker_image" payload)
    where
      go : (image : Result Value) → live (repulled host image s).1 ≡ live s
      go (raise exc) = unfold repulled in refl
      go (ok (str image)) =
          unfold repulled in kept-other host "pull" (image ∷ []) 600000 s refl refl
      go (ok _) = unfold repulled in refl

  live-container_logs :
      (handle : DockerSession) (tail : String) (s : Site W)
      → live (container_logs host handle tail s).1 ≡ live s
  unfolding container_logs
  live-container_logs handle tail s = elim (Bool-cases (str_eq handle.container_id "")) [
    | inl bare ↦ rw (bare, container_logs) refl
    | inr name ↦
        rw (name, container_logs)
          (kept-other host "logs" ("--tail" ∷ tail ∷ handle.container_id ∷ []) 15000 s refl refl)
  ]

  held_named : (container : Option String) → held container ≡ named (container_name container)
  held_named none = refl
  held_named (some container_id) = refl

  live-stop_session :
      (handle : SessionHandle) (s : Site W)
      → live s ≡ held handle.container_id
      → live (stop_session host (docker_session handle) s) ≡ []
  live-stop_session handle s up =
      kept-stop_session host (docker_session handle) s (up ∙ held_named handle.container_id)

  -- On a clock that does not go back, `DockerWorkbenchExecutor` keeps the laws, for the containers of a
  -- `docker run` that succeeded which were not asked to be removed.
  pub docker_workbench-Removes : IsTicking host → Removes docker_workbench live
  unfolding docker_workbench
  docker_workbench-Removes ticking = record {
    start = λ s none_up.
        live-started_docker s (start_session-Keeps rt nb_b64 host ticking payload s none_up);
    stop = live-stop_session;
    repull = live-repull_image;
    logs = λ handle s. live-container_logs (docker_session handle) "40" s;
    probe = λ port s. refl;
    pause = λ s. refl;
    post_ready = λ handle s. refl;
  }

  -- On a clock that does not go back, and with no container before, a run of `_run_session_container` with
  -- `DockerWorkbenchExecutor` leaves no container behind: every container of a `docker run` that
  -- succeeded and printed a name was asked to be removed, the ones of restarts included. There are two
  -- exceptions, each with the one container of the last handle: the session goes on, with nothing
  -- reported; or the main loop found it dead, with that as the only report.
  pub run_session_container-docker_workbench :
      IsTicking host
      → (lower : List ℕ → List ℕ) (parse_float : List ℕ → Option ℕ) (session_id : String)
        (ticks : List Tick) (p : Place (Site W))
      → kept p.world.ran ≡ []
      → Swept
          (λ s. kept s.ran)
          session_id
          p
          (run_session_container lower parse_float (some docker_workbench) session_id ticks p)
  run_session_container-docker_workbench ticking lower parse_float session_id ticks p none_up =
      run_session_container-Swept lower parse_float docker_workbench live
        (docker_workbench-Removes ticking) session_id ticks p none_up
