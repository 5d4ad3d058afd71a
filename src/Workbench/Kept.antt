-- ===== src/Workbench/Kept.antt =====
-- The containers of a session that were started, and were not asked to be removed.
use computecloud_node.Prelude.{
  ℕ, zero, suc, String, ◌≡◌, refl, ◌∙◌, ap, Bool, true, false, inl, inr, Option, some, List, [],
  ◌∷◌, ◌++◌, not, ◌&&◌, arith, str_eq, eq_iff, Bool-cases, if◌then◌else◌,
}
use computecloud_node.Prelude.Equality.{without, string_eq}
use computecloud_node.Python.{Result, ok, raise, ◌>>=◌, Value, str, Fields, truthy}
use computecloud_node.Python.Runtime.{Runtime}
use computecloud_node.Commands.{Finished}
use computecloud_node.Workbench.{
  DockerSession, Machine, Site, pause, run, succeeded, stop_container, container_of, run_docker,
  image_entrypoint, parts_loop, run_startup_parts_docker,
}
use computecloud_node.Workbench.Command.{is_ssh}
use computecloud_node.Workbench.Start.{
  Request, read_request, is_empty, post_start, awaited, booted, launched, final_of, assembled,
  requested, start_session,
}
use computecloud_node.Workbench.Waiting.{IsTicking, wait_for_port-Waited}

-- A container as a list of containers: one without a name is none, since no command can be given for it.
abbrev pub named : String → List String
named container_id = if str_eq container_id "" then [] else container_id ∷ []

-- The containers after one process: `docker run` that succeeds adds the one that it prints, and
-- `docker rm` takes off the one that it names.
abbrev started_by : Result String → List String
started_by (raise exc) = []
started_by (ok container_id) = named container_id

abbrev removed_by : List String → List String → List String
removed_by (force ∷ volumes ∷ container_id ∷ []) live = without container_id live
removed_by _ live = live

unfoldable pub after : List String → Finished → List String → List String
unfolding container_of
after (docker ∷ verb ∷ args) finished live =
    if str_eq verb "run"
    then live ++ started_by (container_of finished)
    else if str_eq verb "rm"
    then removed_by args live
    else live
after _ finished live = live

unfoldable pub kept_from : List String → List (List String × Finished) → List String
unfolding after
kept_from live [] = live
kept_from live ((args, finished) ∷ events) = kept_from (after args finished live) events

abbrev pub kept : List (List String × Finished) → List String
kept events = kept_from [] events

kept_from-append :
    (live args : List String) (finished : Finished) (events : List (List String × Finished))
    → kept_from live (events ++ (args, finished) ∷ []) ≡ after args finished (kept_from live events)
unfolding kept_from
kept_from-append live args finished [] = refl
kept_from-append live args finished ((args', finished') ∷ events) =
    kept_from-append (after args' finished' live) args finished events

module _ {W : Type 0} (host : Machine W) where
  kept-run :
      (args : List String) (timeout : ℕ) (s : Site W)
      → kept (run host args timeout s).1.ran
        ≡ after args (host.run args timeout s.world).0 (kept s.ran)
  unfolding run
  kept-run args timeout s = kept_from-append [] args (host.run args timeout s.world).0 s.ran

  -- A command of docker that is neither `run` nor `rm`.
  pub kept-other :
      (verb : String) (args : List String) (timeout : ℕ) (s : Site W)
      → str_eq verb "run" ≡ false
      → str_eq verb "rm" ≡ false
      → kept (run host (host.docker ∷ verb ∷ args) timeout s).1.ran ≡ kept s.ran
  kept-other verb args timeout s not_run not_rm =
      kept-run (host.docker ∷ verb ∷ args) timeout s ∙ unfold after in rw (not_run, not_rm) refl

  pub kept-stop_container :
      (container_id : String) (s : Site W)
      → kept (stop_container host container_id s).ran ≡ without container_id (kept s.ran)
  unfolding stop_container
  kept-stop_container container_id s =
      let stop = host.docker ∷ "stop" ∷ container_id ∷ [] in
      let rm = host.docker ∷ "rm" ∷ "-f" ∷ "-v" ∷ container_id ∷ [] in
      let stopped = run host stop 10000 s in
      kept-run rm 10000 stopped.1
      ∙ (unfold after in ap (without container_id) (kept-run stop 10000 s))

  kept-parts_loop :
      (attempts : ℕ) (args : List String) (s : Site W)
      → kept (parts_loop host attempts (host.docker ∷ "exec" ∷ args) s).ran ≡ kept s.ran
  unfolding parts_loop after
  kept-parts_loop zero args s = refl
  kept-parts_loop (suc attempts) args s =
      let command = host.docker ∷ "exec" ∷ args in
      let ended = run host command 60000 s in
      let once : kept ended.1.ran ≡ kept s.ran = kept-run command 60000 s in
      elim (Bool-cases (succeeded ended.0)) [
        | inl done ↦ rw done once
        | inr failed ↦ rw failed (kept-parts_loop attempts args (pause host 2000 ended.1) ∙ once)
      ]

  kept-image_entrypoint :
      (rt : Runtime) (image : Value) (s : Site W)
      → kept (image_entrypoint host rt image s).1.ran ≡ kept s.ran
  unfolding image_entrypoint after
  kept-image_entrypoint rt (str image) s =
      kept-run (host.docker ∷ "image" ∷ "inspect" ∷ "--format" ∷ "{{json .Config}}" ∷ image ∷ [])
        30000 s
  kept-image_entrypoint rt _ s = refl

-- The container of the session that was handed back.
abbrev pub containers : Result DockerSession → List String
containers (raise exc) = []
containers (ok handle) = named handle.container_id

pub without_named : (container_id : String) → without container_id (named container_id) ≡ []
unfolding without
without_named container_id = ground (arith, eq_iff container_id container_id)

pub named_empty : (container_id : String) → str_eq container_id "" ≡ true → named container_id ≡ []
named_empty container_id bare = ground (arith, bare)

module _ {W : Type 0} (rt : Runtime) (nb_b64 : String) (host : Machine W) where
  -- A start that ends, and keeps the container of the session that it hands back, and no other.
  abbrev pub Keeps : Option (Result DockerSession × Site W) → Type 0
  Keeps started =
      (result : Result DockerSession) × (s : Site W) × (started ≡ some (result, s))
      × (kept s.ran ≡ containers result)

  kept-post_start :
      (container_id : String) (post : List String) (s : Site W)
      → kept (post_start rt nb_b64 host container_id post s).ran ≡ kept s.ran
  unfolding post_start run_startup_parts_docker
  kept-post_start container_id [] s = refl
  kept-post_start container_id (part ∷ parts) s = kept-parts_loop host 3 _ s

  awaited-Keeps :
      (handle : DockerSession) (post : List String) (opened : Bool) (s : Site W)
      → kept s.ran ≡ named handle.container_id
      → Keeps (awaited rt nb_b64 host handle post (some (opened, s)))
  unfolding awaited
  awaited-Keeps handle post false s up = (
    _,
    _,
    refl,
    kept-stop_container host handle.container_id s
        ∙ ap (without handle.container_id) up
        ∙ without_named handle.container_id,
  )
  awaited-Keeps handle post true s up =
      (_, _, refl, kept-post_start handle.container_id post s ∙ up)

  module _ (ticking : IsTicking host) where
    booted-Keeps :
        (host_port : ℕ) (auth_token : String) (post : List String) (container : Result String)
        (s : Site W)
        → kept s.ran ≡ started_by container
        → Keeps (booted rt nb_b64 host host_port auth_token post (container, s))
    unfolding booted
    booted-Keeps host_port auth_token post (raise exc) s up = (_, _, refl, up)
    booted-Keeps host_port auth_token post (ok container_id) s up =
        let (opened, s', ended, waited, same) =
          wait_for_port-Waited host ticking host_port 180000 s in
        rw ended (awaited-Keeps _ post opened s' (ap kept same ∙ up))

    launched-Keeps :
        (host_port : ℕ) (auth_token : String) (post : List String) (image : Result (List String))
        (options : List String) (s : Site W)
        → kept s.ran ≡ []
        → Keeps (
            launched rt nb_b64 host host_port auth_token post
              (image >>= (λ words. ok (host.docker ∷ "run" ∷ options ++ words)))
              s)
    unfolding launched run_docker
    launched-Keeps host_port auth_token post (raise exc) options s none_up = (_, _, refl, none_up)
    launched-Keeps host_port auth_token post (ok words) options s none_up =
        let docker_cmd = host.docker ∷ "run" ∷ options ++ words in
        booted-Keeps host_port auth_token post _ _ (
          kept-run host docker_cmd 120000 s
          ∙ (unfold after run in
              ap (λ live. live ++ started_by (container_of (host.run docker_cmd 120000 s.world).0))
                none_up))

    kept-final_of :
        (over_ssh : Bool) (r : Request) (parts : List String) (s : Site W)
        → kept (final_of rt nb_b64 host over_ssh r parts s).1.ran ≡ kept s.ran
    unfolding final_of
    kept-final_of over_ssh r parts s = elim (Bool-cases (over_ssh && not (truthy r.command))) [
      | inl own ↦ rw own refl
      | inr wrapped ↦ elim (Bool-cases (not (is_empty parts) && not (truthy r.command))) [
        | inl asked ↦ rw (wrapped, asked) (kept-image_entrypoint host rt r.docker_image s)
        | inr given ↦ rw (wrapped, given) refl
      ]
    ]

    assembled-Keeps :
        (over_ssh : Bool) (r : Request) (host_port : ℕ) (auth_token : String)
        (prepared : Result (List String × List String)) (s : Site W)
        → kept s.ran ≡ []
        → Keeps (assembled rt nb_b64 host over_ssh r host_port auth_token prepared s)
    unfolding assembled
    assembled-Keeps over_ssh r host_port auth_token (raise exc) s none_up = (_, _, refl, none_up)
    assembled-Keeps over_ssh r host_port auth_token (ok (options, parts)) s none_up =
        launched-Keeps host_port auth_token _ _ options _
          (kept-final_of over_ssh r parts s ∙ none_up)

    requested-Keeps :
        (d : Fields) (request : Result Request) (s : Site W)
        → kept s.ran ≡ []
        → Keeps (requested rt nb_b64 host d request s)
    unfolding requested
    requested-Keeps d (raise exc) s none_up = (_, _, refl, none_up)
    requested-Keeps d (ok r) s none_up = assembled-Keeps (is_ssh d) r _ _ _ _ none_up

    -- On a clock that does not go back, and with no container before, `start_session` ends: if
    -- it hands back a session, its container is that of a `docker run` that succeeded, and was
    -- not asked to be removed, and there is no other such container; if it raises, every
    -- container of a `docker run` that succeeded was asked to be removed. A container for which no
    -- name was printed does not count.
    pub start_session-Keeps :
        (session_data : Fields) (s : Site W)
        → kept s.ran ≡ []
        → Keeps (start_session rt nb_b64 host session_data s)
    unfolding start_session
    start_session-Keeps session_data s none_up =
        requested-Keeps session_data (read_request session_data) s none_up
