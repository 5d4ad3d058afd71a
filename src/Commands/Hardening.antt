-- ===== src/Commands/Hardening.antt =====
-- What reaches the Docker command line.
use computecloud_node.Prelude.{
  ℕ, String, ◌<>◌, ◌≡◌, sym, ◌⊎◌, inl, inr, Bool, true, false, Option, none, some, List, [], ◌∷◌,
  ◌++◌, arith, Bool-cases, if◌then◌else◌,
}
use computecloud_node.Prelude.Int.{ℤ}
use computecloud_node.Python.{Result, ok, returns, ◌>>=◌, Value, Fields, truthy, to_int, decimal_ℤ}
use computecloud_node.Python.Dict.{get}
use computecloud_node.Python.Runtime.{Runtime}
use computecloud_node.Commands.{CommandResult, Finished, extract_command, extract_timeout}
use computecloud_node.Commands.Docker.{
  DockerExecutor, Machine, find_docker, hardening, docker_report, is_allowed, fields_of,
  extract_image, gpu_args, memory_args, cpu_args, build_docker_command, run, execute,
}

-- The options that a payload can add: GPUs, memory and CPUs, each at most once.
pub data IsLimit : List String → Type 0 where
  unlimited : IsLimit []
  gpus : IsLimit ("--gpus" ∷ "all" ∷ [])
  memory : (mb : ℤ) → IsLimit ("--memory" ∷ (decimal_ℤ mb <> "m") ∷ [])
  cpus : (text : String) → IsLimit ("--cpus" ∷ text ∷ [])

ok_inj : {A : Type 0} (x y : A) → Result.ok x ≡ ok y → x ≡ y
ok_inj x y e = cc

-- How an optional list of options comes out.
option_cases :
    {A : Type 0} (b : Bool) (m : Result A) (f : A → List String) (args : List String)
    → (if b then m >>= (λ a. ok (f a)) else ok []) ≡ ok args
    → ((a : A) × (m ≡ ok a) × (args ≡ f a)) ⊎ (args ≡ [])
option_cases true m f args e =
    let (a, read, same) = returns m (λ a. ok (f a)) args e in
    inl (a, read, sym (ok_inj (f a) args same))
option_cases false m f args e = inr (sym (ok_inj [] args e))

module _ (rt : Runtime) (ex : DockerExecutor) (host : Machine) (to_float : Value → Result ℕ) where
  -- A Docker command line: the fixed options come first, then limits, then the node's own options,
  -- the image, and a shell with the task's command as one argument.
  pub record IsHardened (image command : String) (args : List String) : Type 0 where
    pub gpu_limit : List String
    pub memory_limit : List String
    pub cpu_limit : List String
    pub limits : IsLimit gpu_limit × IsLimit memory_limit × IsLimit cpu_limit
    pub shape :
        args
        ≡ find_docker host ∷ hardening
          ++ (gpu_limit
              ++ (memory_limit
                  ++ (cpu_limit
                      ++ (ex.extra_docker_args ++ image ∷ "/bin/sh" ∷ "-c" ∷ command ∷ []))))

  gpu_args-IsLimit : (d : Fields) → IsLimit (gpu_args rt ex host to_float d)
  gpu_args-IsLimit d = elim (Bool-cases (truthy (get "gpu" d))) [
    | inl e ↦ rw e gpus
    | inr e ↦ rw e unlimited
  ]

  memory_args-IsLimit :
      (d : Fields) (args : List String) → memory_args rt ex host to_float d ≡ ok args → IsLimit args
  memory_args-IsLimit d args e =
      elim (option_cases (truthy (get "memory_mb" d)) (to_int (get "memory_mb" d)) _ args e) [
        | inl (mb, read, same) ↦ rw same (memory mb)
        | inr same ↦ rw same unlimited
      ]

  cpu_args-IsLimit :
      (d : Fields) (args : List String) → cpu_args rt ex host to_float d ≡ ok args → IsLimit args
  cpu_args-IsLimit d args e =
      elim (option_cases (truthy (get "cpu_cores" d)) (to_float (get "cpu_cores" d)) _ args e) [
        | inl (cores, read, same) ↦ rw same (cpus _)
        | inr same ↦ rw same unlimited
      ]

  build_docker_command-IsHardened :
      (image command : String) (payload : Option Fields) (args : List String)
      → build_docker_command rt ex host to_float image command payload ≡ ok args
      → IsHardened image command args
  unfolding build_docker_command
  build_docker_command-IsHardened image command payload args e =
      let d = fields_of payload in
      let (memory_limit, has_memory, e') = returns (memory_args rt ex host to_float d) _ args e in
      let (cpu_limit, has_cpus, same) = returns (cpu_args rt ex host to_float d) _ args e' in
      record {
        gpu_limit = gpu_args rt ex host to_float d;
        memory_limit = memory_limit;
        cpu_limit = cpu_limit;
        limits = (
          gpu_args-IsLimit d,
          memory_args-IsLimit d memory_limit has_memory,
          cpu_args-IsLimit d cpu_limit has_cpus,
        );
        shape = sym (ok_inj _ args same);
      }

  extract_image-is_allowed :
      (payload : Option Fields) (image : String)
      → extract_image rt ex payload ≡ ok image
      → is_allowed ex.allowed_image_prefixes image ≡ true
  unfolding extract_image
  extract_image-is_allowed none image e = absurd (cc)
  extract_image-is_allowed (some d) image e = ground (arith, e)

  -- Every result of `execute` comes from one call of Docker: on a hardened command line, with an
  -- image that the allow-list lets through, the command that the payload names, and the time that
  -- it asks for or the default.
  pub record Ran (subprocess_run : List String → ℕ → Finished) (payload : Option Fields)
      (result : Value) : Type 0 where
    pub image : String
    pub command : String
    pub timeout : ℕ
    pub args : List String
    pub outcome : CommandResult
    pub allowed : is_allowed ex.allowed_image_prefixes image ≡ true
    pub named : extract_command rt payload ≡ ok command
    pub timed : extract_timeout to_float ex.default_timeout_seconds payload ≡ ok timeout
    pub hardened : IsHardened image command args
    pub ended : run rt ex host to_float timeout (subprocess_run args timeout) ≡ ok outcome
    pub reported : docker_report image command outcome ≡ result

  -- A result of `DockerExecutor.execute` comes from a Docker command line in which the fixed
  -- hardening options come first, a payload adds only GPU, memory and CPU limits, the node's own
  -- options follow, and the task's command is one argument after the image. The image has one of
  -- the allowed prefixes, where any are set.
  pub execute-Ran :
      (subprocess_run : List String → ℕ → Finished) (payload : Option Fields) (result : Value)
      → execute rt ex host to_float subprocess_run payload ≡ ok result
      → Ran subprocess_run payload result
  unfolding execute
  execute-Ran subprocess_run payload result e =
      let (image, has_image, e1) = returns (extract_image rt ex payload) _ result e in
      let (command, has_command, e2) = returns (extract_command rt payload) _ result e1 in
      let (timeout, has_timeout, e3) =
        returns (extract_timeout to_float ex.default_timeout_seconds payload) _ result e2 in
      let (args, built, e4) =
        returns (build_docker_command rt ex host to_float image command payload) _ result e3 in
      let (outcome, ended, e5) =
        returns (run rt ex host to_float timeout (subprocess_run args timeout)) _ result e4 in
      record {
        image = image;
        command = command;
        timeout = timeout;
        args = args;
        outcome = outcome;
        allowed = extract_image-is_allowed payload image has_image;
        named = has_command;
        timed = has_timeout;
        hardened = build_docker_command-IsHardened image command payload args built;
        ended = ended;
        reported = ok_inj _ result e5;
      }
