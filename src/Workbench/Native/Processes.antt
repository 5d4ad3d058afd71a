-- ===== src/Workbench/Native/Processes.antt =====
-- Which processes a native session leaves.
use computecloud_node.Prelude.{
  ℕ, ◌≡◌, refl, ap, ◌∙◌, append_assoc, String, Bool, true, false, Option, none, some, List, [], ◌∷◌,
  ◌++◌, str_eq, Bool-cases, inl, inr,
}
use computecloud_node.Python.{Result, ok, raise, Exc, str, Fields, decimal, workbench_error}
use computecloud_node.Python.Dict.{get_or}
use computecloud_node.Python.Effect.{continue}
use computecloud_node.Python.Runtime.{Runtime, to_str}
use computecloud_node.Workbench.{Site, act}
use computecloud_node.Workbench.Waiting.{IsTicking, wait_for_port-Waited}
use computecloud_node.Workbench.Native.{
  NativeSession, NativeMachine, NativeSite, Signal, terminated, killed, kill_unless, entered,
  launch, install_jupyter, jupyter_command, start_jupyter, sshd_at, start_sshd, start_custom,
  start_process, prepared, awaited_native, kill_process, terminate_proc, kill_proc, process_started,
  start_native,
}
use computecloud_node.Workbench.Native.Session.{Idle, prepared-Idle}

module _ {W : Type 0} (rt : Runtime) (host : NativeMachine W) (started : List ℕ)
    (signals : List Signal) where
  -- The processes after the start of one: none was started, or the one that is handed back.
  data Processed : Result (Option ℕ) × NativeSite W → Type 0 where
    raised :
        (exc : Exc) (s : NativeSite W) → Idle rt host started signals s → Processed (raise exc, s)
    no_process : (s : NativeSite W) → Idle rt host started signals s → Processed (ok none, s)
    process :
        (pid : ℕ) (s : NativeSite W)
        → s.started ≡ started ++ pid ∷ []
        → s.signals ≡ signals
        → Processed (ok (some pid), s)

  entered-Processed :
      (pid : Option ℕ) (site : Site W) (s : NativeSite W)
      → Idle rt host started signals s
      → Processed (ok pid, record s { site = site; started = entered rt host pid s.started })
  entered-Processed none site s (same, kept) = no_process (record s { site = site }) (same, kept)
  entered-Processed (some pid) site s (same, kept) =
      process pid (record s { site = site; started = s.started ++ pid ∷ [] })
        (ap (λ l. l ++ pid ∷ []) same) kept

  launch-Processed :
      (popen : W → Option ℕ × W) (s : NativeSite W)
      → Idle rt host started signals s
      → Processed (launch rt host popen s)
  launch-Processed popen s idle =
      entered-Processed (act host.machine popen s.site).0 (act host.machine popen s.site).1 s idle

  start_jupyter-Processed :
      (command : String) (host_port : ℕ) (env : Fields) (s : NativeSite W)
      → Idle rt host started signals s
      → Processed (start_jupyter rt host command host_port env s)
  unfolding start_jupyter install_jupyter
  start_jupyter-Processed command host_port env s idle =
      launch-Processed (host.popen_shell (jupyter_command rt host command host_port) env)
        (install_jupyter rt host s).1 idle

  sshd_at-Processed :
      (host_port : ℕ) (env : Fields) (found : Option String) (s : NativeSite W)
      → Idle rt host started signals s
      → Processed (sshd_at rt host host_port env found s)
  sshd_at-Processed host_port env none s idle = raised workbench_error s idle
  sshd_at-Processed host_port env (some path) s idle = elim (Bool-cases (str_eq path "")) [
    | inl blank ↦ rw blank (raised workbench_error s idle)
    | inr given ↦
        rw given
          (launch-Processed (host.popen (path ∷ "-D" ∷ "-p" ∷ decimal host_port ∷ []) env) s idle)
  ]

  start_sshd-Processed :
      (host_port : ℕ) (env : Fields) (s : NativeSite W)
      → Idle rt host started signals s
      → Processed (start_sshd rt host host_port env s)
  unfolding start_sshd
  start_sshd-Processed host_port env s idle =
      sshd_at-Processed host_port env (host.which "sshd") s idle

  start_custom-Processed :
      (command : String) (env : Fields) (s : NativeSite W)
      → Idle rt host started signals s
      → Processed (start_custom rt host command env s)
  unfolding start_custom
  start_custom-Processed command env s idle = elim (Bool-cases (str_eq command "")) [
    | inl blank ↦ rw blank (raised workbench_error s idle)
    | inr given ↦ rw given (launch-Processed (host.popen_shell command env) s idle)
  ]

  start_process-Processed :
      (stype command : String) (host_port : ℕ) (env : Fields) (s : NativeSite W)
      → Idle rt host started signals s
      → Processed (start_process rt host stype command host_port env s)
  unfolding start_process
  start_process-Processed stype command host_port env s idle =
      elim (Bool-cases (str_eq stype "jupyter")) [
        | inl jupyter ↦ rw jupyter (start_jupyter-Processed command host_port env s idle)
        | inr other ↦ elim (Bool-cases (str_eq stype "ssh")) [
          | inl ssh ↦ rw (other, ssh) (start_sshd-Processed host_port env s idle)
          | inr neither ↦ elim (Bool-cases (str_eq stype "custom")) [
            | inl custom ↦ rw (other, neither, custom) (start_custom-Processed command env s idle)
            | inr unknown ↦ rw (other, neither, unknown) (raised workbench_error s idle)
          ]
        ]
      ]

  continued-Processed :
      (stype command : String) (host_port : ℕ) (p : Result Fields × NativeSite W)
      → Idle rt host started signals p.1
      → Processed (continue (start_process rt host stype command host_port) p)
  continued-Processed stype command host_port (ok env, s) idle =
      start_process-Processed stype command host_port env s idle
  continued-Processed stype command host_port (raise exc, s) idle = raised exc s idle

  -- How a start ends: with a session whose process was started and not ended, or with an exception and
  -- no process, or one that was told to end, and killed where that has raised.
  pub data Launched : Option (Result NativeSession × NativeSite W) → Type 0 where
    ready :
        (handle : NativeSession) (s : NativeSite W)
        → s.started ≡ started ++ handle.pid ∷ []
        → s.signals ≡ signals
        → Launched (some (ok handle, s))
    refused :
        (exc : Exc) (s : NativeSite W)
        → s.started ≡ started
        → s.signals ≡ signals
        → Launched (some (raise exc, s))
    ended :
        (exc : Exc) (pid : ℕ) (s : NativeSite W)
        → s.started ≡ started ++ pid ∷ []
        → s.signals ≡ signals ++ terminated pid true ∷ []
        → Launched (some (raise exc, s))
    forced :
        (exc : Exc) (pid : ℕ) (done : Bool) (s : NativeSite W)
        → s.started ≡ started ++ pid ∷ []
        → s.signals ≡ signals ++ terminated pid false ∷ killed pid done ∷ []
        → Launched (some (raise exc, s))

  -- The end of the process that was started.
  kill_unless-Launched :
      (exc : Exc) (pid : ℕ) (p : Bool × NativeSite W)
      → p.1.started ≡ started ++ pid ∷ []
      → p.1.signals ≡ signals ++ terminated pid p.0 ∷ []
      → Launched (some (raise exc, kill_unless rt host pid p))
  unfolding kill_proc
  kill_unless-Launched exc pid (true, s) one sent = ended exc pid s one sent
  kill_unless-Launched exc pid (false, s) one sent =
      forced exc pid (act host.machine (host.kill pid) s.site).0 (kill_proc rt host pid s).1 one (
        ap (λ l. l ++ killed pid (act host.machine (host.kill pid) s.site).0 ∷ []) sent
        ∙ append_assoc signals (terminated pid false ∷ []) _)

  kill_process-Launched :
      (exc : Exc) (pid : ℕ) (s : NativeSite W)
      → s.started ≡ started ++ pid ∷ []
      → s.signals ≡ signals
      → Launched (some (raise exc, kill_process rt host pid s))
  unfolding kill_process terminate_proc
  kill_process-Launched exc pid s one kept =
      kill_unless-Launched exc pid (terminate_proc rt host pid s) one
        (ap (λ l. l ++ terminated pid (terminate_proc rt host pid s).0 ∷ []) kept)

  awaited_native-Launched :
      (handle : NativeSession) (opened : Bool) (site : Site W) (s : NativeSite W)
      → s.started ≡ started ++ handle.pid ∷ []
      → s.signals ≡ signals
      → Launched (awaited_native rt host handle (some (opened, site)) s)
  unfolding awaited_native
  awaited_native-Launched handle true site s one kept =
      ready handle (record s { site = site }) one kept
  awaited_native-Launched handle false site s one kept =
      kill_process-Launched workbench_error handle.pid (record s { site = site }) one kept

  process_started-Launched :
      IsTicking host.machine
      → (host_port : ℕ) (auth_token : String) (p : Result (Option ℕ) × NativeSite W) → Processed p
      → Launched (process_started rt host host_port auth_token p)
  unfolding process_started
  process_started-Launched ticking host_port auth_token _ (raised exc s (same, kept)) =
      refused exc s same kept
  process_started-Launched ticking host_port auth_token _ (no_process s (same, kept)) =
      refused workbench_error s same kept
  process_started-Launched ticking host_port auth_token _ (process pid s one kept) =
      let (opened, site, waits, waited, ran) =
        wait_for_port-Waited host.machine ticking host_port 60000 s.site in
      rw waits (awaited_native-Launched _ opened site s one kept)

-- On a clock that does not go back, `start_session` of the native executor ends. It hands back a session
-- whose process is the one that was started, and `_kill_process` has made no call; or it raises. Then it
-- has started no process and made no such call; or the call to terminate the one that it started has
-- returned; or that call has raised, and the call to kill it was made, which may raise as well.
pub start_native-Launched :
    {W : Type 0} (rt : Runtime) (host : NativeMachine W)
    → IsTicking host.machine
    → (session_data : Fields) (s : NativeSite W)
    → Launched rt host s.started s.signals (start_native rt host session_data s)
unfolding start_native
start_native-Launched rt host ticking session_data s =
    let stype = to_str rt (get_or "session_type" (str "") session_data) in
    process_started-Launched rt host s.started s.signals ticking _ _ _ (
      continued-Processed rt host s.started s.signals stype _ _
        (prepared rt host stype session_data _)
        (prepared-Idle rt host s.started s.signals stype session_data _ (refl, refl)))
