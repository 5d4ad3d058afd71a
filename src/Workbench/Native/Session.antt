-- ===== src/Workbench/Native/Session.antt =====
-- What a native session leaves of processes.
use computecloud_node.Prelude.{
  ℕ, ◌≡◌, String, Bool, true, false, Option, none, some, List, [], ◌∷◌, str_eq, ◌&&◌, ◌||◌,
  Bool-cases, inl, inr, if◌then◌else◌,
}
use computecloud_node.Python.{ok, Value, null, str, arr, nil, Fields, truthy, to_list, list_of}
use computecloud_node.Python.Dict.{get_or}
use computecloud_node.Python.Effect.{◌>>=◌, lift, Keeps, then_Keeps}
use computecloud_node.Python.Runtime.{Runtime, to_str}
use computecloud_node.Workbench.{get_of}
use computecloud_node.Workbench.Native.{
  NativeMachine, NativeSite, Signal, make_directory, world_step, sync_path, sync_file, sync_loop,
  token_of, sync_ws, sync_with, prepare, inject_ssh_keys, prepared,
}

module _ {W : Type 0} (rt : Runtime) (host : NativeMachine W) where
  -- No process is started, and `_kill_process` is not called.
  module _ (started : List ℕ) (signals : List Signal) where
    abbrev pub Idle : NativeSite W → Type 0
    Idle s = (s.started ≡ started) × (s.signals ≡ signals)

    sync_path-Idle :
        (base_url dl_prefix : String) (token : Option String) (rel_path : String)
        → Keeps Idle (sync_path rt host base_url dl_prefix token rel_path)
    unfolding sync_path
    sync_path-Idle base_url dl_prefix token rel_path =
        then_Keeps {B = Unit {0}} Idle _
          (make_directory rt host (host.dirname (host.local_path host.ws_dir rel_path))) (λ s h. h)
          (λ made s h. h)

    sync_file-Idle :
        (base_url dl_prefix : String) (token : Option String) (f_info : Value)
        → Keeps Idle (sync_file rt host base_url dl_prefix token f_info)
    unfolding sync_file
    sync_file-Idle base_url dl_prefix token f_info =
        then_Keeps {B = Unit {0}} Idle _ (lift (get_of f_info "relative_path" (str ""))) (λ s h. h)
          (λ rel_path s h. elim (Bool-cases (truthy rel_path)) [
            | inl given ↦
                rw given (sync_path-Idle base_url dl_prefix token (to_str rt rel_path) s h)
            | inr missing ↦ rw missing h
          ])

    sync_loop-Idle :
        (base_url dl_prefix : String) (token : Option String) (files : List Value)
        → Keeps Idle (sync_loop rt host base_url dl_prefix token files)
    unfolding sync_loop
    sync_loop-Idle base_url dl_prefix token [] s h = h
    sync_loop-Idle base_url dl_prefix token (f_info ∷ files) s h =
        then_Keeps Idle (λ (done : Unit {0}). sync_loop rt host base_url dl_prefix token files)
          (sync_file rt host base_url dl_prefix token f_info)
          (sync_file-Idle base_url dl_prefix token f_info)
          (λ done. sync_loop-Idle base_url dl_prefix token files) s h

    sync_ws-Idle :
        (base_url : String) (ws_block pool_env : Value)
        → Keeps Idle (sync_ws rt host base_url ws_block pool_env)
    unfolding sync_ws
    sync_ws-Idle base_url ws_block pool_env =
        then_Keeps {B = Unit {0}} Idle _ (lift (get_of ws_block "files" (arr nil))) (λ s h. h)
          (λ files.
            then_Keeps {B = Unit {0}} Idle _
              (lift (get_of ws_block "download_path_prefix" (str ""))) (λ s h. h)
              (λ dl_prefix.
                then_Keeps {B = Unit {0}} Idle _ (lift (token_of rt host pool_env)) (λ s h. h)
                  (λ token.
                    then_Keeps {B = Unit {0}} Idle _ (lift (to_list files)) (λ s h. h)
                      (λ items.
                        sync_loop-Idle base_url (to_str rt dl_prefix) token (list_of items)))))

    sync_with-Idle :
        (client : Option String) (ws_block pool_env : Value)
        → Keeps Idle (sync_with rt host client ws_block pool_env)
    sync_with-Idle none ws_block pool_env s h = h
    sync_with-Idle (some base_url) ws_block pool_env s h =
        sync_ws-Idle base_url ws_block pool_env s h

    synced-Idle :
        (asked : Bool) (client : Option String) (ws_block pool_env : Value)
        → Keeps Idle (if asked then sync_with rt host client ws_block pool_env else lift (ok tt))
    synced-Idle true client ws_block pool_env s h = sync_with-Idle client ws_block pool_env s h
    synced-Idle false client ws_block pool_env s h = h

    prepare-Idle :
        (stype : String) (ws_block pool_env : Value)
        → Keeps Idle (prepare rt host stype ws_block pool_env)
    unfolding prepare
    prepare-Idle stype ws_block pool_env s h =
        elim (Bool-cases (truthy ws_block || truthy pool_env)) [
          | inr plain ↦ rw plain h
          | inl asked ↦ rw asked (
              then_Keeps {B = Unit {0}} Idle
                (λ (made : Unit {0}).
                  (if truthy ws_block
                    then sync_with rt host host.base_url ws_block pool_env
                    else lift (ok tt))
                  >>= (λ synced. world_step rt host (
                      if str_eq stype "jupyter" && truthy ws_block
                      then host.welcome host.ws_dir
                      else (λ w. w))))
                (make_directory rt host host.ws_dir) (λ s' h'. h')
                (λ made.
                  then_Keeps {B = Unit {0}} Idle
                    (λ (synced : Unit {0}). world_step rt host (
                      if str_eq stype "jupyter" && truthy ws_block
                      then host.welcome host.ws_dir
                      else (λ w. w)))
                    (if truthy ws_block
                      then sync_with rt host host.base_url ws_block pool_env
                      else lift (ok tt))
                    (synced-Idle (truthy ws_block) host.base_url ws_block pool_env)
                    (λ synced s' h'. h'))
                s h)
        ]

    pub prepared-Idle :
        (stype : String) (session_data : Fields) → Keeps Idle (prepared rt host stype session_data)
    unfolding prepared inject_ssh_keys
    prepared-Idle stype session_data =
        let pool_env = get_or "pool_env" null session_data in
        let workspace = get_or "workspace" null session_data in
        then_Keeps {B = Fields} Idle _ (prepare rt host stype workspace pool_env)
          (prepare-Idle stype workspace pool_env) (λ ready s h. h)
