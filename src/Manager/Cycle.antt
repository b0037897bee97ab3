-- ===== src/Manager/Cycle.antt =====
-- src/core/model_manager/model_manager.cc: LoadModels and what the server calls on a ModelManager.
use model_inference_server.Common.{
  ℕ, ◌^◌, ◌%◌, String, Bool, true, false, Option, none, some, List, [], ◌∷◌, length, if◌then◌else◌,
  ℤ, to_signed, string_key, nat_key, int_key,
}
use model_inference_server.Common.Dict
use model_inference_server.Common.Dict.{Dict}
use model_inference_server.Outcome.{Outcome, returns, throws, ◌>>=◌, ◌>>◌}
use model_inference_server.Status.{
  Status, success, faield_model_manager_already_running, failed_invalid_server_config,
  failed_infer_no_backend_found,
}
use model_inference_server.Config.{ServerConfig}
use model_inference_server.Proto.{ModelReadyState, ModelStatus}
use model_inference_server.Scheduler.{
  SimpleScheduler, new_scheduler, start, enqueue, update_backend_infer_func,
}
use model_inference_server.Manager.{
  World, BackendInfo, ModelRunContext, ModelManager, ModelLoadInfo, StateUpdate, release_backend,
  load_model, get_model_state_update,
}

module _ {P : Type 0} where
  -- backend->GetInstanceNum(), through the pointer
  unfoldable pub instance_num : ModelManager P → ℕ → ℕ
  instance_num m address = elim (Dict.find address m.heap) [ none ↦ 0 | some b ↦ length b.contexts ]

  -- A context for a loaded backend, its scheduler started.
  unfoldable pub new_context : ModelManager P → BackendInfo → ModelRunContext P
  new_context m info = record {
    scheduler =
        (start (
          new_scheduler m.server_cfg.scheduler_cfg
            (to_signed 31 (instance_num m info.backend % 2 ^ 32)) info.backend)).0;
    backend_info = info;
  }

  -- model_map_.insert: with an entry of that name in the map, the new context is destroyed.
  insert_context :
      ModelManager P → String → BackendInfo → Option (ModelRunContext P) → ModelManager P
  insert_context m name info (some ctx) = release_backend m info.backend
  insert_context m name info none = record m {
    model_map = Dict.insert name (new_context m info) m.model_map;
  }

  add_loaded : ModelLoadInfo → ModelManager P × Option BackendInfo → ModelManager P
  unfolding insert_context
  add_loaded new_model (m, none) = m
  add_loaded new_model (m, some info) =
      insert_context m new_model.model_name info (Dict.find new_model.model_name m.model_map)

  -- The pass of the first loop of LoadModels.
  unfoldable pub add_model : World → ModelManager P → ModelLoadInfo → ModelManager P
  unfolding add_loaded
  add_model w m new_model = add_loaded new_model (load_model w m new_model)

  -- The scheduler is given the new function, the infos change places, and the old one is destroyed.
  replace_context :
      ModelManager P → String → BackendInfo → Option (ModelRunContext P) → ModelManager P
  replace_context m name info none = release_backend m info.backend
  replace_context m name info (some ctx) =
      release_backend
        (record m {
          model_map =
              Dict.put name
                (record {
                  scheduler = (update_backend_infer_func ctx.scheduler info.backend).0;
                  backend_info = info;
                })
                m.model_map;
        })
        ctx.backend_info.backend

  update_loaded : ModelLoadInfo → ModelManager P × Option BackendInfo → ModelManager P
  unfolding replace_context
  update_loaded updated_model (m, none) = m
  update_loaded updated_model (m, some info) =
      replace_context m updated_model.model_name info
        (Dict.find updated_model.model_name m.model_map)

  unfoldable pub update_model : World → ModelManager P → ModelLoadInfo → ModelManager P
  unfolding update_loaded
  update_model w m updated_model = update_loaded updated_model (load_model w m updated_model)

  -- What ~ModelRunContext does to the manager: it destroys the backend. The scheduler, which is
  -- destroyed after it, belongs to the context (Destruction.antt).
  unfoldable pub destroy_context : ModelManager P → ModelRunContext P → ModelManager P
  destroy_context m ctx = release_backend m ctx.backend_info.backend

  remove_context : ModelManager P → String → Option (ModelRunContext P) → ModelManager P
  unfolding destroy_context
  remove_context m name none = m
  remove_context m name (some ctx) =
      destroy_context (record m { model_map = Dict.erase name m.model_map }) ctx

  unfoldable pub delete_model : ModelManager P → String → ModelManager P
  unfolding remove_context
  delete_model m name = remove_context m name (Dict.find name m.model_map)

  abbrev pub each :
      {A : Type 0}
      → (ModelManager P → A → ModelManager P)
      → ModelManager P
      → List A
      → ModelManager P
  each f m [] = m
  each f m (x ∷ xs) = each f (f m x) xs

  -- The three loops, in their order.
  unfoldable pub apply_update : World → ModelManager P → StateUpdate → ModelManager P
  apply_update w m u =
      each delete_model (each (update_model w) (each (add_model w) m u.added) u.updated) u.deleted

  -- A throw comes from the scan, before anything is changed.
  unfoldable pub load_models : World → ModelManager P → Outcome (ModelManager P)
  load_models w m = do u ← get_model_state_update w m; returns (apply_update w m u)

  -- What is left of a throw: the manager as it was when the call was made.
  abbrev pub after_load :
      ModelManager P → Outcome (ModelManager P) → ModelManager P × Outcome Status
  after_load m (throws e) = (m, throws e)
  after_load m (returns m') =
      (record m' { updating = m'.server_cfg.model_control_cfg.auto_update }, returns success)

  unfoldable pub start_manager : World → ModelManager P → ModelManager P × Outcome Status
  start_manager w m =
      if m.running
      then (m, returns faield_model_manager_already_running)
      else after_load (record m { running = true }) (load_models w (record m { running = true }))

  -- The members as the constructor initializes them.
  abbrev pub empty_manager : ServerConfig → ModelManager P
  empty_manager server_cfg = record {
    server_cfg = server_cfg;
    model_map = [];
    running = false;
    updating = false;
    heap = [];
    next_address = 0;
  }

  -- The constructor, which ignores the status of Start; what Start throws passes through.
  unfoldable pub new_manager : World → ServerConfig → Outcome (ModelManager P)
  new_manager w server_cfg = do
    (start_manager w (empty_manager server_cfg)).1
    returns (start_manager w (empty_manager server_cfg)).0

  -- ModelManager::Create; none is the null pointer.
  unfoldable pub create : World → Option ServerConfig → Outcome (Status × Option (ModelManager P))
  unfolding new_manager
  create w none = returns (failed_invalid_server_config, none)
  create w (some server_cfg) = new_manager w server_cfg >>= λ m. returns (success, some m)

  -- model_map_.clear()
  unfoldable pub clear_contexts : ModelManager P → Dict String (ModelRunContext P) → ModelManager P
  unfolding destroy_context
  clear_contexts m [] = record m { model_map = [] }
  clear_contexts m ((name, ctx) ∷ rest) = clear_contexts (destroy_context m ctx) rest

  -- Stop lowers the flag and joins the update thread before it clears the map.
  unfoldable pub stop_manager : ModelManager P → ModelManager P × Status
  unfolding clear_contexts
  stop_manager m =
      let stopping = record m { running = false; updating = false } in
      (clear_contexts stopping stopping.model_map, success)

  -- UploadLoop, with the world at each time it wakes; `returns (m, true)` is after its `break`.
  unfoldable pub upload_loop : List World → ModelManager P → Outcome (ModelManager P × Bool)
  upload_loop [] m = returns (m, false)
  upload_loop (w ∷ ws) m =
      let again = load_models w m >>= upload_loop ws in
      if m.running then again else returns (m, true)

  abbrev pub stored :
      ModelManager P
      → String
      → ModelRunContext P
      → Option (SimpleScheduler P ℕ × Status)
      → Option (ModelManager P × Status)
  stored m name ctx none = none
  stored m name ctx (some (s, status)) =
      some
        (record m { model_map = Dict.put name (record ctx { scheduler = s }) m.model_map }, status)

  abbrev pub infer_on :
      ModelManager P → String → P → Option (ModelRunContext P) → Option (ModelManager P × Status)
  infer_on m name payload none = some (m, failed_infer_no_backend_found)
  infer_on m name payload (some ctx) = stored m name ctx (enqueue ctx.scheduler payload)

  -- InferAsync of a payload for a model; none while it waits in the queue, with the lock held. The
  -- version that the payload asks for is read and not used.
  unfoldable pub infer_async : ModelManager P → String → ℤ → P → Option (ModelManager P × Status)
  infer_async m model_name model_version payload =
      infer_on m model_name payload (Dict.find model_name m.model_map)

  -- GetModelStatus
  unfoldable pub status_of :
      Dict String (ModelRunContext P) → Dict String ModelStatus → Dict String ModelStatus
  status_of [] out = out
  status_of ((name, ctx) ∷ rest) out =
      status_of rest
        (Dict.put name (Dict.put ctx.backend_info.model_version ModelReadyState.model_ready []) out)

  unfoldable pub get_model_status : ModelManager P → Dict String ModelStatus
  unfolding status_of
  get_model_status m = status_of m.model_map []

  unfoldable pub get_number_of_live_models : ModelManager P → ℕ
  get_number_of_live_models m = length m.model_map
