-- ===== src/Manager/Dangling.antt =====
-- Backends that ModelManager (src/core/model_manager/model_manager.cc) destroys while a runner may still
-- be in them.
use model_inference_server.Common.{
  ℕ, ◌≡◌, ◌∙◌, inl, inr, none, some, arith, string_key, nat_key, str_eq_iff, nat_eq_iff,
}
use model_inference_server.Common.Dict
use model_inference_server.Common.Dict.{
  Dict, IsDict, find-put, find-insert, find-erase, put-IsDict, insert-IsDict, erase-IsDict,
}
use model_inference_server.Scheduler.{update_backend_infer_func}
use model_inference_server.Manager.{World, ModelRunContext, ModelManager, ModelLoadInfo, allocate}
use model_inference_server.Manager.Load.{CanLoad, load_model_cases}
use model_inference_server.Manager.Cycle.{update_model}
use model_inference_server.Manager.Ownership.{Sound, allocate-Sound}
use model_inference_server.Common.{get_elem?}
use model_inference_server.Manager.Reload.{renewed, update_model-loaded}
use model_inference_server.Scheduler.{calling}

module _ {P : Type 0} where
  -- Updating a model destroys the old backend at once, while the scheduler's runners stand where they
  -- stood: one that is in a call of the old backend is then in a backend that is gone.
  pub update_model_dangles :
      (w : World) (m : ModelManager P) (info : ModelLoadInfo) (ctx : ModelRunContext P) (i : ℕ)
      (p : P)
      → Sound m
      → CanLoad w m.server_cfg.model_repo_path info.model_name
      → Dict.find info.model_name m.model_map ≡ some ctx
      → get_elem? ctx.scheduler.threads i ≡ some (calling p ctx.backend_info.backend)
      → let m' = update_model w m info in
        (ctx' : ModelRunContext P) × (Dict.find info.model_name m'.model_map ≡ some ctx')
        × (get_elem? ctx'.scheduler.threads i ≡ some (calling p ctx.backend_info.backend))
        × (Dict.find ctx.backend_info.backend m'.heap ≡ none)
  update_model_dangles w m info ctx i p v can h busy = elim (load_model_cases w m info) [
    | inr (bad, e) ↦ absurd (bad can)
    | inl (_, l) ↦ (
      renewed ctx l.bi,
      rw (update_model-loaded w m info l ctx h) (
          find-put info.model_name info.model_name (renewed ctx l.bi) m.model_map
          ∙ ground (arith, str_eq_iff info.model_name info.model_name)),
      unfold update_backend_infer_func in busy,
      rw (update_model-loaded w m info l ctx h) (
          find-erase ctx.backend_info.backend ctx.backend_info.backend (allocate m l.b).heap
            (allocate-Sound v l.b).heap_ok
          ∙ ground (arith, nat_eq_iff ctx.backend_info.backend ctx.backend_info.backend)),
    )
  ]
