-- ===== src/Manager/Instances.antt =====
-- The runners of a model's scheduler and the contexts of its backend
-- (src/core/model_manager/model_manager.cc, src/core/backend/backend_common.cc): runner `idx` calls Run with
-- `idx`.
use model_inference_server.Common.{
  ℕ, ◌<◌, ◌^◌, ◌%◌, ◌≡◌, refl, ◌∙◌, none, some, inl, inr, Option-cases, arith, length,
  length-replicate, get_elem?, get_elem?-eq-none_iff, pos, pos_part, to_signed, string_key, nat_key,
  str_eq_iff, nat_eq_iff,
}
use model_inference_server.Common.Dict
use model_inference_server.Common.Dict.{find-put, find-insert}
use model_inference_server.Status.{Status}
use model_inference_server.Backend.{BackendContext, run}
use model_inference_server.Backend.Running.{run_in_range, run_undefined_iff}
use model_inference_server.Scheduler.{
  Runner, testing, start, new_scheduler, update_backend_infer_func,
}
use model_inference_server.Manager.{World, ModelRunContext, ModelManager, ModelLoadInfo, allocate}
use model_inference_server.Manager.Load.{Loads}
use model_inference_server.Manager.Cycle.{instance_num, new_context, add_model, update_model}
use model_inference_server.Manager.Reload.{renewed, update_model-loaded}

as_int32 : (n : ℕ) → n < 2 ^ 31 → pos_part (to_signed 31 (n % 2 ^ 32)) ≡ n
as_int32 n h = ground arith

module _ {P : Type 0} (w : World) (m : ModelManager P) (info : ModelLoadInfo)
    (l : Loads w m info) where
  instance_num-allocate : instance_num (allocate m l.b) l.bi.backend ≡ length l.b.contexts
  unfolding instance_num
  instance_num-allocate = ground (arith, l.at, nat_eq_iff m.next_address m.next_address)

  runners-new_context :
      length l.b.contexts < 2 ^ 31
      → length (new_context (allocate m l.b) l.bi).scheduler.threads ≡ length l.b.contexts
  unfolding new_context start new_scheduler
  runners-new_context h =
      let new : Runner P ℕ = testing in
      length-replicate
        (pos_part (to_signed 31 (instance_num (allocate m l.b) l.bi.backend % 2 ^ 32))) new
      ∙ rw instance_num-allocate (as_int32 (length l.b.contexts) h)

  -- LoadModels adds a model that can be loaded and whose name is free, with fewer than 2^31 contexts: it
  -- has a runner for each context of its backend, and its scheduler's function is bound to the address
  -- at which that backend stands. Alone, a call of Run with a runner's number runs the context of that
  -- number, returns what that returns, and leaves the backend as it was.
  pub added_runners :
      (context_run : BackendContext → Status)
      → Dict.find info.model_name m.model_map ≡ none
      → length l.b.contexts < 2 ^ 31
      → (ctx : ModelRunContext P) × (Dict.find info.model_name (add_model w m info).model_map
          ≡ some ctx)
        × (length ctx.scheduler.threads ≡ length l.b.contexts)
        × (Dict.find ctx.scheduler.infer_func (add_model w m info).heap ≡ some l.b)
        × ((i : ℕ)
            → i < length ctx.scheduler.threads
            → (c : BackendContext) × (get_elem? l.b.contexts i ≡ some c)
              × (run l.b (pos i) context_run ≡ some (l.b, context_run c)))
  added_runners context_run free few =
      let ctx = new_context (allocate m l.b) l.bi in
      let same = runners-new_context few in
      let bound : ctx.scheduler.infer_func ≡ l.bi.backend =
        unfold new_context start new_scheduler in refl in
      (
        ctx,
        unfold add_model in
            rw (l.result, free)
              (find-insert info.model_name info.model_name ctx m.model_map
                ∙ ground (arith, free, str_eq_iff info.model_name info.model_name)),
        same,
        unfold add_model in
            rw (l.result, free, bound)
              (ground (arith, l.at, nat_eq_iff m.next_address m.next_address)),
        λ i h. run_in_range l.b i context_run (omega (arith, same, h)) l.idle,
      )

  -- An update to a backend with fewer contexts than the scheduler has runners keeps all of them, and
  -- binds the function to the new backend: there is a runner whose number is that of the contexts, and
  -- its call of Run, on the new backend, reads beyond the contexts.
  pub updated_overruns :
      (ctx : ModelRunContext P) (context_run : BackendContext → Status)
      → Dict.find info.model_name m.model_map ≡ some ctx
      → length l.b.contexts < length ctx.scheduler.threads
      → (ctx' : ModelRunContext P) × (Dict.find info.model_name (update_model w m info).model_map
          ≡ some ctx')
        × (ctx'.scheduler.infer_func ≡ l.bi.backend)
        × (ctx'.scheduler.threads ≡ ctx.scheduler.threads)
        × (r : Runner P ℕ) × (get_elem? ctx'.scheduler.threads (length l.b.contexts) ≡ some r)
        × (run l.b (pos (length l.b.contexts)) context_run ≡ none)
  updated_overruns ctx context_run h more =
      let k = length l.b.contexts in
      let (r, at) : (r : Runner P ℕ) × (get_elem? ctx.scheduler.threads k ≡ some r) =
        elim (Option-cases (get_elem? ctx.scheduler.threads k)) [
          | inl e ↦
              absurd (omega (arith, (get_elem?-eq-none_iff ctx.scheduler.threads k).0 e, more))
          | inr found ↦ found
        ] in
      (
        renewed ctx l.bi,
        rw (update_model-loaded w m info l ctx h) (
            find-put info.model_name info.model_name (renewed ctx l.bi) m.model_map
            ∙ ground (arith, str_eq_iff info.model_name info.model_name)),
        unfold update_backend_infer_func in refl,
        unfold update_backend_infer_func in refl,
        r,
        unfold update_backend_infer_func in at,
        (run_undefined_iff l.b (pos k) context_run).1 refl,
      )
