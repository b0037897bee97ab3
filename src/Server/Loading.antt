-- ===== src/Server/Loading.antt =====
-- LoadModels and Stop of the manager (src/core/model_manager/model_manager.cc) lose no payload: each stays
-- with its scheduler, which stays in the map or retires.
use model_inference_server.Common.{
  ℕ, ◌+◌, ◌^◌, ◌%◌, ◌≡◌, refl, sym, ap, ◌∙◌, subst, false, inl, inr, Option-cases, List, [], ◌∷◌,
  arith, String, to_signed, pos_part, nat_key, string_key,
}
use model_inference_server.Common.Dict
use model_inference_server.Common.Dict.{Dict}
use model_inference_server.Scheduler.{start, new_scheduler, update_backend_infer_func}
use model_inference_server.Scheduler.Delivery.{held-spawned}
use model_inference_server.Manager.{
  World, BackendInfo, ModelRunContext, ModelManager, ModelLoadInfo, StateUpdate, allocate,
}
use model_inference_server.Manager.Cycle.{
  new_context, instance_num, add_model, update_model, delete_model, destroy_context, each,
  apply_update, stop_manager,
}
use model_inference_server.Manager.Load.{load_model_cases}
use model_inference_server.Manager.Reload.{renewed, update_model-loaded}
use model_inference_server.Manager.Requests.{cleared}
use model_inference_server.Server.{retire, retired, all_retired}
use model_inference_server.Server.Places.{
  in_scheduler, in_map, in_retiring, in_map-put, in_map-insert, in_map-erase,
}

module _ (a : ℕ) where
  new_context-empty :
      (m : ModelManager ℕ) (bi : BackendInfo) → in_scheduler a (new_context m bi).scheduler ≡ 0
  unfolding new_context new_scheduler start
  new_context-empty m bi =
      omega (arith, held-spawned ℕ a (pos_part (to_signed 31 (instance_num m bi.backend % 2 ^ 32))))

  renewed-places :
      (ctx : ModelRunContext ℕ) (bi : BackendInfo)
      → in_scheduler a (renewed ctx bi).scheduler ≡ in_scheduler a ctx.scheduler
  unfolding update_backend_infer_func
  renewed-places ctx bi = refl

  in_map-add_model :
      (w : World) (m : ModelManager ℕ) (i : ModelLoadInfo)
      → in_map a (add_model w m i).model_map ≡ in_map a m.model_map
  in_map-add_model w m i = elim (load_model_cases w m i) [
    | inr (_, e) ↦ unfold add_model in rw e refl
    | inl (_, l) ↦ elim (Option-cases (Dict.find i.model_name m.model_map)) [
      | inr (ctx, e) ↦ unfold add_model in rw (l.result, e) refl
      | inl free ↦
          unfold add_model in
          rw (l.result, free)
            (in_map-insert a m.model_map i.model_name (new_context (allocate m l.b) l.bi) free
              ∙ omega (arith, new_context-empty (allocate m l.b) l.bi))
    ]
  ]

  in_map-update_model :
      (w : World) (m : ModelManager ℕ) (i : ModelLoadInfo)
      → in_map a (update_model w m i).model_map ≡ in_map a m.model_map
  in_map-update_model w m i = elim (load_model_cases w m i) [
    | inr (_, e) ↦ unfold update_model in rw e refl
    | inl (_, l) ↦ elim (Option-cases (Dict.find i.model_name m.model_map)) [
      | inl gone ↦ unfold update_model in rw (l.result, gone) refl
      | inr (ctx, e) ↦ rw (update_model-loaded w m i l ctx e) (
          omega (
            arith,
            in_map-put a m.model_map i.model_name ctx (renewed ctx l.bi) e,
            renewed-places ctx l.bi,
          ))
    ]
  ]

  in_map-each :
      (f : ModelManager ℕ → ModelLoadInfo → ModelManager ℕ)
      → ((m : ModelManager ℕ) (i : ModelLoadInfo)
          → in_map a (f m i).model_map ≡ in_map a m.model_map)
      → (m : ModelManager ℕ) (is : List ModelLoadInfo)
      → in_map a (each f m is).model_map ≡ in_map a m.model_map
  in_map-each f same m [] = refl
  in_map-each f same m (i ∷ is) = in_map-each f same (f m i) is ∙ same m i

  in_map-delete_models :
      (m : ModelManager ℕ) (gone : List String)
      → in_map a (each delete_model m gone).model_map + in_retiring a (retired m gone)
        ≡ in_map a m.model_map
  unfolding retired
  in_map-delete_models m [] = omega arith
  in_map-delete_models m (g ∷ gone) =
      let total = in_map a (each delete_model (delete_model m g) gone).model_map in
      let later = retired (delete_model m g) gone in
      elim (Option-cases (Dict.find g m.model_map)) [
        | inl e ↦
            let same : in_map a (delete_model m g).model_map ≡ in_map a m.model_map =
              unfold delete_model in rw e refl in
            subst (λ o. total + in_retiring a (retire o later) ≡ in_map a m.model_map) (sym e)
              (in_map-delete_models (delete_model m g) gone ∙ same)
        | inr (ctx, e) ↦
            let less : in_map a (delete_model m g).model_map + in_scheduler a ctx.scheduler
                ≡ in_map a m.model_map =
              unfold delete_model destroy_context in rw e (in_map-erase a m.model_map g ctx e) in
            subst (λ o. total + in_retiring a (retire o later) ≡ in_map a m.model_map) (sym e)
              (omega (arith, in_map-delete_models (delete_model m g) gone, less))
      ]

  pub in_map-apply_update :
      (w : World) (m : ModelManager ℕ) (u : StateUpdate)
      → in_map a (apply_update w m u).model_map
          + in_retiring a
              (retired (each (update_model w) (each (add_model w) m u.added) u.updated) u.deleted)
        ≡ in_map a m.model_map
  unfolding apply_update
  in_map-apply_update w m u =
      in_map-delete_models _ u.deleted
      ∙ in_map-each (update_model w) (in_map-update_model w) _ u.updated
      ∙ in_map-each (add_model w) (in_map-add_model w) m u.added

  pub in_retiring-all_retired :
      (m : Dict String (ModelRunContext ℕ)) → in_retiring a (all_retired m) ≡ in_map a m
  in_retiring-all_retired [] = refl
  in_retiring-all_retired ((n, ctx) ∷ m) = omega (arith, in_retiring-all_retired m)

  pub in_map-stop_manager : (m : ModelManager ℕ) → in_map a (stop_manager m).0.model_map ≡ 0
  in_map-stop_manager m =
      let stopping = record m { running = false; updating = false } in
      unfold stop_manager in ap (in_map a) (cleared stopping m.model_map).0
