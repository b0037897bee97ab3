-- ===== src/Manager/Reload.antt =====
-- LoadModels (src/core/model_manager/model_manager.cc) keeps every entry of the map sound.
use model_inference_server.Common.{
  ℕ, ◌≡◌, refl, sym, ap, ◌∙◌, ◌≢◌, inl, inr, none, some, Option-cases, String, arith, string_key,
  nat_key,
}
use model_inference_server.Common.Dict
use model_inference_server.Common.Dict.{
  Dict, IsDict, find-put, find-insert, find-erase, put-IsDict, insert-IsDict, erase-IsDict,
}
use model_inference_server.Scheduler.{start, new_scheduler, update_backend_infer_func}
use model_inference_server.Manager.{
  World, BackendInfo, ModelRunContext, ModelManager, ModelLoadInfo, allocate, release_backend,
}
use model_inference_server.Manager.Load.{Loads, load_model_cases}
use model_inference_server.Manager.Cycle.{new_context, add_model, update_model}
use model_inference_server.Manager.Ownership.{
  Owns, Sound, below, allocate-Sound, release-Sound, IsSetAt, set-cases, set-Sound,
}

module _ {P : Type 0} where
  -- The entry that is made for a loaded backend.
  fresh-Owns :
      (w : World) (m : ModelManager P) (info : ModelLoadInfo) (l : Loads w m info)
      (ctx : ModelRunContext P)
      → ctx.backend_info ≡ l.bi
      → ctx.scheduler.infer_func ≡ l.bi.backend
      → Owns (allocate m l.b).heap info.model_name ctx
  fresh-Owns w m info l ctx ei ef = record {
    bound = ground (arith);
    live = l.b;
    at = ground (arith, l.at);
    named = l.names.1;
    versioned = ground (arith, l.versions);
  }

  new_context-infer_func :
      (m : ModelManager P) (bi : BackendInfo) → (new_context m bi).scheduler.infer_func ≡ bi.backend
  unfolding new_context start new_scheduler
  new_context-infer_func m bi = refl

  pub new_context-info :
      (m : ModelManager P) (bi : BackendInfo) → (new_context m bi).backend_info ≡ bi
  unfolding new_context
  new_context-info m bi = refl

  insert-IsSetAt :
      (m : ModelManager P) (name : String) (ctx : ModelRunContext P)
      → IsDict m.model_map
      → Dict.find name m.model_map ≡ none
      → IsSetAt m name ctx (Dict.insert name ctx m.model_map)
  insert-IsSetAt m name ctx ok free = record {
    ok = insert-IsDict name ctx m.model_map ok;
    law = λ j. find-insert name j ctx m.model_map ∙ rw free;
  }

  pub put-IsSetAt :
      (m : ModelManager P) (name : String) (ctx : ModelRunContext P)
      → IsDict m.model_map
      → IsSetAt m name ctx (Dict.put name ctx m.model_map)
  put-IsSetAt m name ctx ok = record {
    ok = put-IsDict name ctx m.model_map ok;
    law = λ j. find-put name j ctx m.model_map;
  }

  unused :
      {m : ModelManager P} (v : Sound m) (a : ℕ)
      → a ≡ m.next_address
      → (n : String) (c : ModelRunContext P) → Dict.find n m.model_map ≡ some c
      → c.backend_info.backend ≢ a
  unused v a e n c h q = omega (arith, below v n c h)

  pub add_model-Sound :
      (w : World) (m : ModelManager P) (info : ModelLoadInfo) → Sound m → Sound (add_model w m info)
  add_model-Sound w m info v = elim (load_model_cases w m info) [
    | inr (bad, e) ↦ unfold add_model in rw e v
    | inl (can, l) ↦ elim (Option-cases (Dict.find info.model_name m.model_map)) [
      | inl free ↦
          unfold add_model in
          rw (l.result, free)
            (set-Sound (allocate-Sound v l.b) info.model_name (new_context (allocate m l.b) l.bi) _
              (insert-IsSetAt (allocate m l.b) info.model_name _ v.map_ok free)
              (fresh-Owns w m info l (new_context (allocate m l.b) l.bi)
                (new_context-info (allocate m l.b) l.bi)
                (new_context-infer_func (allocate m l.b) l.bi))
              (λ n c ne h q.
                unused v l.bi.backend l.at n c h
                  (q ∙ ap (λ x. x.backend) (new_context-info (allocate m l.b) l.bi))))
      | inr (old, taken) ↦
          unfold add_model in
          rw (l.result, taken)
            (release-Sound (allocate-Sound v l.b) l.bi.backend (unused v l.bi.backend l.at))
    ]
  ]

  -- The entry of an updated model.
  abbrev pub renewed : ModelRunContext P → BackendInfo → ModelRunContext P
  renewed ctx bi = record {
    scheduler = (update_backend_infer_func ctx.scheduler bi.backend).0;
    backend_info = bi;
  }

  renewed-infer_func :
      (ctx : ModelRunContext P) (bi : BackendInfo)
      → (renewed ctx bi).scheduler.infer_func ≡ bi.backend
  unfolding update_backend_infer_func
  renewed-infer_func ctx bi = refl

  pub update_model-loaded :
      (w : World) (m : ModelManager P) (info : ModelLoadInfo) (l : Loads w m info)
      (ctx : ModelRunContext P)
      → Dict.find info.model_name m.model_map ≡ some ctx
      → update_model w m info
        ≡ release_backend
            (record (allocate m l.b) {
              model_map = Dict.put info.model_name (renewed ctx l.bi) m.model_map;
            })
            ctx.backend_info.backend
  unfolding update_model
  update_model-loaded w m info l ctx h = rw (l.result, h)

  -- No entry of the map in which an entry was renewed points to its old backend.
  old-unused :
      {m : ModelManager P} (v : Sound m) (name : String) (ctx ctx' : ModelRunContext P)
      → Dict.find name m.model_map ≡ some ctx
      → ctx'.backend_info.backend ≡ m.next_address
      → (n : String) (c : ModelRunContext P) → Dict.find n (Dict.put name ctx' m.model_map) ≡ some c
      → c.backend_info.backend ≢ ctx.backend_info.backend
  old-unused {m} v name ctx ctx' h new n c hc q =
      elim (set-cases (put-IsSetAt m name ctx' v.map_ok) n c hc) [
        | inl (same, e) ↦ omega (arith, below v name ctx h, ap (λ x. x.backend_info.backend) e)
        | inr (other, old) ↦ other (sym (v.apart n name c ctx old h q))
      ]

  pub update_model-Sound :
      (w : World) (m : ModelManager P) (info : ModelLoadInfo)
      → Sound m
      → Sound (update_model w m info)
  update_model-Sound w m info v = elim (load_model_cases w m info) [
    | inr (bad, e) ↦ unfold update_model in rw e v
    | inl (can, l) ↦ elim (Option-cases (Dict.find info.model_name m.model_map)) [
      | inl gone ↦
          unfold update_model in
          rw (l.result, gone)
            (release-Sound (allocate-Sound v l.b) l.bi.backend (unused v l.bi.backend l.at))
      | inr (ctx, old) ↦
          unfold update_model in
          rw (l.result, old)
            (release-Sound
              (set-Sound (allocate-Sound v l.b) info.model_name (renewed ctx l.bi) _
                (put-IsSetAt (allocate m l.b) info.model_name _ v.map_ok)
                (fresh-Owns w m info l (renewed ctx l.bi) refl (renewed-infer_func ctx l.bi))
                (λ n c ne h q. unused v l.bi.backend l.at n c h q))
              ctx.backend_info.backend
              (old-unused v info.model_name ctx (renewed ctx l.bi) old l.at))
    ]
  ]
