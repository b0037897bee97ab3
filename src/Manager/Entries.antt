-- ===== src/Manager/Entries.antt =====
-- What one pass of LoadModels (src/core/model_manager/model_manager.cc) does to an entry of the map.
use model_inference_server.Common.{
  ◌≡◌, refl, ap, ◌∙◌, ◌≢◌, inl, inr, Option, none, some, Option-cases, String, ℤ, arith, str_eq,
  str_eq_iff, string_key, nat_key, if◌then◌else◌,
}
use model_inference_server.Common.Dict
use model_inference_server.Common.Dict.{find-put, find-insert, find-erase}
use model_inference_server.Manager.{World, ModelRunContext, ModelManager, ModelLoadInfo, allocate}
use model_inference_server.Manager.Cycle.{
  new_context, add_model, update_model, delete_model, destroy_context,
}
use model_inference_server.Manager.Load.{CanLoad, load_model_cases}
use model_inference_server.Manager.Ownership.{Sound}
use model_inference_server.Manager.Reload.{renewed, update_model-loaded, new_context-info}

module _ {P : Type 0} where
  abbrev pub version_of : Option (ModelRunContext P) → Option ℤ
  version_of none = none
  version_of (some ctx) = some ctx.backend_info.model_version

  -- The version that is served under a name.
  abbrev pub served : ModelManager P → String → Option ℤ
  served m name = version_of (Dict.find name m.model_map)

  pub served-some :
      (m : ModelManager P) (name : String) (version : ℤ)
      → served m name ≡ some version
      → (ctx : ModelRunContext P) × (Dict.find name m.model_map ≡ some ctx)
  served-some m name version h = elim (Option-cases (Dict.find name m.model_map)) [
    | inl e ↦ absurd (ground (arith, h, e))
    | inr found ↦ found
  ]

  module _ (w : World) (m : ModelManager P) (info : ModelLoadInfo) where
    pub add_model-unloadable :
        ¬ CanLoad w m.server_cfg.model_repo_path info.model_name → add_model w m info ≡ m
    add_model-unloadable bad = elim (load_model_cases w m info) [
      | inr (_, e) ↦ unfold add_model in rw e refl
      | inl (can, _) ↦ absurd (bad can)
    ]

    pub update_model-unloadable :
        ¬ CanLoad w m.server_cfg.model_repo_path info.model_name → update_model w m info ≡ m
    update_model-unloadable bad = elim (load_model_cases w m info) [
      | inr (_, e) ↦ unfold update_model in rw e refl
      | inl (can, _) ↦ absurd (bad can)
    ]

    pub add_model-taken :
        (ctx : ModelRunContext P)
        → Dict.find info.model_name m.model_map ≡ some ctx
        → (add_model w m info).model_map ≡ m.model_map
    add_model-taken ctx h = elim (load_model_cases w m info) [
      | inr (_, e) ↦ unfold add_model in rw e refl
      | inl (_, l) ↦ unfold add_model in rw (l.result, h) refl
    ]

    pub add_model-other :
        (name : String)
        → info.model_name ≢ name
        → Dict.find name (add_model w m info).model_map ≡ Dict.find name m.model_map
    add_model-other name ne = elim (load_model_cases w m info) [
      | inr (_, e) ↦ unfold add_model in rw e refl
      | inl (_, l) ↦ elim (Option-cases (Dict.find info.model_name m.model_map)) [
        | inl free ↦
            unfold add_model in
            rw (l.result, free)
              (find-insert info.model_name name (new_context _ l.bi) m.model_map
                ∙ ground (arith, str_eq_iff info.model_name name))
        | inr (ctx, e) ↦ unfold add_model in rw (l.result, e) refl
      ]
    ]

    pub add_model-serves :
        CanLoad w m.server_cfg.model_repo_path info.model_name
        → Dict.find info.model_name m.model_map ≡ none
        → served (add_model w m info) info.model_name ≡ some info.model_version
    add_model-serves can free = elim (load_model_cases w m info) [
      | inr (bad, _) ↦ absurd (bad can)
      | inl (_, l) ↦
          let entry = new_context (allocate m l.b) l.bi in
          let at : Dict.find info.model_name (Dict.insert info.model_name entry m.model_map)
              ≡ some entry =
            find-insert info.model_name info.model_name entry m.model_map
            ∙ ground (arith, free, str_eq_iff info.model_name info.model_name) in
          unfold add_model in
          rw (l.result, free)
            (ap version_of at
              ∙ ap (λ i. some i.model_version) (new_context-info (allocate m l.b) l.bi)
              ∙ ap some l.versions.0)
    ]

    pub update_model-other :
        (name : String)
        → info.model_name ≢ name
        → Dict.find name (update_model w m info).model_map ≡ Dict.find name m.model_map
    update_model-other name ne = elim (load_model_cases w m info) [
      | inr (_, e) ↦ unfold update_model in rw e refl
      | inl (_, l) ↦ elim (Option-cases (Dict.find info.model_name m.model_map)) [
        | inl gone ↦ unfold update_model in rw (l.result, gone) refl
        | inr (ctx, e) ↦ rw (update_model-loaded w m info l ctx e) (
            find-put info.model_name name (renewed ctx l.bi) m.model_map
            ∙ ground (arith, str_eq_iff info.model_name name))
      ]
    ]

    pub update_model-serves :
        CanLoad w m.server_cfg.model_repo_path info.model_name
        → (ctx : ModelRunContext P) → Dict.find info.model_name m.model_map ≡ some ctx
        → served (update_model w m info) info.model_name ≡ some info.model_version
    update_model-serves can ctx h = elim (load_model_cases w m info) [
      | inr (bad, _) ↦ absurd (bad can)
      | inl (_, l) ↦
          let at : Dict.find info.model_name
                (Dict.put info.model_name (renewed ctx l.bi) m.model_map)
              ≡ some (renewed ctx l.bi) =
            find-put info.model_name info.model_name (renewed ctx l.bi) m.model_map
            ∙ ground (arith, str_eq_iff info.model_name info.model_name) in
          rw (update_model-loaded w m info l ctx h) (ap version_of at ∙ ap some l.versions.0)
    ]

    pub add_model-cfg : (add_model w m info).server_cfg ≡ m.server_cfg
    add_model-cfg = elim (load_model_cases w m info) [
      | inr (_, e) ↦ unfold add_model in rw e refl
      | inl (_, l) ↦ elim (Option-cases (Dict.find info.model_name m.model_map)) [
        | inl free ↦ unfold add_model in rw (l.result, free) refl
        | inr (ctx, e) ↦ unfold add_model in rw (l.result, e) refl
      ]
    ]

    pub update_model-cfg : (update_model w m info).server_cfg ≡ m.server_cfg
    update_model-cfg = elim (load_model_cases w m info) [
      | inr (_, e) ↦ unfold update_model in rw e refl
      | inl (_, l) ↦ elim (Option-cases (Dict.find info.model_name m.model_map)) [
        | inl gone ↦ unfold update_model in rw (l.result, gone) refl
        | inr (ctx, e) ↦ rw (update_model-loaded w m info l ctx e) refl
      ]
    ]

  pub find-delete_model :
      (m : ModelManager P) (gone name : String)
      → Sound m
      → Dict.find name (delete_model m gone).model_map
        ≡ (if str_eq gone name then none else Dict.find name m.model_map)
  find-delete_model m gone name v = elim (Option-cases (Dict.find gone m.model_map)) [
    | inl e ↦ unfold delete_model in rw e (ground (arith, e, str_eq_iff gone name))
    | inr (ctx, e) ↦
        unfold delete_model destroy_context in rw e (find-erase gone name m.model_map v.map_ok)
  ]

  pub delete_model-cfg :
      (m : ModelManager P) (gone : String) → (delete_model m gone).server_cfg ≡ m.server_cfg
  delete_model-cfg m gone = elim (Option-cases (Dict.find gone m.model_map)) [
    | inl e ↦ unfold delete_model in rw e refl
    | inr (ctx, e) ↦ unfold delete_model destroy_context in rw e refl
  ]
