-- ===== src/Manager/Scan.antt =====
-- What GetModelStateUpdate (src/core/model_manager/model_manager.cc) lists.
use model_inference_server.Common.{
  ◌≡◌, refl, ap, ◌∙◌, subst, ◌≢◌, ◌↔◌, inl, inr, true, false, Bool-cases, Option, none, some,
  String, List, [], ◌∷◌, contains, ℤ, negsuc, eqb_ℤ, int_key, arith, str_eq, str_eq_iff, string_key,
  eqb_ℤ_iff,
}
use model_inference_server.Common.Dict
use model_inference_server.Common.Dict.{Dict}
use model_inference_server.Outcome.{Outcome, returns, >>=-eq-returns}
use model_inference_server.Backend.{ModelConfig}
use model_inference_server.Files.{get_directory_sub_dirs}
use model_inference_server.Manager.{
  World, ModelRunContext, ModelManager, StateUpdate, read_config, get_highest_version,
  deleted_models, classify, visit, visit_models, get_model_state_update,
}
use model_inference_server.Manager.Scanned.{Scanned, classified, passed_over}

module _ {P : Type 0} where
  classify-deleted :
      (d : String) (v : ℤ) (o : Option (ModelRunContext P)) (u : StateUpdate)
      → (classify d v o u).deleted ≡ u.deleted
  classify-deleted d v none u = refl
  classify-deleted d v (some ctx) u = ground arith

  -- One pass of the loop, with what the later passes come to.
  visit-Scanned :
      (w : World) (repo : String) (m : Dict String (ModelRunContext P)) (dirs : List String)
      (d : String) (rest : Outcome StateUpdate) (deleted : List String) (u : StateUpdate)
      (name : String) (version : ℤ) (o : Option ModelConfig)
      → ((later : StateUpdate)
          → rest ≡ returns later
          → Scanned w repo m dirs name version later × (later.deleted ≡ deleted))
      → read_config w repo d ≡ o
      → visit w repo m d o rest ≡ returns u
      → Scanned w repo m (d ∷ dirs) name version u × (u.deleted ≡ deleted)
  visit-Scanned w repo m dirs d rest deleted u name version none ih eo e =
      (passed_over w repo m dirs d u name version (λ v q. q.0 eo) (ih u e).0, (ih u e).1)
  visit-Scanned w repo m dirs d rest deleted u name version (some cfg) ih eo e =
      let (v, ev, e1) = >>=-eq-returns (get_highest_version w repo d) _ e in
      let (later, el, e2) = >>=-eq-returns rest _ e1 in
      let (s, kept) = ih later el in
      elim (Bool-cases (eqb_ℤ v (negsuc 0))) [
        | inl missing ↦
            let same : later ≡ u = ground arith in
            subst (λ t. Scanned w repo m (d ∷ dirs) name version t × (t.deleted ≡ deleted)) same
              (
                passed_over w repo m dirs d later name version
                    (λ x q. ground (arith, q, ev, eqb_ℤ_iff v (negsuc 0))) s,
                kept,
              )
        | inr there ↦
            let same : classify d v (Dict.find d m) later ≡ u = ground arith in
            subst (λ t. Scanned w repo m (d ∷ dirs) name version t × (t.deleted ≡ deleted)) same
              (
                classified w repo m dirs d v later name version (Dict.find d m) refl
                    ((λ h. cc (eo, h)), ev, ground (eqb_ℤ_iff v (negsuc 0), arith)) s,
                classify-deleted d v (Dict.find d m) later ∙ kept,
              )
      ]

  visited :
      (w : World) (repo : String) (m : Dict String (ModelRunContext P)) (deleted dirs : List String)
      (u : StateUpdate) (name : String) (version : ℤ)
      → visit_models w repo m deleted dirs ≡ returns u
      → Scanned w repo m dirs name version u × (u.deleted ≡ deleted)
  unfolding visit_models
  visited w repo m deleted [] u name version e = ground arith
  visited w repo m deleted (d ∷ dirs) u name version e =
      visit-Scanned w repo m dirs d (visit_models w repo m deleted dirs) deleted u name version
        (read_config w repo d) (λ later el. visited w repo m deleted dirs later name version el)
        refl e

  contains-deleted_models :
      (dirs : List String) (m : Dict String (ModelRunContext P)) (name : String)
      → (contains (deleted_models dirs m) name ≡ true)
        ↔ ((Dict.find name m ≢ none) × (contains dirs name ≡ false))
  unfolding deleted_models
  contains-deleted_models dirs [] name = ground arith
  contains-deleted_models dirs ((n, ctx) ∷ m) name =
      let ih = contains-deleted_models dirs m name in
      elim (Bool-cases (str_eq n name)) [
        | inr other ↦ elim (Bool-cases (contains dirs n)) [
          | inl kept ↦ ground (arith, ih)
          | inr gone ↦ ground (arith, ih)
        ]
        | inl same ↦
            let moved = ap (contains dirs) ((str_eq_iff n name).0 same) in
            elim (Bool-cases (contains dirs n)) [
              | inl kept ↦ ground (arith, ih, moved)
              | inr gone ↦ ground (arith, ih, moved)
            ]
      ]

  pub get_model_state_update_lists :
      (w : World) (m : ModelManager P) (u : StateUpdate) (name : String) (version : ℤ)
      → get_model_state_update w m ≡ returns u
      → (dirs : List String) × (get_directory_sub_dirs w.boost m.server_cfg.model_repo_path
          ≡ returns dirs)
        × Scanned w m.server_cfg.model_repo_path m.model_map dirs name version u
        × ((contains u.deleted name ≡ true)
            ↔ ((Dict.find name m.model_map ≢ none) × (contains dirs name ≡ false)))
  unfolding get_model_state_update
  get_model_state_update_lists w m u name version e =
      let repo = m.server_cfg.model_repo_path in
      let (dirs, ed, ev) = >>=-eq-returns (get_directory_sub_dirs w.boost repo) _ e in
      let (s, deleted) =
        visited w repo m.model_map (deleted_models dirs m.model_map) dirs u name version ev in
      (dirs, ed, s, rw deleted (contains-deleted_models dirs m.model_map name))
