-- ===== src/Manager/Reconcile/Settled.antt =====
-- LoadModels (src/core/model_manager/model_manager.cc) once more over the same repository.
use model_inference_server.Common.{
  ◌≡◌, refl, sym, ap, ◌∙◌, subst, inl, inr, Option, none, some, true, String, List, [], ◌∷◌, All,
  contains, ℤ, negsuc, arith, str_eq_iff, string_key,
}
use model_inference_server.Common.Dict
use model_inference_server.Common.Dict.{Dict}
use model_inference_server.Outcome.{Outcome, returns, >>=-eq-returns}
use model_inference_server.Backend.{ModelConfig}
use model_inference_server.Files.{get_directory_sub_dirs}
use model_inference_server.Manager.{
  World, ModelRunContext, ModelManager, ModelLoadInfo, StateUpdate, read_config,
  get_highest_version, deleted_models, with_version, visit, visit_models, get_model_state_update,
}
use model_inference_server.Manager.Cycle.{
  add_model, update_model, delete_model, each, apply_update, load_models,
}
use model_inference_server.Manager.Ownership.{Sound}
use model_inference_server.Manager.Scanned.{Listed, Outdated, only_one}
use model_inference_server.Manager.Scan.{get_model_state_update_lists}
use model_inference_server.Manager.Entries.{
  version_of, add_model-unloadable, update_model-unloadable, add_model-cfg, update_model-cfg,
  delete_model-cfg,
}
use model_inference_server.Manager.Reconcile.{Reconciled, gone, current, kept}
use model_inference_server.Manager.Reconcile.Refinement.{load_models_reconciles}

All-items :
    (Q : ModelLoadInfo → Type 0) (is : List ModelLoadInfo)
    → ((i : ModelLoadInfo) → Listed i.model_name i.model_version is → Q i)
    → All Q is
All-items Q [] h = tt
All-items Q (i ∷ is) h = (h i (inl (refl, refl)), All-items Q is (λ j l. h j (inr l)))

All-names :
    (Q : String → Type 0) (names : List String)
    → ((name : String) → contains names name ≡ true → Q name)
    → All Q names
All-names Q [] h = tt
All-names Q (n ∷ ns) h =
    (h n (ground (arith, str_eq_iff n n)), All-names Q ns (λ name c. h name (ground (arith, c))))

module _ {P : Type 0} where
  each-same :
      {A : Type 0} (f : ModelManager P → A → ModelManager P) (m : ModelManager P) (xs : List A)
      → All (λ x. f m x ≡ m) xs
      → each f m xs ≡ m
  each-same f m [] h = refl
  each-same f m (x ∷ xs) h = rw (h.0) (each-same f m xs h.1)

  each-cfg :
      {A : Type 0} (f : ModelManager P → A → ModelManager P)
      → ((m : ModelManager P) (a : A) → (f m a).server_cfg ≡ m.server_cfg)
      → (m : ModelManager P) (xs : List A) → (each f m xs).server_cfg ≡ m.server_cfg
  each-cfg f step m [] = refl
  each-cfg f step m (x ∷ xs) = each-cfg f step (f m x) xs ∙ step m x

  apply_update-cfg :
      (w : World) (m : ModelManager P) (u : StateUpdate)
      → (apply_update w m u).server_cfg ≡ m.server_cfg
  unfolding apply_update
  apply_update-cfg w m u =
      each-cfg delete_model delete_model-cfg _ u.deleted
      ∙ each-cfg (update_model w) (update_model-cfg w) _ u.updated
      ∙ each-cfg (add_model w) (add_model-cfg w) m u.added

  -- Whether the scan throws does not depend on the map.
  revisited :
      (w : World) (repo d : String) (m m2 : Dict String (ModelRunContext P))
      (rest rest2 : Outcome StateUpdate) (u : StateUpdate) (o : Option ModelConfig)
      → ((later : StateUpdate) → rest ≡ returns later → (u2 : StateUpdate) × (rest2 ≡ returns u2))
      → visit w repo m d o rest ≡ returns u
      → (u2 : StateUpdate) × (visit w repo m2 d o rest2 ≡ returns u2)
  revisited w repo d m m2 rest rest2 u none ih e = ih u e
  revisited w repo d m m2 rest rest2 u (some cfg) ih e =
      let (v, ev, e1) = >>=-eq-returns (get_highest_version w repo d) _ e in
      let (later, el, e2) = >>=-eq-returns rest _ e1 in
      let (u2, e3) = ih later el in (with_version m2 d v u2, rw (ev, e3) refl)

  visited_again :
      (w : World) (repo : String) (m m2 : Dict String (ModelRunContext P))
      (deleted deleted2 dirs : List String) (u : StateUpdate)
      → visit_models w repo m deleted dirs ≡ returns u
      → (u2 : StateUpdate) × (visit_models w repo m2 deleted2 dirs ≡ returns u2)
  unfolding visit_models
  visited_again w repo m m2 deleted deleted2 [] u e = (_, refl)
  visited_again w repo m m2 deleted deleted2 (d ∷ dirs) u e =
      revisited w repo d m m2 (visit_models w repo m deleted dirs)
        (visit_models w repo m2 deleted2 dirs) u (read_config w repo d)
        (λ later el. visited_again w repo m m2 deleted deleted2 dirs later el) e

  scanned_again :
      (w : World) (m m2 : ModelManager P) (u : StateUpdate)
      → m2.server_cfg ≡ m.server_cfg
      → get_model_state_update w m ≡ returns u
      → (u2 : StateUpdate) × (get_model_state_update w m2 ≡ returns u2)
  unfolding get_model_state_update
  scanned_again w m m2 u same e =
      let repo = m.server_cfg.model_repo_path in
      let (dirs, ed, ev) = >>=-eq-returns (get_directory_sub_dirs w.boost repo) _ e in
      let (u2, e2) =
        visited_again w repo m.model_map m2.model_map (deleted_models dirs m.model_map)
          (deleted_models dirs m2.model_map) dirs u ev in
      (u2, rw (same, ed) e2)

  current-Outdated :
      (o : Option (ModelRunContext P)) (v : ℤ) → version_of o ≡ some v → ¬ Outdated o v
  current-Outdated none v e h = h
  current-Outdated (some ctx) v e h = h (cc e)

  -- What the scan of the settled map lists cannot be loaded, and nothing is deleted.
  module _ (w : World) (m m' : ModelManager P) (u : StateUpdate) (dirs : List String)
      (reconciled : (name : String) → Reconciled w m'.server_cfg.model_repo_path dirs m m' name)
      (eu : get_model_state_update w m' ≡ returns u)
      (listed : get_directory_sub_dirs w.boost m'.server_cfg.model_repo_path ≡ returns dirs) where
    unadded :
        (i : ModelLoadInfo) → Listed i.model_name i.model_version u.added → add_model w m' i ≡ m'
    unadded i l =
        let (dirs', ed, s, del) =
          get_model_state_update_lists w m' u i.model_name i.model_version eu in
        let (there, offers, free) = s.0.0 l in
        let same : dirs' ≡ dirs = ground (arith, ed, listed) in
        add_model-unloadable w m' i (λ can. elim (reconciled i.model_name) [
          | gone absent e ↦ cc (there, same, absent)
          | current v c sv e ↦ cc (e, ap version_of free)
          | kept c bad e ↦ bad i.model_version (offers, can)
        ])

    not_updated :
        (i : ModelLoadInfo)
        → Listed i.model_name i.model_version u.updated
        → update_model w m' i ≡ m'
    not_updated i l =
        let (dirs', ed, s, del) =
          get_model_state_update_lists w m' u i.model_name i.model_version eu in
        let (there, offers, old) = s.1.0 l in
        let same : dirs' ≡ dirs = ground (arith, ed, listed) in
        update_model-unloadable w m' i (λ can. elim (reconciled i.model_name) [
          | gone absent e ↦ cc (there, same, absent)
          | current v c sv e ↦
              let newest =
                only_one w m'.server_cfg.model_repo_path i.model_name v i.model_version sv.0
                  offers in
              current-Outdated (Dict.find i.model_name m'.model_map) i.model_version
                (e ∙ ap some (sym newest)) old
          | kept c bad e ↦ bad i.model_version (offers, can)
        ])

    undeleted : (name : String) → contains u.deleted name ≡ true → delete_model m' name ≡ m'
    undeleted name l =
        let (dirs', ed, s, del) = get_model_state_update_lists w m' u name (negsuc 0) eu in
        let (there, absent) = del.0 l in
        let same : dirs' ≡ dirs = ground (arith, ed, listed) in
        absurd (elim (reconciled name) [
          | gone c e ↦ there e
          | current v c sv e ↦ cc (c, same, absent)
          | kept c bad e ↦ cc (c, same, absent)
        ])

    untouched : apply_update w m' u ≡ m'
    unfolding apply_update
    untouched =
        let added = each-same (add_model w) m' u.added (All-items _ u.added unadded) in
        let updated = each-same (update_model w) m' u.updated (All-items _ u.updated not_updated) in
        rw (added, updated) (each-same delete_model m' u.deleted (All-names _ u.deleted undeleted))

-- LoadModels settles in one pass: over the repository as it was, a second call returns and leaves the
-- map, the backends and everything else in the manager as they were, even if the repository has
-- models that cannot be loaded.
pub load_models_settles :
    {P : Type 0} (w : World) (m m' : ModelManager P)
    → Sound m
    → load_models w m ≡ returns m'
    → load_models w m' ≡ returns m'
unfolding load_models get_model_state_update
load_models_settles {P} w m m' v e =
    let (u, eu, em) = >>=-eq-returns (get_model_state_update w m) _ e in
    let repo = m.server_cfg.model_repo_path in
    let (dirs, ed, ev) = >>=-eq-returns (get_directory_sub_dirs w.boost repo) _ eu in
    let same : apply_update w m u ≡ m' = ground arith in
    let cfg : m'.server_cfg ≡ m.server_cfg =
      subst (λ (t : ModelManager P). t.server_cfg ≡ m.server_cfg) same (apply_update-cfg w m u) in
    let (u2, eu2) = scanned_again w m m' u cfg eu in
    let still =
      untouched w m m' u2 dirs
        (λ name.
          subst (λ c. Reconciled w c.model_repo_path dirs m m' name) (sym cfg)
            (load_models_reconciles w m m' dirs name v e ed))
        eu2 (rw cfg ed) in
    rw (eu2, still) refl
