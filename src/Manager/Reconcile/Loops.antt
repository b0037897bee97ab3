-- ===== src/Manager/Reconcile/Loops.antt =====
-- The three loops of LoadModels (src/core/model_manager/model_manager.cc), as seen from one name.
use model_inference_server.Common.{
  ◌≡◌, refl, sym, ap, ◌∙◌, ◌≢◌, ◌⊎◌, subst, inl, inr, Option, none, some, true, false, Keys-cases,
  Bool-cases, String, List, [], ◌∷◌, All, contains, ℤ, arith, str_eq, string_key,
}
use model_inference_server.Common.Dict
use model_inference_server.Config.{ServerConfig}
use model_inference_server.Manager.{World, ModelRunContext, ModelManager, ModelLoadInfo}
use model_inference_server.Manager.Cycle.{add_model, update_model, delete_model, each}
use model_inference_server.Manager.Load.{CanLoad, load_model_cases}
use model_inference_server.Manager.Ownership.{Sound}
use model_inference_server.Manager.Lifetime.{delete_model-Sound}
use model_inference_server.Manager.Scanned.{Listed}
use model_inference_server.Manager.Entries.{
  version_of, served, served-some, add_model-unloadable, add_model-taken, add_model-other,
  add_model-serves, add_model-cfg, update_model-unloadable, update_model-other, update_model-serves,
  update_model-cfg, find-delete_model, delete_model-cfg,
}

-- A statement on the version of an item, if the item is for this name.
abbrev pub About : (ℤ → Type 0) → String → ModelLoadInfo → Type 0
About Q name i = i.model_name ≡ name → Q i.model_version

pub All-Listed :
    (Q : ℤ → Type 0) (name : String) (is : List ModelLoadInfo)
    → ((version : ℤ) → Listed name version is → Q version)
    → All (About Q name) is
All-Listed Q name [] h = tt
All-Listed Q name (i ∷ is) h =
    ((λ e. h i.model_version (inl (e, refl))), All-Listed Q name is (λ v l. h v (inr l)))

-- The model of this name can be loaded.
abbrev pub Loadable : World → ServerConfig → String → Type 0
Loadable w cfg name = CanLoad w cfg.model_repo_path name

module _ {P : Type 0} where
  -- What each pass keeps, given what holds of its item.
  pub each-keeps :
      {A : Type 0} (f : ModelManager P → A → ModelManager P) (I : ModelManager P → Type 0)
      (Good : A → Type 0)
      → ((m : ModelManager P) (a : A) → Good a → I m → I (f m a))
      → (m : ModelManager P) (xs : List A) → All Good xs
      → I m
      → I (each f m xs)
  each-keeps f I Good step m [] good h = h
  each-keeps f I Good step m (x ∷ xs) good h =
      each-keeps f I Good step (f m x) xs good.1 (step m x good.0 h)

  module _ (w : World) (cfg : ServerConfig) (name : String) where
    -- The entry of the name, and the configuration of the server.
    abbrev pub Kept : Option (ModelRunContext P) → ModelManager P → Type 0
    Kept o m = (Dict.find name m.model_map ≡ o) × (m.server_cfg ≡ cfg)

    abbrev pub Serving : ℤ → ModelManager P → Type 0
    Serving version m = (served m name ≡ some version) × (m.server_cfg ≡ cfg)

    Loadable-here :
        (m : ModelManager P) (i : ModelLoadInfo)
        → m.server_cfg ≡ cfg
        → i.model_name ≡ name
        → Loadable w cfg name
        → CanLoad w m.server_cfg.model_repo_path i.model_name
    Loadable-here m i ec en can =
        subst (λ c. CanLoad w c.model_repo_path i.model_name) (sym ec)
          (subst (CanLoad w cfg.model_repo_path) (sym en) can)

    Loadable-there :
        (m : ModelManager P) (i : ModelLoadInfo)
        → m.server_cfg ≡ cfg
        → i.model_name ≡ name
        → CanLoad w m.server_cfg.model_repo_path i.model_name
        → Loadable w cfg name
    Loadable-there m i ec en can =
        subst (CanLoad w cfg.model_repo_path) en
          (subst (λ c. CanLoad w c.model_repo_path i.model_name) ec can)

    pub add_model-Kept :
        (o : Option (ModelRunContext P)) (m : ModelManager P) (i : ModelLoadInfo)
        → About (λ _. ¬ Loadable w cfg name) name i
        → Kept o m
        → Kept o (add_model w m i)
    add_model-Kept o m i bad h = elim (Keys-cases i.model_name name) [
      | inl e ↦
          subst (Kept o)
            (sym (add_model-unloadable w m i (λ c. bad e (Loadable-there m i h.1 e c)))) h
      | inr ne ↦ (add_model-other w m i name ne ∙ h.0, add_model-cfg w m i ∙ h.1)
    ]

    pub update_model-Kept :
        (o : Option (ModelRunContext P)) (m : ModelManager P) (i : ModelLoadInfo)
        → About (λ _. ¬ Loadable w cfg name) name i
        → Kept o m
        → Kept o (update_model w m i)
    update_model-Kept o m i bad h = elim (Keys-cases i.model_name name) [
      | inl e ↦
          subst (Kept o)
            (sym (update_model-unloadable w m i (λ c. bad e (Loadable-there m i h.1 e c)))) h
      | inr ne ↦ (update_model-other w m i name ne ∙ h.0, update_model-cfg w m i ∙ h.1)
    ]

    pub add_model-Serving :
        (version : ℤ) (m : ModelManager P) (i : ModelLoadInfo)
        → About (λ v. v ≡ version) name i
        → Serving version m
        → Serving version (add_model w m i)
    add_model-Serving version m i right h = elim (Keys-cases i.model_name name) [
      | inl e ↦
          let (ctx, found) = served-some m name version h.0 in
          let same =
            add_model-taken w m i ctx
              (subst (λ n. Dict.find n m.model_map ≡ some ctx) (sym e) found) in
          (ap (λ d. version_of (Dict.find name d)) same ∙ h.0, add_model-cfg w m i ∙ h.1)
      | inr ne ↦ (ap version_of (add_model-other w m i name ne) ∙ h.0, add_model-cfg w m i ∙ h.1)
    ]

    -- An update of the name that can be loaded.
    update_now :
        (version : ℤ) (m : ModelManager P) (i : ModelLoadInfo) (ctx : ModelRunContext P)
        → CanLoad w m.server_cfg.model_repo_path i.model_name
        → i.model_name ≡ name
        → i.model_version ≡ version
        → Dict.find name m.model_map ≡ some ctx
        → m.server_cfg ≡ cfg
        → Serving version (update_model w m i)
    update_now version m i ctx can e ev found ec = (
      subst (λ n. served (update_model w m i) n ≡ some version) e
          (update_model-serves w m i can ctx
              (subst (λ n. Dict.find n m.model_map ≡ some ctx) (sym e) found)
            ∙ ap some ev),
      update_model-cfg w m i ∙ ec,
    )

    pub update_model-Serving :
        (version : ℤ) (m : ModelManager P) (i : ModelLoadInfo)
        → About (λ v. v ≡ version) name i
        → Serving version m
        → Serving version (update_model w m i)
    update_model-Serving version m i right h = elim (Keys-cases i.model_name name) [
      | inr ne ↦
          (ap version_of (update_model-other w m i name ne) ∙ h.0, update_model-cfg w m i ∙ h.1)
      | inl e ↦ elim (load_model_cases w m i) [
        | inr (bad, _) ↦ subst (Serving version) (sym (update_model-unloadable w m i bad)) h
        | inl (can, _) ↦
            let (ctx, found) = served-some m name version h.0 in
            update_now version m i ctx can e (right e) found h.1
      ]
    ]

    -- A loop that has the name in its list makes it served, from what each pass makes of the state
    -- before: `Before` is what holds until the item comes.
    reached :
        (f : ModelManager P → ModelLoadInfo → ModelManager P) (Before : ModelManager P → Type 0)
        (version : ℤ)
        → ((m : ModelManager P) (i : ModelLoadInfo)
            → i.model_name ≢ name
            → Before m
            → Before (f m i))
        → ((m : ModelManager P) (i : ModelLoadInfo)
            → i.model_name ≡ name
            → i.model_version ≡ version
            → Before m
            → Serving version (f m i))
        → ((m : ModelManager P) (i : ModelLoadInfo)
            → About (λ v. v ≡ version) name i
            → Serving version m
            → Serving version (f m i))
        → (m : ModelManager P) (is : List ModelLoadInfo) → All (About (λ v. v ≡ version) name) is
        → Listed name version is
        → Before m
        → Serving version (each f m is)
    reached f Before version other now stays m [] good l h = absurd l
    reached f Before version other now stays m (i ∷ is) good l h =
        elim (Keys-cases i.model_name name) [
          | inl e ↦
              each-keeps f (Serving version) (About (λ v. v ≡ version) name) stays (f m i) is good.1
                (now m i e (good.0 e) h)
          | inr ne ↦ elim l [
            | inl (e, _) ↦ absurd (ne e)
            | inr later ↦
                reached f Before version other now stays (f m i) is good.1 later (other m i ne h)
          ]
        ]

    pub add_models-serve :
        (version : ℤ) (m : ModelManager P) (is : List ModelLoadInfo)
        → Loadable w cfg name
        → All (About (λ v. v ≡ version) name) is
        → Listed name version is
        → Kept none m
        → Serving version (each (add_model w) m is)
    add_models-serve version m is can good l h =
        reached (add_model w) (Kept none) version
          (λ n i ne k. (add_model-other w n i name ne ∙ k.0, add_model-cfg w n i ∙ k.1))
          (λ n i e ev k. (
            subst (λ x. served (add_model w n i) x ≡ some version) e
                (add_model-serves w n i (Loadable-here n i k.1 e can)
                    (subst (λ x. Dict.find x n.model_map ≡ none) (sym e) k.0)
                  ∙ ap some ev),
            add_model-cfg w n i ∙ k.1,
          ))
          (add_model-Serving version) m is good l h

    pub update_models-serve :
        (version : ℤ) (m : ModelManager P) (is : List ModelLoadInfo) (ctx : ModelRunContext P)
        → Loadable w cfg name
        → All (About (λ v. v ≡ version) name) is
        → Listed name version is
        → Kept (some ctx) m
        → Serving version (each (update_model w) m is)
    update_models-serve version m is ctx can good l h =
        reached (update_model w) (Kept (some ctx)) version
          (λ n i ne k. (update_model-other w n i name ne ∙ k.0, update_model-cfg w n i ∙ k.1))
          (λ n i e ev k. update_now version n i ctx (Loadable-here n i k.1 e can) e ev k.0 k.1)
          (update_model-Serving version) m is good l h

    -- The third loop, for a name that it does not delete.
    pub delete_models-Kept :
        (o : Option (ModelRunContext P)) (m : ModelManager P) (gone : List String)
        → Sound m
        → contains gone name ≡ false
        → Kept o m
        → Kept o (each delete_model m gone)
    delete_models-Kept o m [] v absent h = h
    delete_models-Kept o m (g ∷ gone) v absent h =
        let kept : Dict.find name (delete_model m g).model_map ≡ o =
          find-delete_model m g name v ∙ ground (arith, h) in
        delete_models-Kept o (delete_model m g) gone (delete_model-Sound m g v)
          (ground (arith, absent)) (kept, delete_model-cfg m g ∙ h.1)

    -- For a name that it deletes, or that is not there.
    pub delete_models-gone :
        (m : ModelManager P) (gone : List String)
        → Sound m
        → (contains gone name ≡ true) ⊎ (Dict.find name m.model_map ≡ none)
        → Dict.find name (each delete_model m gone).model_map ≡ none
    delete_models-gone m [] v (inl h) = absurd (cc h)
    delete_models-gone m [] v (inr h) = h
    delete_models-gone m (g ∷ gone) v h =
        delete_models-gone (delete_model m g) gone (delete_model-Sound m g v) (still h)
      where
        still :
            (contains (g ∷ gone) name ≡ true) ⊎ (Dict.find name m.model_map ≡ none)
            → (contains gone name ≡ true) ⊎ (Dict.find name (delete_model m g).model_map ≡ none)
        still (inr l) = inr (find-delete_model m g name v ∙ ground (arith, l))
        still (inl c) = elim (Bool-cases (str_eq g name)) [
          | inl same ↦ inr (find-delete_model m g name v ∙ ground arith)
          | inr other ↦ inl (ground arith)
        ]
