-- ===== src/Manager/Reconcile/Passes.antt =====
-- The scan and the three loops of LoadModels (src/core/model_manager/model_manager.cc) together, as seen
-- from one name.
use model_inference_server.Common.{
  ◌≡◌, refl, sym, ap, ◌∙◌, subst, ◌≢◌, ◌↔◌, ◌⊎◌, inl, inr, Option, none, some, true, false,
  Option-cases, Bool-cases, Keys-cases, String, List, All, contains, ℤ, negsuc, arith, string_key,
  int_key,
}
use model_inference_server.Common.Dict
use model_inference_server.Outcome.{returns, Outcome-cases}
use model_inference_server.Files.{get_directory_sub_dirs}
use model_inference_server.Manager.{
  World, ModelRunContext, ModelManager, StateUpdate, read_config, get_highest_version,
  get_model_state_update,
}
use model_inference_server.Manager.Cycle.{add_model, update_model, delete_model, each}
use model_inference_server.Manager.Load.{load_model_cases}
use model_inference_server.Manager.Ownership.{Sound}
use model_inference_server.Manager.Reload.{add_model-Sound, update_model-Sound}
use model_inference_server.Manager.Lifetime.{each-Sound}
use model_inference_server.Manager.Scanned.{Offers, Outdated, Scanned, only_one}
use model_inference_server.Manager.Scan.{get_model_state_update_lists}
use model_inference_server.Manager.Entries.{version_of}
use model_inference_server.Manager.Reconcile.Loops.{
  About, All-Listed, Loadable, Kept, Serving, each-keeps, add_model-Kept, update_model-Kept,
  add_model-Serving, update_model-Serving, add_models-serve, update_models-serve,
  delete_models-Kept, delete_models-gone,
}
use model_inference_server.Manager.Reconcile.{Servable, Reconciled, gone, current, kept}

Offers-cases :
    (w : World) (repo name : String)
    → ((v : ℤ) × Offers w repo name v) ⊎ ((v : ℤ) → ¬ Offers w repo name v)
Offers-cases w repo name = elim (Option-cases (read_config w repo name)) [
  | inl e ↦ inr (λ v o. o.0 e)
  | inr (cfg, e) ↦ elim (Outcome-cases (get_highest_version w repo name)) [
    | inr (x, t) ↦ inr (λ v o. cc (o.1, t))
    | inl (v, r) ↦ elim (Keys-cases v (negsuc 0)) [
      | inl missing ↦ inr (λ x o. o.2 (cc (o.1, r, missing)))
      | inr there ↦ inl (v, ((λ q. cc (q, e)), r, there))
    ]
  ]
]

module _ {P : Type 0} (w : World) (m : ModelManager P) (u : StateUpdate) (dirs : List String)
    (name : String) (eu : get_model_state_update w m ≡ returns u)
    (listed : get_directory_sub_dirs w.boost m.server_cfg.model_repo_path ≡ returns dirs) where
  abbrev Seen : ℤ → Type 0
  Seen version =
      Scanned w m.server_cfg.model_repo_path m.model_map dirs name version u
      × ((contains u.deleted name ≡ true)
          ↔ ((Dict.find name m.model_map ≢ none) × (contains dirs name ≡ false)))

  seen : (version : ℤ) → Seen version
  seen version =
      let (dirs', ed, s, del) = get_model_state_update_lists w m u name version eu in
      let same : dirs' ≡ dirs = ground (arith, ed, listed) in
      subst
        (λ d.
          Scanned w m.server_cfg.model_repo_path m.model_map d name version u
          × ((contains u.deleted name ≡ true)
              ↔ ((Dict.find name m.model_map ≢ none) × (contains d name ≡ false))))
        same (s, del)

  -- Facts on every item of a list, from facts on what the repository has.
  added-All :
      (Q : ℤ → Type 0)
      → ((v : ℤ)
          → contains dirs name ≡ true
          → Offers w m.server_cfg.model_repo_path name v
          → Dict.find name m.model_map ≡ none
          → Q v)
      → All (About Q name) u.added
  added-All Q h = All-Listed Q name u.added (λ v l. let (c, o, n) = (seen v).0.0.0 l in h v c o n)

  updated-All :
      (Q : ℤ → Type 0)
      → ((v : ℤ) → contains dirs name ≡ true → Offers w m.server_cfg.model_repo_path name v → Q v)
      → All (About Q name) u.updated
  updated-All Q h = All-Listed Q name u.updated (λ v l. let (c, o, n) = (seen v).0.1.0 l in h v c o)

  undeleted : contains dirs name ≡ true → contains u.deleted name ≡ false
  undeleted there = elim (Bool-cases (contains u.deleted name)) [
    | inr absent ↦ absent
    | inl present ↦ absurd (cc (((seen (negsuc 0)).1.0 present).1, there))
  ]

  unfoldable pub added : ModelManager P
  added = each (add_model w) m u.added

  unfoldable pub updated : ModelManager P
  unfolding added
  updated = each (update_model w) added u.updated

  module _ (v : Sound m) where
    updated-Sound : Sound updated
    unfolding updated added
    updated-Sound =
        each-Sound (update_model w) (update_model-Sound w) _ u.updated
          (each-Sound (add_model w) (add_model-Sound w) m u.added v)

    -- The third loop leaves a name that has a directory.
    past_deletion :
        (o : Option (ModelRunContext P))
        → contains dirs name ≡ true
        → Kept w m.server_cfg name o updated
        → Dict.find name (each delete_model updated u.deleted).model_map ≡ o
    past_deletion o there k =
        (delete_models-Kept w m.server_cfg name o updated u.deleted updated-Sound (undeleted there)
          k).0

    unchanged :
        contains dirs name ≡ true
        → ((version : ℤ) → ¬ Servable w m.server_cfg.model_repo_path name version)
        → Dict.find name (each delete_model updated u.deleted).model_map
          ≡ Dict.find name m.model_map
    unfolding updated added
    unchanged there bad =
        let o = Dict.find name m.model_map in
        let cfg = m.server_cfg in
        past_deletion o there (
          each-keeps (update_model w) (Kept w cfg name o) (About (λ _. ¬ Loadable w cfg name) name)
            (update_model-Kept w cfg name o) _ u.updated
            (updated-All _ (λ x c offers can. bad x (offers, can)))
            (each-keeps (add_model w) (Kept w cfg name o) (About (λ _. ¬ Loadable w cfg name) name)
              (add_model-Kept w cfg name o) m u.added
              (added-All _ (λ x c offers n can. bad x (offers, can))) (refl, refl)))

    -- A version that can be loaded is served after the first two loops.
    renewed_to :
        (version : ℤ) (o : Option (ModelRunContext P))
        → Dict.find name m.model_map ≡ o
        → contains dirs name ≡ true
        → Servable w m.server_cfg.model_repo_path name version
        → Serving w m.server_cfg name version updated
    unfolding updated added
    renewed_to version none e there (offers, can) =
        let cfg = m.server_cfg in
        each-keeps (update_model w) (Serving w cfg name version) (About (λ v. v ≡ version) name)
          (update_model-Serving w cfg name version) _ u.updated
          (updated-All _ (λ x c o. only_one w cfg.model_repo_path name version x offers o))
          (add_models-serve w cfg name version m u.added can
            (added-All _ (λ x c o n. only_one w cfg.model_repo_path name version x offers o))
            ((seen version).0.0.1 (there, offers, e)) (e, refl))
    renewed_to version (some ctx) e there (offers, can) =
        let cfg = m.server_cfg in
        let right =
          updated-All (λ v. v ≡ version)
            (λ x c o. only_one w cfg.model_repo_path name version x offers o) in
        elim (Keys-cases ctx.backend_info.model_version version) [
          | inl same ↦
              each-keeps (update_model w) (Serving w cfg name version)
                (About (λ v. v ≡ version) name) (update_model-Serving w cfg name version) _
                u.updated right
                (each-keeps (add_model w) (Serving w cfg name version)
                  (About (λ v. v ≡ version) name) (add_model-Serving w cfg name version) m u.added
                  (added-All _ (λ x c o n. absurd (cc (n, e))))
                  (ap version_of e ∙ ap some same, refl))
          | inr old ↦
              update_models-serve w cfg name version _ u.updated ctx can right
                ((seen version).0.1.1 (there, offers, subst (λ o. Outdated o version) (sym e) old))
                (each-keeps (add_model w) (Kept w cfg name (some ctx))
                  (About (λ _. ¬ Loadable w cfg name) name) (add_model-Kept w cfg name (some ctx)) m
                  u.added (added-All _ (λ x c o n. absurd (cc (n, e)))) (e, refl))
        ]

    pruned :
        contains dirs name ≡ false
        → Dict.find name (each delete_model updated u.deleted).model_map ≡ none
    unfolding updated added
    pruned absent =
        let cfg = m.server_cfg in
        delete_models-gone w cfg name updated u.deleted updated-Sound
          (elim (Option-cases (Dict.find name m.model_map)) [
            | inr (ctx, h) ↦ inl ((seen (negsuc 0)).1.1 ((λ z. cc (z, h)), absent))
            | inl h ↦
                inr
                  (each-keeps (update_model w) (Kept w cfg name none)
                    (About (λ _. ¬ Loadable w cfg name) name) (update_model-Kept w cfg name none) _
                    u.updated (updated-All _ (λ x c o. absurd (cc (c, absent))))
                    (each-keeps (add_model w) (Kept w cfg name none)
                      (About (λ _. ¬ Loadable w cfg name) name) (add_model-Kept w cfg name none) m
                      u.added (added-All _ (λ x c o n. absurd (cc (c, absent)))) (h, refl))).0
          ])

    pub reconciled :
        Reconciled w m.server_cfg.model_repo_path dirs m (each delete_model updated u.deleted) name
    reconciled =
        let repo = m.server_cfg.model_repo_path in
        elim (Bool-cases (contains dirs name)) [
          | inr absent ↦ gone absent (pruned absent)
          | inl there ↦ elim (Offers-cases w repo name) [
            | inr refuses ↦
                let bad : (x : ℤ) → ¬ Servable w repo name x = λ x s. refuses x s.0 in
                kept there bad (unchanged there bad)
            | inl (version, offers) ↦
                elim (load_model_cases w m
                  (record { model_name = name; model_version = version })) [
                    | inl (can, _) ↦
                        let now =
                          renewed_to version (Dict.find name m.model_map) refl there
                            (offers, can) in
                        current version there (offers, can)
                          (ap version_of
                              (past_deletion (Dict.find name updated.model_map) there (refl, now.1))
                            ∙ now.0)
                    | inr (bad, _) ↦
                        let never : (x : ℤ) → ¬ Servable w repo name x = λ x s. bad s.1 in
                        kept there never (unchanged there never)
                  ]
          ]
        ]
