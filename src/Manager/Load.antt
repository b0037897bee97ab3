-- ===== src/Manager/Load.antt =====
-- What ModelManager::LoadModel (src/core/model_manager/model_manager.cc) comes to.
use model_inference_server.Common.{
  pos, ◌≡◌, refl, ◌⊎◌, inl, inr, none, some, subst, Option-cases, String, [], ◌∷◌, ℤ,
}
use model_inference_server.Status.{Status}
use model_inference_server.Platform.{Platform, platform_demo, convert_string_to_platform_type}
use model_inference_server.Backend.{ModelConfig, ModelBackend}
use model_inference_server.Backend.Demo.{created, not_created}
use model_inference_server.Backend.Demo.Contexts.{IsLoadable}
use model_inference_server.Backend.Demo.Creation.{create_backend_cases}
use model_inference_server.Files.{combine_path}
use model_inference_server.Manager.{
  World, BackendInfo, ModelManager, ModelLoadInfo, allocate, load_model, read_config,
  create_model_backend,
}

-- A model that can be loaded now: its configuration is there, names the platform "demo", and
-- describes a backend that can be made.
pub record CanLoad (w : World) (repo name : String) : Type 0 where
  pub cfg : ModelConfig
  pub parsed : read_config w repo name ≡ some cfg
  pub is_demo : convert_string_to_platform_type cfg.platform ≡ platform_demo
  pub loadable : IsLoadable cfg

-- The backend that a load puts at the next address, and the info that points to it.
pub record Loads {P : Type 0} (w : World) (m : ModelManager P) (info : ModelLoadInfo) : Type 0 where
  pub b : ModelBackend
  pub bi : BackendInfo
  pub result : load_model w m info ≡ (allocate m b, some bi)
  pub at : bi.backend ≡ m.next_address
  pub names : (bi.model_name ≡ info.model_name) × (b.model_name ≡ info.model_name)
  pub versions : (bi.model_version ≡ info.model_version) × (b.model_version ≡ info.model_version)
  pub idle : b.running_inference_process ≡ pos 0

-- What a platform and a configuration come to.
record Makes (p : Platform) (name : String) (version : ℤ) (cfg : ModelConfig) : Type 0 where
  b : ModelBackend
  result : create_model_backend p name version cfg ≡ created b
  its_name : b.model_name ≡ name
  its_version : b.model_version ≡ version
  its_count : b.running_inference_process ≡ pos 0

record Refuses (p : Platform) (name : String) (version : ℤ) (cfg : ModelConfig) : Type 0 where
  status : Status
  result : create_model_backend p name version cfg ≡ not_created status

create_model_backend_cases :
    (p : Platform) (name : String) (version : ℤ) (cfg : ModelConfig)
    → ((p ≡ platform_demo) × IsLoadable cfg × Makes p name version cfg)
      ⊎ ((¬ ((p ≡ platform_demo) × IsLoadable cfg)) × Refuses p name version cfg)
unfolding create_model_backend
create_model_backend_cases platform_demo name version cfg =
    elim (create_backend_cases name version cfg) [
      | inl (ok, (b, e, _, n, v, count)) ↦
          inl (
            refl,
            ok,
            record { b = b; result = e; its_name = n; its_version = v; its_count = count },
          )
      | inr (bad, e) ↦ inr ((λ h. bad h.1), record { status = _; result = e })
    ]
create_model_backend_cases _ name version cfg =
    inr ((λ h. cc (h.0)), record { status = _; result = refl })

module _ {P : Type 0} (w : World) (m : ModelManager P) (info : ModelLoadInfo) where
  -- LoadModel succeeds exactly for a model that can be loaded, and then allocates its backend; it
  -- changes nothing otherwise.
  pub load_model_cases :
      (CanLoad w m.server_cfg.model_repo_path info.model_name × Loads w m info)
      ⊎ ((¬ CanLoad w m.server_cfg.model_repo_path info.model_name)
          × (load_model w m info ≡ (m, none)))
  load_model_cases =
      elim (Option-cases (read_config w m.server_cfg.model_repo_path info.model_name)) [
        | inl e ↦ inr ((λ c. cc (e, c.parsed)), unfold load_model in rw e)
        | inr (cfg, e) ↦
            elim (create_model_backend_cases (convert_string_to_platform_type cfg.platform)
              info.model_name info.model_version cfg) [
                | inl (demo, ok, made) ↦ inl (
                  record { cfg = cfg; parsed = e; is_demo = demo; loadable = ok },
                  record {
                    b = made.b;
                    bi = (record {
                      model_name = info.model_name;
                      path =
                          combine_path w.boost m.server_cfg.model_repo_path (info.model_name ∷ []);
                      platform = convert_string_to_platform_type cfg.platform;
                      model_version = info.model_version;
                      model_config = cfg;
                      backend = m.next_address;
                    });
                    result = unfold load_model in rw (e, made.result);
                    at = refl;
                    names = (refl, made.its_name);
                    versions = (refl, made.its_version);
                    idle = made.its_count;
                  },
                )
                | inr (bad, ref) ↦
                    inr ((λ c. bad (same_cfg c cfg e)), (unfold load_model in rw (e, ref.result)))
              ]
      ]
    where
      same_cfg :
          (c : CanLoad w m.server_cfg.model_repo_path info.model_name) (cfg : ModelConfig)
          → read_config w m.server_cfg.model_repo_path info.model_name ≡ some cfg
          → (convert_string_to_platform_type cfg.platform ≡ platform_demo) × IsLoadable cfg
      same_cfg c cfg e =
          let q : c.cfg ≡ cfg = cc (e, c.parsed) in
          (rw (← q) c.is_demo, subst IsLoadable q c.loadable)
