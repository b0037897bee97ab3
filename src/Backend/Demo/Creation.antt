-- ===== src/Backend/Demo/Creation.antt =====
-- When DemoBackendFactory::CreateBackend (src/core/backend/demo/demo_backend_factory.cc) makes a backend,
-- and which.
use model_inference_server.Common.{◌≡◌, refl, ◌⊎◌, ◌≢◌, ◌++◌, String, arith, ℤ, pos, inl, inr}
use model_inference_server.Outcome.{returns, throws, runtime_error}
use model_inference_server.Status.{Status, success, failed_model_load}
use model_inference_server.Backend.{ModelConfig, ModelBackend, process_model_config}
use model_inference_server.Backend.Io.{process_model_config_iff}
use model_inference_server.Backend.Demo.{
  initial, or_throw, create_execute_contexts, create_backend, created, not_created,
}
use model_inference_server.Backend.Demo.Contexts.{
  all_contexts, IsLoadable, create_execute_contexts_cases,
}

status_cases : (s : Status) → (s ≡ success) ⊎ (s ≢ success)
status_cases success = inl refl
status_cases _ = inr (λ e. cc)

or_throw-success : (r : ModelBackend × Status) → r.1 ≡ success → or_throw r ≡ returns r.0
or_throw-success (b, s) h = rw h

or_throw-failure : (r : ModelBackend × Status) → r.1 ≢ success → or_throw r ≡ throws runtime_error
or_throw-failure (b, success) h = absurd (h refl)
or_throw-failure (b, _) h = refl

process-keeps :
    (b : ModelBackend)
    → ((process_model_config b).0.contexts ≡ b.contexts)
      × ((process_model_config b).0.model_name ≡ b.model_name)
      × ((process_model_config b).0.model_version ≡ b.model_version)
      × ((process_model_config b).0.running_inference_process ≡ b.running_inference_process)
unfolding process_model_config
process-keeps b = ground arith

module _ (name : String) (version : ℤ) (c : ModelConfig) where
  -- A backend is made exactly from a configuration that names a platform and has an instance group,
  -- whose groups are all acceptable and of kind CPU if they have instances. It has one context for
  -- each instance, in the order of the groups, the name and version that it was made for, and no call
  -- counted. From any other configuration the factory returns Failed_Model_Load.
  pub create_backend_cases :
      (IsLoadable c
        × ((b : ModelBackend) × (create_backend name version c ≡ created b)
            × (b.contexts ≡ all_contexts c.instance_group)
            × (b.model_name ≡ name)
            × (b.model_version ≡ version)
            × (b.running_inference_process ≡ pos 0)))
      ⊎ ((¬ IsLoadable c) × (create_backend name version c ≡ not_created failed_model_load))
  create_backend_cases = elim (status_cases (process_model_config b0).1) [
    | inr bad ↦ inr (
      (λ ok. bad ((process_model_config_iff b0).0.1 (ok.platform_set, ok.has_group, ok.accepted))),
      unfold create_backend in rw (or_throw-failure (process_model_config b0) bad),
    )
    | inl good ↦
        let fits = (process_model_config_iff b0).0.0 good in
        let kept = process-keeps b0 in
        elim (create_execute_contexts_cases c.instance_group (process_model_config b0).0) [
          | inl (runs, e) ↦ inl (
            record {
              platform_set = fits.0;
              has_group = fits.1;
              accepted = fits.2;
              runnable = runs;
            },
            (
              record (process_model_config b0).0 {
                contexts = (process_model_config b0).0.contexts ++ all_contexts c.instance_group;
              },
              unfold create_backend in rw (or_throw-success (process_model_config b0) good, e),
              rw kept.0,
              kept.1,
              kept.2,
              kept.3,
            ),
          )
          | inr (stuck, e) ↦ inr (
            (λ ok. stuck ok.runnable),
            unfold create_backend in
                rw (
                  or_throw-success (process_model_config b0) good,
                  or_throw-failure
                      (create_execute_contexts c.instance_group (process_model_config b0).0)
                      (λ q. cc),
                ),
          )
        ]
  ]
    where
      b0 : ModelBackend
      b0 = initial name version c
