-- ===== src/Backend/Demo/Contexts.antt =====
-- The contexts that DemoBackend makes (src/core/backend/demo/demo_backend.cc): one for each instance.
use mathlib.Core.List.{append-nil, append_assoc}
use model_inference_server.Common.{
  ℕ, zero, suc, ◌≡◌, refl, ◌∙◌, ◌⊎◌, ◌≢◌, List, [], ◌∷◌, ◌++◌, String, All, arith, pos, pos_part,
  inl, inr,
}
use model_inference_server.Status.{success, failed_model_config_invalid}
use model_inference_server.Backend.{
  Kind, kind_cpu, ModelInstanceGroup, ModelConfig, BackendContext, ModelBackend,
}
use model_inference_server.Backend.Io.{IsAccepted}
use model_inference_server.Backend.Demo.{instance_name, create_group, create_execute_contexts}

-- The contexts of one group, from number `c` on.
abbrev pub group_contexts : ℕ → ℕ → String → List BackendContext
group_contexts zero c name = []
group_contexts (suc left) c name =
    record { name = instance_name name c; gpu_device_id = pos 0; max_batch_size = pos 0 }
    ∷ group_contexts left (suc c) name

-- The contexts of all groups, in the order of the configuration.
abbrev pub all_contexts : List ModelInstanceGroup → List BackendContext
all_contexts [] = []
all_contexts (g ∷ gs) = group_contexts (pos_part g.count) 0 g.name ++ all_contexts gs

-- A group with instances is of kind CPU.
abbrev pub IsRunnable : ModelInstanceGroup → Type 0
IsRunnable g = (pos_part g.count ≡ 0) ⊎ (g.kind ≡ kind_cpu)

create_group-cpu :
    (left c : ℕ) (g : ModelInstanceGroup) (b : ModelBackend)
    → g.kind ≡ kind_cpu
    → create_group left c g b
      ≡ (record b { contexts = b.contexts ++ group_contexts left c g.name }, success)
unfolding create_group
create_group-cpu zero c g b e = rw append-nil
create_group-cpu (suc left) c g b e =
    rw (e, create_group) (create_group-cpu left (suc c) g _ e ∙ rw append_assoc)

create_group-none :
    (g : ModelInstanceGroup) (b : ModelBackend)
    → create_group 0 0 g b ≡ (record b { contexts = b.contexts ++ [] }, success)
unfolding create_group
create_group-none g b = rw append-nil

create_group-other :
    (left c : ℕ) (g : ModelInstanceGroup) (b : ModelBackend) (k : Kind)
    → g.kind ≡ k
    → k ≢ kind_cpu
    → create_group (suc left) c g b ≡ (b, failed_model_config_invalid)
unfolding create_group
create_group-other left c g b kind_cpu e ne = absurd (ne refl)
create_group-other left c g b _ e ne = ground arith

create_group_cases :
    (n : ℕ) (g : ModelInstanceGroup) (b : ModelBackend) (k : Kind)
    → g.kind ≡ k
    → (((n ≡ 0) ⊎ (g.kind ≡ kind_cpu))
        × (create_group n 0 g b
            ≡ (record b { contexts = b.contexts ++ group_contexts n 0 g.name }, success)))
      ⊎ ((¬ ((n ≡ 0) ⊎ (g.kind ≡ kind_cpu)))
          × (create_group n 0 g b ≡ (b, failed_model_config_invalid)))
create_group_cases n g b kind_cpu e = inl (inr e, create_group-cpu n 0 g b e)
create_group_cases zero g b _ e = inl (inl refl, create_group-none g b)
create_group_cases (suc n) g b k e =
    inr ((λ h. ground (arith, e)), create_group-other n 0 g b k e (λ q. cc))

pub create_execute_contexts_cases :
    (gs : List ModelInstanceGroup) (b : ModelBackend)
    → (All IsRunnable gs
        × (create_execute_contexts gs b
            ≡ (record b { contexts = b.contexts ++ all_contexts gs }, success)))
      ⊎ ((¬ All IsRunnable gs) × ((create_execute_contexts gs b).1 ≡ failed_model_config_invalid))
unfolding create_execute_contexts
create_execute_contexts_cases [] b = inl (tt, rw append-nil)
create_execute_contexts_cases (g ∷ gs) b =
    elim (create_group_cases (pos_part g.count) g b g.kind refl) [
      | inl (runs, e) ↦
          elim (create_execute_contexts_cases gs
            (record b { contexts = b.contexts ++ group_contexts (pos_part g.count) 0 g.name })) [
              | inl (rest, er) ↦ inl ((runs, rest), rw e (er ∙ rw append_assoc))
              | inr (rest, er) ↦ inr ((λ h. rest h.1), rw e er)
            ]
      | inr (stuck, e) ↦ inr ((λ h. stuck h.0), rw e)
    ]

-- A configuration from which a demo backend can be made.
pub record IsLoadable (c : ModelConfig) : Type 0 where
  pub platform_set : c.platform ≢ ""
  pub has_group : c.instance_group ≢ []
  pub accepted : All IsAccepted c.instance_group
  pub runnable : All IsRunnable c.instance_group
