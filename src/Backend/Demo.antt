-- ===== src/Backend/Demo.antt =====
-- src/core/backend/demo/demo_backend.{h,cc} and demo_backend_factory.{h,cc}.
pub mod Contexts
pub mod Creation
use Prim.Native.String.{◌++◌ as str_append}
use model_inference_server.Common.{
  ℕ, zero, suc, String, List, [], ◌∷◌, ◌++◌, ℤ, pos, negsuc, pos_part,
}
use model_inference_server.Outcome.{Outcome, returns, throws, runtime_error, ◌>>=◌}
use model_inference_server.Platform.{Platform}
use model_inference_server.Status.{
  Status, success, failed_model_config_invalid, failed_model_load, decimal,
}
use model_inference_server.Backend.{
  Kind, kind_cpu, ModelInstanceGroup, ModelConfig, BackendContext, ModelBackend,
  process_model_config,
}

-- CreateExecuteContext: new Context(instance_name, gpu_device), with no batching.
create_execute_context : ModelBackend → String → ℤ → ModelBackend × Status
create_execute_context b instance_name gpu_device =
    (record b { contexts = b.contexts ++ context ∷ [] }, success)
  where
    context : BackendContext
    context = record { name = instance_name; gpu_device_id = gpu_device; max_batch_size = pos 0 }

-- group.name() + "_" + std::to_string(c) + "_cpu"
abbrev pub instance_name : String → ℕ → String
instance_name group c = str_append group (str_append "_" (str_append (decimal 10 c) "_cpu"))

-- The passes of `for (c = 0; c < group.count(); c++)` that are left.
unfoldable pub create_group : ℕ → ℕ → ModelInstanceGroup → ModelBackend → ModelBackend × Status
unfolding create_execute_context
create_group zero c g b = (b, success)
create_group (suc left) c g b = elim g.kind [
  | kind_cpu ↦
      create_group left (suc c) g (create_execute_context b (instance_name g.name c) (pos 0)).0
  | _ ↦ (b, failed_model_config_invalid)
]

-- The rest of the groups, unless a group has failed.
abbrev pub then_groups :
    (ModelBackend → ModelBackend × Status) → ModelBackend × Status → ModelBackend × Status
then_groups rest (b, success) = rest b
then_groups rest (b, status) = (b, status)

unfoldable pub create_execute_contexts :
    List ModelInstanceGroup → ModelBackend → ModelBackend × Status
unfolding create_group
create_execute_contexts [] b = (b, success)
create_execute_contexts (g ∷ gs) b =
    then_groups (create_execute_contexts gs) (create_group (pos_part g.count) 0 g b)

abbrev pub or_throw : ModelBackend × Status → Outcome ModelBackend
or_throw (b, success) = returns b
or_throw (b, _) = throws runtime_error

-- The members of ModelBackend as its constructor initializes them.
abbrev pub initial : String → ℤ → ModelConfig → ModelBackend
initial model_name model_version model_config = record {
  model_config = model_config;
  model_name = model_name;
  model_version = model_version;
  platform = Platform.platform_demo;
  input_map = [];
  output_map = [];
  contexts = [];
  running_inference_process = pos 0;
}

-- The constructors ModelBackend and DemoBackend.
unfoldable pub new_demo_backend : String → ℤ → ModelConfig → Outcome ModelBackend
new_demo_backend model_name model_version model_config = do
  b ← or_throw (process_model_config (initial model_name model_version model_config))
  or_throw (create_execute_contexts model_config.instance_group b)

-- DemoBackend::Context::Run
unfoldable pub context_run : BackendContext → Status
context_run c = success

-- What a factory leaves: a backend, or the status.
pub data Created : Type 0 where
  created : ModelBackend → Created
  not_created : Status → Created

abbrev pub caught : Outcome ModelBackend → Created
caught (returns b) = created b
caught (throws e) = not_created failed_model_load

-- DemoBackendFactory::CreateBackend
unfoldable pub create_backend : String → ℤ → ModelConfig → Created
unfolding new_demo_backend
create_backend model_name model_version model_config =
    caught (new_demo_backend model_name model_version model_config)
