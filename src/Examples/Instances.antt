-- ===== src/Examples/Instances.antt =====
-- Runners and contexts (src/core/model_manager/model_manager.cc) of the model of Manager.
use model_inference_server.Common.{
  ℕ, ◌<◌, ◌≡◌, refl, some, none, [], ◌∷◌, pos, arith, length, get_elem?, string_key, nat_key,
  String,
}
use model_inference_server.Common.Dict
use model_inference_server.Common.Dict.{Dict}
use model_inference_server.Files.{combine_path, read_file_text}
use model_inference_server.Platform.{convert_string_to_platform_type}
use model_inference_server.Proto.{DataType}
use model_inference_server.Backend.{
  ModelBackend, BackendContext, process_model_config, group_valid, run,
}
use model_inference_server.Backend.Demo.{create_backend, create_execute_contexts, instance_name}
use model_inference_server.Scheduler.{Runner, testing}
use model_inference_server.Manager.{
  BackendInfo, ModelRunContext, ModelManager, load_model, read_config, create_model_backend,
}
use model_inference_server.Manager.Load.{Loads}
use model_inference_server.Manager.Cycle.{add_model, update_model}
use model_inference_server.Manager.Instances.{added_runners, updated_overruns}
use model_inference_server.Examples.Parts.{backend, ran}
use model_inference_server.Examples.Manager.{world, manager, ctx, info}

-- No model is loaded; and version 1 of the model is, with three runners.
abbrev with_models : Dict String (ModelRunContext ℕ) → ModelManager ℕ
with_models models = record manager { model_map = models }

abbrev busy : ModelRunContext ℕ
busy = record ctx {
  scheduler = record ctx.scheduler { threads = testing ∷ testing ∷ testing ∷ [] };
}

-- The backend of version 2, with its two contexts.
abbrev instance_of : String → BackendContext
instance_of n = record { name = n; gpu_device_id = pos 0; max_batch_size = pos 0 }

abbrev second : ModelBackend
second = record backend {
  contexts = instance_of (instance_name "g" 0) ∷ instance_of (instance_name "g" 1) ∷ [];
  input_map = ("x", record { name = "x"; data_type = DataType.type_fp32; dims = pos 2 ∷ [] }) ∷ [];
  output_map = ("y", record { name = "y"; data_type = DataType.type_fp32; dims = pos 1 ∷ [] }) ∷ [];
}

abbrev second_info : BackendInfo
second_info = record ctx.backend_info { model_version = pos 2; backend = 1 }

abbrev loads : (models : Dict String (ModelRunContext ℕ)) → Loads world (with_models models) info
unfolding load_model read_config combine_path read_file_text create_model_backend
    convert_string_to_platform_type create_backend process_model_config group_valid
    create_execute_contexts
loads models = record {
  b = second;
  bi = second_info;
  result = refl;
  at = refl;
  names = (refl, refl);
  versions = (refl, refl);
  idle = refl;
}

abbrev the_name : String
the_name = "m"

added_runners_example :
    (c : ModelRunContext ℕ) × (Dict.find the_name (add_model world (with_models []) info).model_map
      ≡ some c)
    × (length c.scheduler.threads ≡ length second.contexts)
    × (Dict.find c.scheduler.infer_func (add_model world (with_models []) info).heap ≡ some second)
    × ((i : ℕ)
        → i < length c.scheduler.threads
        → (b : BackendContext) × (get_elem? second.contexts i ≡ some b)
          × (run second (pos i) ran ≡ some (second, ran b)))
unfolding loads
added_runners_example = added_runners world (with_models []) info (loads []) ran refl (omega arith)

updated_overruns_example :
    (c : ModelRunContext ℕ) × (Dict.find the_name
        (update_model world (with_models (("m", busy) ∷ [])) info).model_map
      ≡ some c)
    × (c.scheduler.infer_func ≡ 1)
    × (c.scheduler.threads ≡ busy.scheduler.threads)
    × (r : Runner ℕ ℕ) × (get_elem? c.scheduler.threads 2 ≡ some r)
    × (run second (pos 2) ran ≡ none)
unfolding loads
updated_overruns_example =
    updated_overruns world (with_models (("m", busy) ∷ [])) info (loads (("m", busy) ∷ [])) busy ran
      refl (omega arith)
