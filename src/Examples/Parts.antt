-- ===== src/Examples/Parts.antt =====
-- The backend, the payload, the RPC's context, the versions, the platforms and the configuration
-- (src/core) at concrete inputs.
use model_inference_server.Common.{
  ◌+◌, ◌%◌, ◌^◌, ◌≤◌, ℕ, ◌≡◌, refl, ◌++◌, ◌⊎◌, ◌↔◌, Bool, true, false, String, some, List, [], ◌∷◌,
  map, ℤ, pos, negsuc, str_eq,
}
use model_inference_server.Outcome.{Outcome, returns}
use model_inference_server.Status.{Status, success, failed_generic, failed_model_load}
use model_inference_server.Platform.{platform_demo}
use model_inference_server.Proto.{
  DataType, InferRequest, InferResponse, empty_infer_request, empty_infer_response,
  RequestStatusCode,
}
use model_inference_server.Payload.{InferencePayload, new_payload}
use model_inference_server.InferContext.{GrpcInferRequestContext, new_context, on_infer_completed}
use model_inference_server.InferContext.Delivery.{
  NamedOutput, described, register_from, on_infer_completed_delivers,
  on_infer_completed_without_output,
}
use model_inference_server.Version.{highest_of}
use model_inference_server.Version.Highest.{IsHighest, highest_of_lem}
use model_inference_server.Backend.{
  kind_cpu, ModelInstanceGroup, ModelConfig, BackendContext, ModelBackend, process_model_config,
  group_valid, still_running,
}
use model_inference_server.Backend.{run_begin}
use model_inference_server.Backend.Concurrent.{
  Calls, Reach, here, goes, enters, is_refused, wait_ends_iff,
}
use model_inference_server.Backend.Demo.{create_backend, created, not_created}
use model_inference_server.Backend.Demo.Contexts.{IsLoadable, all_contexts}
use model_inference_server.Backend.Demo.Creation.{create_backend_cases}
use model_inference_server.Config.{Yaml, ServerConfig, empty_config, load_server_config}

abbrev pub group : ModelInstanceGroup
group = record { name = "g"; kind = kind_cpu; count = pos 2; gpus = [] }

abbrev pub demo_config : ModelConfig
demo_config = record {
  name = "m";
  platform = "demo";
  max_batch_size = pos 1;
  input = record { name = "x"; data_type = DataType.type_fp32; dims = pos 2 ∷ [] } ∷ [];
  output = record { name = "y"; data_type = DataType.type_fp32; dims = pos 1 ∷ [] } ∷ [];
  instance_group = group ∷ [];
  default_model_filename = "model";
}

abbrev context : BackendContext
context = record { name = "g_0_cpu"; gpu_device_id = negsuc 0; max_batch_size = pos 1 }

abbrev pub backend : ModelBackend
backend = record {
  model_config = demo_config;
  model_name = "m";
  model_version = pos 2;
  platform = platform_demo;
  input_map = [];
  output_map = [];
  contexts = context ∷ [];
  running_inference_process = pos 0;
}

abbrev pub ran : BackendContext → Status
ran c = success

create_backend_cases_example :
    (IsLoadable demo_config
      × ((b : ModelBackend) × (create_backend "m" (pos 2) demo_config ≡ created b)
          × (b.contexts ≡ all_contexts demo_config.instance_group)
          × (b.model_name ≡ "m")
          × (b.model_version ≡ pos 2)
          × (b.running_inference_process ≡ pos 0)))
    ⊎ ((¬ IsLoadable demo_config)
        × (create_backend "m" (pos 2) demo_config ≡ not_created failed_model_load))
create_backend_cases_example = create_backend_cases "m" (pos 2) demo_config

accepted : (process_model_config backend).1 ≡ success
unfolding process_model_config group_valid
accepted = refl

-- One call runs, one was refused.
abbrev two_calls : Calls
two_calls = record {
  backend = (run_begin (run_begin backend (pos 0)).0 (pos 5)).0;
  in_flight = 1;
  turned_away = 1;
}

abbrev one_call : Calls
one_call = record { backend = (run_begin backend (pos 0)).0; in_flight = 1; turned_away = 0 }

called_twice : Reach two_calls
unfolding run_begin
called_twice =
    goes one_call two_calls
      (goes (record { backend = backend; in_flight = 0; turned_away = 0 }) one_call
        (here backend refl)
        (enters (record { backend = backend; in_flight = 0; turned_away = 0 }) (pos 0) context
          refl))
      (is_refused one_call (pos 5) failed_generic refl)

wait_ends_iff_example : (still_running two_calls.backend ≡ false) ↔ (
    ((two_calls.in_flight + two_calls.turned_away) % 2 ^ 32 ≡ 0)
    ⊎ (2 ^ 31 ≤ (two_calls.in_flight + two_calls.turned_away) % 2 ^ 32))
wait_ends_iff_example = wait_ends_iff two_calls called_twice

-- An RPC's context, with the address 9 for the RPC.
abbrev pub request : InferRequest
request = record empty_infer_request { model_name = "m"; raw_input = (1 ∷ 2 ∷ []) ∷ [] }

abbrev pub payload : InferencePayload ℕ
payload = record {
  model_name = "m";
  model_version = pos 0;
  request_header = some request.meta_data;
  response_header = empty_infer_response.meta_data;
  inputs_memory = record { mem_addr = 1 ∷ 2 ∷ []; length = 2 } ∷ [];
  output_buffer_map = [];
  on_infer_completed_func = 9;
  max_output_index = pos 0;
}

abbrev pub rpc : GrpcInferRequestContext ℕ
rpc = record { infer_payload = payload; on_infer_completed_func = 9; infer_completed = false }

pub rpc-made : new_context request 9 ≡ returns rpc
unfolding new_context new_payload
rpc-made = refl

abbrev pub outputs : List NamedOutput
outputs =
    record { name = "y"; content = 4 ∷ 5 ∷ []; shape = pos 2 ∷ [] }
    ∷ record { name = "z"; content = 6 ∷ []; shape = pos 1 ∷ [] }
    ∷ []

abbrev delivered : (GrpcInferRequestContext ℕ × InferResponse) × Outcome ℕ
delivered =
    on_infer_completed (record rpc { infer_payload = register_from 0 outputs payload })
      empty_infer_response Status.success ""

on_infer_completed_delivers_example :
    (delivered.0.1.raw_output ≡ empty_infer_response.raw_output ++ map (λ o. o.content) outputs)
    × (delivered.0.1.meta_data.output ≡ map described outputs)
    × (delivered.0.1.request_status.code ≡ RequestStatusCode.success)
    × (delivered.0.1.request_status.msg ≡ "")
    × (delivered.1 ≡ returns 9)
on_infer_completed_delivers_example =
    on_infer_completed_delivers request 9 rpc outputs empty_infer_response "" rpc-made (λ h. cc)

on_infer_completed_without_output_example :
    let done = on_infer_completed rpc empty_infer_response Status.success "" in
    (done.0.1.raw_output ≡ empty_infer_response.raw_output ++ [] ∷ [])
    × (done.0.1.meta_data.output ≡ [])
    × (done.1 ≡ returns 9)
on_infer_completed_without_output_example =
    on_infer_completed_without_output request 9 rpc empty_infer_response "" rpc-made

highest_of_lem_example :
    (r : ℤ) × (highest_of ("1" ∷ "x" ∷ "12" ∷ []) (negsuc 0) ≡ returns r)
    × IsHighest (negsuc 0) ("1" ∷ "x" ∷ "12" ∷ []) r
highest_of_lem_example = highest_of_lem ("1" ∷ "x" ∷ "12" ∷ []) (negsuc 0)

-- A parser of one file, whose nodes are the paths to them: it has a model_control section and no
-- scheduler.
abbrev present_at : String → Bool
present_at node = str_eq node "model_control"

abbrev yaml : Yaml
yaml = record {
  Node = String;
  load_file = λ file. returns file;
  at = λ node key. key;
  present = present_at;
  as_string = λ node. returns node;
  as_bool = λ node. returns true;
  as_int = λ node. returns (pos 3);
  as_string_or = λ node default. node;
  as_int_or = λ node default. default;
}

abbrev loaded : ServerConfig
loaded = record empty_config {
  model_repo_path = "model_repo_path";
  model_control_cfg = record empty_config.model_control_cfg {
    auto_update = true;
    update_interval = pos 5;
    auto_warmup = true;
  };
}

file-loaded : load_server_config yaml "server.yaml" ≡ returns loaded
unfolding load_server_config
file-loaded = refl
