-- ===== src/Examples/Serving.antt =====
-- The server put together (src/core), on one inference request.
use mathlib.Core.Option.{get_or}
use model_inference_server.Common.{
  ℕ, ◌≤◌, ◌≡◌, refl, Option, some, none, true, String, ◌∷◌, get_elem?, arith, nat_key, string_key,
}
use model_inference_server.Common.Dict
use model_inference_server.Status.{success, failed_generic, status_text}
use model_inference_server.Proto.{InferRequest, InferResponse, empty_infer_request}
use model_inference_server.Payload.{new_payload}
use model_inference_server.InferContext.{
  GrpcInferRequestContext, new_context, memory_of, set_status,
}
use model_inference_server.Queue.{push, pop}
use model_inference_server.Scheduler.{
  SimpleScheduler, Runner, Completion, exited, completion, process_step, new_scheduler, start,
  enqueue,
}
use model_inference_server.Manager
use model_inference_server.Manager.{ModelRunContext}
use model_inference_server.Manager.Cycle
use model_inference_server.Files.{combine_path, read_file_text}
use model_inference_server.Platform.{convert_string_to_platform_type}
use model_inference_server.Backend
use model_inference_server.Backend.Demo
use model_inference_server.Backend.Demo.{create_backend}
use model_inference_server.Core
use model_inference_server.Core.{InferenceCore}
use model_inference_server.Handler
use model_inference_server.Handler.{Action, defers, HandlerState, next, acted, handle_events, times}
use model_inference_server.Handler.Actions.{infer_take_action}
use model_inference_server.Server.{
  Server, blank, started, with_map, moved, set_context, Reach, here, goes, handler_next,
  take_action, runner_steps,
}
use model_inference_server.Server.Places.{places, in_scheduler}
use model_inference_server.Server.Delivery.{Waits, Reach-Waits, of_model}
use model_inference_server.Examples.Manager.{world, server_cfg, ctx}
use model_inference_server.Server.{deliver}
use model_inference_server.Server.Lost.{Later}
use model_inference_server.Server.Progress.{can_be_answered}
use model_inference_server.Server.Answers.{completion_delivers, completion_refuses}
use model_inference_server.InferContext.Delivery.{described, register_from}
use model_inference_server.Proto.{RequestStatusCode, empty_infer_response}
use model_inference_server.Common.{map}
use model_inference_server.Examples.Parts.{payload, outputs}
use model_inference_server.Examples.Server.{core, core-made}

abbrev pub the_name : String
the_name = "m"

abbrev pub request : InferRequest
request = record empty_infer_request { model_name = "m" }

abbrev pub s0 : Server
s0 = started (Core.start core).0

-- The handler has the request.
abbrev pub s1 : Server
s1 = record s0 { handler = Handler.step blank s0.handler (next 0 true request) }

abbrev pub asked : HandlerState InferRequest InferResponse
asked = get_or (Dict.find 0 s1.handler.states) blank

abbrev pub taken : InferenceCore ℕ × Option (GrpcInferRequestContext ℕ) × Action InferResponse
taken = get_or (infer_take_action s1.core 0 asked.request asked.response) (s1.core, none, defers)

-- Its payload is in the queue of the model.
abbrev pub s2 : Server
s2 = record s1 {
  core = taken.0;
  handler = Handler.step blank s1.handler (acted taken.2);
  contexts = set_context 0 taken.1 s1.contexts;
}

Reach-s1 : Reach s1
Reach-s1 = goes s0 s1 (here world (some server_cfg) core core-made) (handler_next s0 0 true request)

pub first_taken :
    (s1.handler.acting ≡ some 0)
    × (Dict.find 0 s1.handler.states ≡ some asked)
    × (infer_take_action s1.core 0 asked.request asked.response ≡ some (taken.0, taken.1, taken.2))
unfolding infer_take_action Handler.step handle_events Handler.process_state Core.start
    Core.start_grpc_server new_context new_payload memory_of Core.core_infer_async Cycle.infer_async
    Cycle.apply_update Cycle.add_model Manager.load_model Manager.read_config combine_path
    read_file_text Manager.create_model_backend convert_string_to_platform_type create_backend
    Backend.process_model_config Backend.group_valid Demo.create_execute_contexts Cycle.new_context
    Cycle.instance_num start new_scheduler enqueue push process_step pop
first_taken = (refl, refl, refl)

pub Reach-s2 : Reach s2
Reach-s2 =
    let (acting, found, result) = first_taken in
    goes s1 s2 Reach-s1 (take_action s1 0 asked taken.0 taken.1 taken.2 acting found result)

queued : 1 ≤ places 0 s2
unfolding infer_take_action Handler.step handle_events Handler.process_state Core.start
    Core.start_grpc_server new_context new_payload memory_of Core.core_infer_async Cycle.infer_async
    Cycle.apply_update Cycle.add_model Manager.load_model Manager.read_config combine_path
    read_file_text Manager.create_model_backend convert_string_to_platform_type create_backend
    Backend.process_model_config Backend.group_valid Demo.create_execute_contexts Cycle.new_context
    Cycle.instance_num start new_scheduler enqueue push process_step pop
queued = omega arith

Reach-Waits_example : (places 0 s2 ≡ 1) × Waits s2 0
Reach-Waits_example = Reach-Waits s2 0 Reach-s2 queued

-- The model, its first runner, and that runner's next step.
abbrev pub model_of : Server → ModelRunContext ℕ
model_of s = get_or (Dict.find the_name s.core.model_manager.model_map) ctx

abbrev runner_of : Server → Runner ℕ ℕ
runner_of s = get_or (get_elem? (model_of s).scheduler.threads 0) exited

abbrev stepped : Server → SimpleScheduler ℕ ℕ × Runner ℕ ℕ × Option (Completion ℕ)
stepped s =
    get_or (process_step (model_of s).scheduler (runner_of s) success)
      ((model_of s).scheduler, exited, none)

abbrev moved_on : Server → Server
moved_on s = with_map s (
    Dict.put the_name (record (model_of s) { scheduler = moved (stepped s).0 0 (stepped s).1 })
      s.core.model_manager.model_map)

abbrev Moves : Server → Option (Completion ℕ) → Type 0
Moves s c =
    (Dict.find the_name s.core.model_manager.model_map ≡ some (model_of s))
    × (get_elem? (model_of s).scheduler.threads 0 ≡ some (runner_of s))
    × (process_step (model_of s).scheduler (runner_of s) success
        ≡ some ((stepped s).0, (stepped s).1, c))

Moves-on : (s : Server) → Reach s → Moves s none → Reach (moved_on s)
Moves-on s r (e, h, p) = goes s (moved_on s) r (
    runner_steps s (moved_on s) the_name (model_of s) 0 (runner_of s) success (stepped s).0
      (stepped s).1 none payload e h p refl)

-- The runner tests the flag, pops the payload, takes the function, and ends its call.
abbrev s5 : Server
s5 = moved_on (moved_on (moved_on s2))

runs :
    Moves s2 none
    × Moves (moved_on s2) none
    × Moves (moved_on (moved_on s2)) none
    × Moves s5 (some (completion 0 success))
unfolding infer_take_action Handler.step handle_events Handler.process_state Core.start
    Core.start_grpc_server new_context new_payload memory_of Core.core_infer_async Cycle.infer_async
    Cycle.apply_update Cycle.add_model Manager.load_model Manager.read_config combine_path
    read_file_text Manager.create_model_backend convert_string_to_platform_type create_backend
    Backend.process_model_config Backend.group_valid Demo.create_execute_contexts Cycle.new_context
    Cycle.instance_num start new_scheduler enqueue push process_step pop
runs = ((refl, refl, refl), (refl, refl, refl), (refl, refl, refl), (refl, refl, refl))

Reach-s5 : Reach s5
Reach-s5 =
    Moves-on (moved_on (moved_on s2)) (Moves-on (moved_on s2) (Moves-on s2 Reach-s2 runs.0) runs.1)
      runs.2

queued_there : 1 ≤ in_scheduler 0 (model_of s2).scheduler
unfolding infer_take_action Handler.step handle_events Handler.process_state Core.start
    Core.start_grpc_server new_context new_payload memory_of Core.core_infer_async Cycle.infer_async
    Cycle.apply_update Cycle.add_model Manager.load_model Manager.read_config combine_path
    read_file_text Manager.create_model_backend convert_string_to_platform_type create_backend
    Backend.process_model_config Backend.group_valid Demo.create_execute_contexts Cycle.new_context
    Cycle.instance_num start new_scheduler enqueue push process_step pop
queued_there = omega arith

can_be_answered_example : (s' : Server) × Later s2 s' × (times 0 s'.handler.finished ≡ 1)
can_be_answered_example =
    can_be_answered s2 the_name (model_of s2) 0 (runner_of s2) 0 failed_generic payload Reach-s2
      runs.0.0 runs.0.1 queued_there (λ h. cc h)

-- The outputs of Parts, registered by the backend.
completion_delivers_example :
    (ctx : GrpcInferRequestContext ℕ) × (Dict.find {K = ℕ} 0 s5.contexts ≡ some ctx)
    × (s' : Server) × (deliver s5 (completion 0 success) (register_from 0 outputs ctx.infer_payload)
        ≡ some s')
    × (response : InferResponse) × (s'.handler.finished ≡ (0, response) ∷ s5.handler.finished)
    × (response.raw_output ≡ map (λ o. o.content) outputs)
    × (response.meta_data.output ≡ map described outputs)
    × (response.request_status.code ≡ RequestStatusCode.success)
unfolding completion
completion_delivers_example =
    completion_delivers s5 (model_of s5).scheduler (stepped s5).0 0 (runner_of s5) (stepped s5).1
      (completion 0 success) outputs Reach-s5 (of_model the_name (model_of s5) runs.3.0 refl)
      runs.3.1 runs.3.2 (λ h. cc h)

-- The same call, if it fails.
fails :
    process_step (model_of s5).scheduler (runner_of s5) failed_generic
    ≡ some ((stepped s5).0, (stepped s5).1, some (completion 0 failed_generic))
unfolding infer_take_action Handler.step handle_events Handler.process_state Core.start
    Core.start_grpc_server new_context new_payload memory_of Core.core_infer_async Cycle.infer_async
    Cycle.apply_update Cycle.add_model Manager.load_model Manager.read_config combine_path
    read_file_text Manager.create_model_backend convert_string_to_platform_type create_backend
    Backend.process_model_config Backend.group_valid Demo.create_execute_contexts Cycle.new_context
    Cycle.instance_num start new_scheduler enqueue push process_step pop
fails = refl

completion_refuses_example :
    (s' : Server) × (deliver s5 (completion 0 failed_generic) payload ≡ some s')
    × (s'.handler.finished
        ≡ (
          0,
          set_status RequestStatusCode.internal (status_text failed_generic) empty_infer_response,
        )
          ∷ s5.handler.finished)
unfolding completion
completion_refuses_example =
    completion_refuses s5 (model_of s5).scheduler (stepped s5).0 0 (runner_of s5) (stepped s5).1
      failed_generic (completion 0 failed_generic) payload Reach-s5
      (of_model the_name (model_of s5) runs.3.0 refl) runs.3.1 fails (λ h. cc h)
