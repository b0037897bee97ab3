-- ===== src/Examples/Lost.antt =====
-- A request that is lost when the manager stops (src/core/scheduler/simple_scheduler.cc): its payload is
-- in the queue, no runner takes it in time, and Stop of the scheduler breaks the queue.
use mathlib.Core.Option.{get_or}
use model_inference_server.Common.{
  ℕ, ◌≤◌, ◌≡◌, ◌⊎◌, refl, Option, some, none, false, ◌++◌, get_elem?, set, remove_at, count, arith,
  nat_key, string_key,
}
use model_inference_server.Common.Dict
use model_inference_server.Status.{success}
use model_inference_server.Payload.{new_payload}
use model_inference_server.InferContext.{new_context, memory_of}
use model_inference_server.Queue.{push, pop, break_all}
use model_inference_server.Scheduler.{
  SimpleScheduler, Runner, Completion, exited, StopPhase, not_called, returned, process_step,
  stop_step, new_scheduler, start, enqueue,
}
use model_inference_server.Manager
use model_inference_server.Manager.Cycle
use model_inference_server.Files.{combine_path, read_file_text}
use model_inference_server.Platform.{convert_string_to_platform_type}
use model_inference_server.Backend
use model_inference_server.Backend.Demo
use model_inference_server.Backend.Demo.{create_backend}
use model_inference_server.Core
use model_inference_server.Handler
use model_inference_server.Handler.{handle_events, HandlerState, process, is_acting}
use model_inference_server.Proto.{InferRequest, InferResponse}
use model_inference_server.Handler.Actions.{infer_take_action}
use model_inference_server.Server.{
  Server, blank, moved, payloads, all_retired, Reach, goes, retiring_runner_steps, retiring_stops,
  retiring_ends, manager_stops,
}
use model_inference_server.Server.Places.{places}
use model_inference_server.Server.Delivery.{Waits}
use model_inference_server.Server.Lost.{process-places, now, lost_for_good}
use model_inference_server.Examples.Parts.{payload}
use model_inference_server.Examples.Serving.{s2, Reach-s2, model_of}

-- The scheduler that retires, with the phase of its Stop, and its runners.
abbrev retiring_of : Server → SimpleScheduler ℕ ℕ × StopPhase
retiring_of s = get_or (get_elem? s.retiring 0) ((model_of s2).scheduler, not_called)

abbrev runner_of : Server → ℕ → Runner ℕ ℕ
runner_of s i = get_or (get_elem? (retiring_of s).0.threads i) exited

abbrev state_of : Server → HandlerState InferRequest InferResponse
state_of s = get_or (Dict.find 0 s.handler.states) blank

abbrev stopping : Server
stopping = record s2 {
  core = record s2.core { model_manager = (Cycle.stop_manager s2.core.model_manager).0 };
  retiring = all_retired s2.core.model_manager.model_map;
}

-- Stop of the scheduler goes on, `toc` after it began; a runner, when the flag is down.
abbrev stop_result : Server → ℕ → SimpleScheduler ℕ ℕ × StopPhase
stop_result s toc = get_or (stop_step (retiring_of s).0 (retiring_of s).1 toc) (retiring_of s)

abbrev stops : Server → ℕ → Server
stops s toc = record s { retiring = set s.retiring 0 (stop_result s toc) }

abbrev runner_result : Server → ℕ → SimpleScheduler ℕ ℕ × Runner ℕ ℕ × Option (Completion ℕ)
runner_result s i =
    get_or (process_step (retiring_of s).0 (runner_of s i) success)
      ((retiring_of s).0, exited, none)

abbrev runs_out : Server → ℕ → Server
runs_out s i = record s {
  retiring =
      set s.retiring 0 (moved (runner_result s i).0 i (runner_result s i).1, (retiring_of s).1);
}

abbrev ended : Server → Server
ended s = record s {
  retiring = remove_at s.retiring 0;
  lost = s.lost ++ payloads (retiring_of s).0;
}

abbrev before_exit : Server
before_exit = stops (stops (stops stopping 0) 120) 120

abbrev after_exit : Server
after_exit = runs_out (runs_out before_exit 0) 1

abbrev before_end : Server
before_end = stops after_exit 120

abbrev Stops : Server → ℕ → Type 0
Stops s toc =
    (get_elem? s.retiring 0 ≡ some ((retiring_of s).0, (retiring_of s).1))
    × (stop_step (retiring_of s).0 (retiring_of s).1 toc
        ≡ some ((stop_result s toc).0, (stop_result s toc).1))

Stops-on : (s : Server) (toc : ℕ) → Reach s → Stops s toc → Reach (stops s toc)
Stops-on s toc r (h, e) = goes s (stops s toc) r (
    retiring_stops s 0 (retiring_of s).0 (retiring_of s).1 toc (stop_result s toc).0
      (stop_result s toc).1 h e)

abbrev Exits : Server → ℕ → Type 0
Exits s i =
    (get_elem? s.retiring 0 ≡ some ((retiring_of s).0, (retiring_of s).1))
    × (get_elem? (retiring_of s).0.threads i ≡ some (runner_of s i))
    × (process_step (retiring_of s).0 (runner_of s i) success
        ≡ some ((runner_result s i).0, (runner_result s i).1, none))

Exits-on : (s : Server) (i : ℕ) → Reach s → Exits s i → Reach (runs_out s i)
Exits-on s i r (h, ht, e) = goes s (runs_out s i) r (
    retiring_runner_steps s (runs_out s i) 0 (retiring_of s).0 (retiring_of s).1 i (runner_of s i)
      success (runner_result s i).0 (runner_result s i).1 none payload h ht e refl)

-- Stop waits, gives up after 120 ms, breaks the queue, joins the two runners, and returns.
all_stop :
    Stops stopping 0
    × Stops (stops stopping 0) 120
    × Stops (stops (stops stopping 0) 120) 120
    × Exits before_exit 0
    × Exits (runs_out before_exit 0) 1
    × Stops after_exit 120
    × (get_elem? before_end.retiring 0 ≡ some ((retiring_of before_end).0, returned success))
unfolding infer_take_action Handler.step handle_events Handler.process_state Core.start
    Core.start_grpc_server new_context new_payload memory_of Core.core_infer_async Cycle.infer_async
    Cycle.apply_update Cycle.add_model Manager.load_model Manager.read_config combine_path
    read_file_text Manager.create_model_backend convert_string_to_platform_type create_backend
    Backend.process_model_config Backend.group_valid Demo.create_execute_contexts Cycle.new_context
    Cycle.instance_num start new_scheduler enqueue push process_step pop stop_step break_all
    Cycle.stop_manager
all_stop = (
  (refl, refl),
  (refl, refl),
  (refl, refl),
  (refl, refl, refl),
  (refl, refl, refl),
  (refl, refl),
  refl,
)

abbrev s_lost : Server
s_lost = ended before_end

Reach-before_exit : Reach before_exit
Reach-before_exit =
    Stops-on (stops (stops stopping 0) 120) 120
      (Stops-on (stops stopping 0) 120
        (Stops-on stopping 0 (goes s2 stopping Reach-s2 (manager_stops s2)) all_stop.0) all_stop.1)
      all_stop.2

Reach-s_lost : Reach s_lost
Reach-s_lost =
    goes before_end s_lost
      (Stops-on after_exit 120
        (Exits-on (runs_out before_exit 0) 1 (Exits-on before_exit 0 Reach-before_exit all_stop.3)
          all_stop.4)
        all_stop.5)
      (retiring_ends before_end 0 (retiring_of before_end).0 success all_stop.6)

is_lost : 1 ≤ count 0 s_lost.lost
unfolding infer_take_action Handler.step handle_events Handler.process_state Core.start
    Core.start_grpc_server new_context new_payload memory_of Core.core_infer_async Cycle.infer_async
    Cycle.apply_update Cycle.add_model Manager.load_model Manager.read_config combine_path
    read_file_text Manager.create_model_backend convert_string_to_platform_type create_backend
    Backend.process_model_config Backend.group_valid Demo.create_execute_contexts Cycle.new_context
    Cycle.instance_num start new_scheduler enqueue push process_step pop stop_step break_all
    Cycle.stop_manager
is_lost = omega arith

lost_for_good_example : (places 0 s_lost ≡ 0) × Waits s_lost 0
lost_for_good_example = lost_for_good s_lost s_lost 0 Reach-s_lost is_lost now

in_process :
    (Dict.find 0 s2.handler.states ≡ some (state_of s2))
    × ((state_of s2).step ≡ process)
    × (is_acting 0 s2.handler.acting ≡ false)
unfolding infer_take_action Handler.step handle_events Handler.process_state Core.start
    Core.start_grpc_server new_context new_payload memory_of Core.core_infer_async Cycle.infer_async
    Cycle.apply_update Cycle.add_model Manager.load_model Manager.read_config combine_path
    read_file_text Manager.create_model_backend convert_string_to_platform_type create_backend
    Backend.process_model_config Backend.group_valid Demo.create_execute_contexts Cycle.new_context
    Cycle.instance_num start new_scheduler enqueue push process_step pop stop_step break_all
    Cycle.stop_manager
in_process = (refl, refl, refl)

process-places_example :
    ((places 0 s2 ≡ 1) × (count 0 s2.lost ≡ 0)) ⊎ ((places 0 s2 ≡ 0) × (count 0 s2.lost ≡ 1))
process-places_example =
    process-places s2 0 (state_of s2) Reach-s2 in_process.0 in_process.1 in_process.2
