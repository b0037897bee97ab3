-- ===== src/Server.antt =====
-- The server put together: the thread of the InferHandler (src/core/server/grpc_server.cc), the RPCs'
-- contexts (src/core/server/grpc_infer_request_context.cc), the model manager with a scheduler for each
-- model (src/core/model_manager/model_manager.cc), and their runners
-- (src/core/scheduler/simple_scheduler.cc), as a relation between states: one step of one thread.
-- A scheduler whose context is destroyed stands in `retiring` until its Stop has returned, for its
-- runners go on meanwhile; `lost` are the payloads that were still with one when it was destroyed. The
-- pointer to a payload is the address of its RPC's state.
pub mod Places
pub mod Loading
pub mod Opened
pub mod Calls
pub mod Room
pub mod Startup
pub mod Invariant
pub mod Steps
pub mod Delivery
pub mod Answers
pub mod Lost
pub mod Onward
pub mod Progress
pub mod Rpcs
use model_inference_server.Common.{
  ℕ, ◌≡◌, Bool, Option, none, some, List, [], ◌∷◌, ◌++◌, get_elem?, set, remove_at, String, nat_key,
  string_key,
}
use model_inference_server.Common.Dict
use model_inference_server.Common.Dict.{Dict}
use model_inference_server.Outcome.{Outcome, returns, throws}
use model_inference_server.Status.{Status}
use model_inference_server.Proto.{
  InferRequest, InferResponse, empty_infer_request, empty_infer_response,
}
use model_inference_server.Payload.{InferencePayload}
use model_inference_server.InferContext.{GrpcInferRequestContext, on_infer_completed}
use model_inference_server.Scheduler.{
  SimpleScheduler, Runner, ready, calling, Completion, StopPhase, not_called, returned,
  process_step, stop_step,
}
use model_inference_server.Manager.{
  World, ModelRunContext, ModelManager, StateUpdate, get_model_state_update,
}
use model_inference_server.Manager.Cycle.{
  add_model, update_model, delete_model, each, apply_update, stop_manager,
}
use model_inference_server.Config.{ServerConfig}
use model_inference_server.Core.{InferenceCore, new_core, start}
use model_inference_server.Handler
use model_inference_server.Handler.{
  CallStep, HandlerState, Handler, Event, next, acted, completed, Action, handle_events,
}
use model_inference_server.Handler.Actions.{infer_take_action}

pub record Server : Type 0 where
  pub core : InferenceCore ℕ
  pub handler : Handler InferRequest InferResponse
  pub contexts : Dict ℕ (GrpcInferRequestContext ℕ)
  pub retiring : List (SimpleScheduler ℕ ℕ × StopPhase)
  pub lost : List ℕ

-- A new HandlerState, with its messages cleared.
abbrev pub blank : HandlerState InferRequest InferResponse
blank = record {
  step = CallStep.start;
  request = empty_infer_request;
  response = empty_infer_response;
}

-- A server that has just started: the handler has asked for its first request.
abbrev pub started : InferenceCore ℕ → Server
started core = record {
  core = core;
  handler = handle_events blank;
  contexts = [];
  retiring = [];
  lost = [];
}

abbrev pub with_map : Server → Dict String (ModelRunContext ℕ) → Server
with_map s m = record s {
  core = record s.core { model_manager = record s.core.model_manager { model_map = m } };
}

-- SetGrpcInferRequestContext
abbrev pub set_context :
    ℕ
    → Option (GrpcInferRequestContext ℕ)
    → Dict ℕ (GrpcInferRequestContext ℕ)
    → Dict ℕ (GrpcInferRequestContext ℕ)
set_context tag none contexts = contexts
set_context tag (some ctx) contexts = Dict.put tag ctx contexts

abbrev pub retire :
    Option (ModelRunContext ℕ)
    → List (SimpleScheduler ℕ ℕ × StopPhase)
    → List (SimpleScheduler ℕ ℕ × StopPhase)
retire none rest = rest
retire (some ctx) rest = (ctx.scheduler, not_called) ∷ rest

-- The schedulers of the contexts that the loop over the deleted models destroys, one after the other.
unfoldable pub retired : ModelManager ℕ → List String → List (SimpleScheduler ℕ ℕ × StopPhase)
retired m [] = []
retired m (name ∷ names) = retire (Dict.find name m.model_map) (retired (delete_model m name) names)

abbrev pub all_retired : Dict String (ModelRunContext ℕ) → List (SimpleScheduler ℕ ℕ × StopPhase)
all_retired [] = []
all_retired ((name, ctx) ∷ m) = (ctx.scheduler, not_called) ∷ all_retired m

-- What OnInferCompleted of the context has done, and OnCompleted of the state that it is bound to;
-- none where it throws, in a runner's thread, and the program ends.
abbrev pub delivered :
    Server → ℕ → (GrpcInferRequestContext ℕ × InferResponse) × Outcome ℕ → Option Server
delivered s tag ((ctx, response), throws e) = none
delivered s tag ((ctx, response), returns state) = some (record s {
  contexts = Dict.put tag ctx s.contexts;
  handler = Handler.step blank s.handler (completed state response);
})

abbrev pub deliver_to :
    Server
    → Completion ℕ
    → InferencePayload ℕ
    → Option (GrpcInferRequestContext ℕ)
    → Option (HandlerState InferRequest InferResponse)
    → Option Server
deliver_to s c payload none state = none
deliver_to s c payload (some ctx) none = none
deliver_to s c payload (some ctx) (some state) =
    delivered s c.payload (
      on_infer_completed (record ctx { infer_payload = payload }) state.response c.status c.message)

-- The completion of a payload that the backend left as `payload`. None as well where the context or
-- the state is gone, and C++ would use freed memory.
unfoldable pub deliver : Server → Completion ℕ → InferencePayload ℕ → Option Server
deliver s c payload =
    deliver_to s c payload (Dict.find c.payload s.contexts) (Dict.find c.payload s.handler.states)

abbrev pub finished : Server → Option (Completion ℕ) → InferencePayload ℕ → Option Server
finished s none payload = some s
finished s (some c) payload = deliver s c payload

-- What a scheduler has: the payloads in its queue, and with its runners.
abbrev pub in_hands : List (Runner ℕ ℕ) → List ℕ
in_hands [] = []
in_hands (ready p ∷ rs) = p ∷ in_hands rs
in_hands (calling p f ∷ rs) = p ∷ in_hands rs
in_hands (_ ∷ rs) = in_hands rs

abbrev pub payloads : SimpleScheduler ℕ ℕ → List ℕ
payloads s = s.queue.buffer ++ in_hands s.threads

-- A runner of a scheduler has gone one step.
abbrev pub moved : SimpleScheduler ℕ ℕ → ℕ → Runner ℕ ℕ → SimpleScheduler ℕ ℕ
moved s i r = record s { threads = set s.threads i r }

-- One step of one thread.
pub data Step : Server → Server → Type 0 where
  -- The handler's thread: Next returns, and Process; TakeAction, which does nothing to what the
  -- threads share after InferAsync has returned.
  handler_next :
      (s : Server) (i : ℕ) (rpc_ok : Bool) (request : InferRequest)
      → Step s (record s { handler = Handler.step blank s.handler (next i rpc_ok request) })
  take_action :
      (s : Server) (tag : ℕ) (state : HandlerState InferRequest InferResponse)
      (core : InferenceCore ℕ) (ctx : Option (GrpcInferRequestContext ℕ))
      (action : Action InferResponse)
      → s.handler.acting ≡ some tag
      → Dict.find tag s.handler.states ≡ some state
      → infer_take_action s.core tag state.request state.response ≡ some (core, ctx, action)
      → Step s (record s {
        core = core;
        handler = Handler.step blank s.handler (acted action);
        contexts = set_context tag ctx s.contexts;
      })
  -- A runner of a model that is loaded; `payload` is what the backend left, if a call ends.
  runner_steps :
      (s s' : Server) (name : String) (model : ModelRunContext ℕ) (i : ℕ) (r : Runner ℕ ℕ)
      (status : Status) (after : SimpleScheduler ℕ ℕ) (r' : Runner ℕ ℕ) (c : Option (Completion ℕ))
      (payload : InferencePayload ℕ)
      → Dict.find name s.core.model_manager.model_map ≡ some model
      → get_elem? model.scheduler.threads i ≡ some r
      → process_step model.scheduler r status ≡ some (after, r', c)
      → finished
          (with_map s (
            Dict.put name
              (record model { scheduler = moved after i r' })
              s.core.model_manager.model_map))
          c
          payload
        ≡ some s'
      → Step s s'
  -- A runner of a scheduler that stops, and the thread that waits in its Stop.
  retiring_runner_steps :
      (s s' : Server) (j : ℕ) (sched : SimpleScheduler ℕ ℕ) (phase : StopPhase) (i : ℕ)
      (r : Runner ℕ ℕ) (status : Status) (after : SimpleScheduler ℕ ℕ) (r' : Runner ℕ ℕ)
      (c : Option (Completion ℕ)) (payload : InferencePayload ℕ)
      → get_elem? s.retiring j ≡ some (sched, phase)
      → get_elem? sched.threads i ≡ some r
      → process_step sched r status ≡ some (after, r', c)
      → finished (record s { retiring = set s.retiring j (moved after i r', phase) }) c payload
        ≡ some s'
      → Step s s'
  retiring_stops :
      (s : Server) (j : ℕ) (sched : SimpleScheduler ℕ ℕ) (phase : StopPhase) (toc : ℕ)
      (after : SimpleScheduler ℕ ℕ) (phase' : StopPhase)
      → get_elem? s.retiring j ≡ some (sched, phase)
      → stop_step sched phase toc ≡ some (after, phase')
      → Step s (record s { retiring = set s.retiring j (after, phase') })
  retiring_ends :
      (s : Server) (j : ℕ) (sched : SimpleScheduler ℕ ℕ) (status : Status)
      → get_elem? s.retiring j ≡ some (sched, returned status)
      → Step s (record s { retiring = remove_at s.retiring j; lost = s.lost ++ payloads sched })
  -- LoadModels of the update thread, with what the scan has found, and Stop of the manager.
  reloads :
      (s : Server) (w : World) (u : StateUpdate)
      → get_model_state_update w s.core.model_manager ≡ returns u
      → Step s (record s {
        core = record s.core { model_manager = apply_update w s.core.model_manager u };
        retiring =
            s.retiring
            ++ retired
                (each (update_model w) (each (add_model w) s.core.model_manager u.added) u.updated)
                u.deleted;
      })
  manager_stops :
      (s : Server)
      → Step s (record s {
        core = record s.core { model_manager = (stop_manager s.core.model_manager).0 };
        retiring = s.retiring ++ all_retired s.core.model_manager.model_map;
      })

-- What a server comes to once its core was constructed and started.
pub data Reach : Server → Type 0 where
  here :
      (w : World) (cfg : Option ServerConfig) (core : InferenceCore ℕ)
      → new_core w cfg ≡ returns core
      → Reach (started (start core).0)
  goes : (s s' : Server) → Reach s → Step s s' → Reach s'
