-- ===== src/Handler/Actions.antt =====
-- The TakeAction of InferHandler, StatusHandler and HealthHandler (src/core/server/grpc_server.cc).
-- The pointer to a payload is the address of its RPC's state, to which the callback is bound.
use model_inference_server.Common.{
  ℕ, ◌<◌, ◌≤◌, ◌⊎◌, ◌≡◌, [], ◌∷◌, ◌++◌, length, refl, inl, inr, subst, true, false, Bool-cases,
  Option, none, some, String, arith, string_key, ℤ,
}
use model_inference_server.Common.Dict
use model_inference_server.Outcome.{Outcome, returns, throws}
use model_inference_server.Status.{
  Status, success, failed_generic, failed_infer_no_backend_found, failed_scheduler_not_running,
  status_text,
}
use model_inference_server.Proto.{
  InferRequest, InferResponse, StatusRequest, StatusResponse, HealthRequest, HealthResponse,
  RequestStatusCode,
}
use model_inference_server.Payload.{new_payload}
use model_inference_server.InferContext.{GrpcInferRequestContext, new_context, set_status}
use model_inference_server.Queue.{push}
use model_inference_server.Scheduler.{SimpleScheduler, enqueue}
use model_inference_server.Manager.{ModelRunContext, ModelManager}
use model_inference_server.Manager.Cycle.{infer_async}
use model_inference_server.Manager.Requests.{Routed, InferCase, infer_async_cases}
use model_inference_server.Core.{
  InferenceCore, with_manager, core_infer_async, get_status, get_health,
}
use model_inference_server.Handler.{Action, answers, defers}

unfoldable pub status_take_action :
    InferenceCore ℕ → StatusRequest → StatusResponse → Action StatusResponse
status_take_action core request response = answers (get_status core request response).0

unfoldable pub health_take_action :
    InferenceCore ℕ → HealthRequest → HealthResponse → Action HealthResponse
health_take_action core request response = answers (get_health core request response).0

-- After the try block, with the status that it left.
abbrev pub after_try : Status → InferResponse → Action InferResponse
after_try success response = defers
after_try status response =
    answers (set_status RequestStatusCode.internal (status_text status) response)

abbrev pub submitted :
    InferResponse
    → GrpcInferRequestContext ℕ
    → Option (InferenceCore ℕ × Status)
    → Option (InferenceCore ℕ × Option (GrpcInferRequestContext ℕ) × Action InferResponse)
submitted response ctx none = none
submitted response ctx (some (core, status)) = some (core, some ctx, after_try status response)

abbrev pub tried :
    InferenceCore ℕ
    → ℕ
    → InferResponse
    → Outcome (GrpcInferRequestContext ℕ)
    → Option (InferenceCore ℕ × Option (GrpcInferRequestContext ℕ) × Action InferResponse)
tried core tag response (throws e) = some (core, none, after_try failed_generic response)
tried core tag response (returns ctx) =
    submitted response ctx
      (core_infer_async core ctx.infer_payload.model_name ctx.infer_payload.model_version tag)

-- The core, the context that the state holds, and what is done; none while InferAsync waits.
unfoldable pub infer_take_action :
    InferenceCore ℕ
    → ℕ
    → InferRequest
    → InferResponse
    → Option (InferenceCore ℕ × Option (GrpcInferRequestContext ℕ) × Action InferResponse)
infer_take_action core tag request response = tried core tag response (new_context request tag)

-- An answer with the code INTERNAL and the text of a status, and the rest of the response as it was.
abbrev pub refusal : Status → InferResponse → Action InferResponse
refusal status response =
    answers (set_status RequestStatusCode.internal (status_text status) response)

-- The five things that become of an inference request.
pub data Fate (core : InferenceCore ℕ) (tag : ℕ) (request : InferRequest) (response : InferResponse)
    : Type 0 where
  no_model :
      (ctx : GrpcInferRequestContext ℕ)
      → Dict.find request.model_name core.model_manager.model_map ≡ none
      → infer_take_action core tag request response
        ≡ some (core, some ctx, refusal failed_infer_no_backend_found response)
      → Fate core tag request response
  model_stopped :
      (ctx : GrpcInferRequestContext ℕ) (core' : InferenceCore ℕ) (run : ModelRunContext ℕ)
      → Dict.find request.model_name core.model_manager.model_map ≡ some run
      → run.scheduler.running ≡ false
      → Routed core.model_manager core'.model_manager request.model_name run run.scheduler
      → infer_take_action core tag request response
        ≡ some (core', some ctx, refusal failed_scheduler_not_running response)
      → Fate core tag request response
  waits_for_room :
      (run : ModelRunContext ℕ)
      → Dict.find request.model_name core.model_manager.model_map ≡ some run
      → run.scheduler.running ≡ true
      → run.scheduler.queue.broken ≡ false
      → run.scheduler.queue.capacity ≤ length run.scheduler.queue.buffer
      → infer_take_action core tag request response ≡ none
      → Fate core tag request response
  handed_over :
      (ctx : GrpcInferRequestContext ℕ) (core' : InferenceCore ℕ) (run : ModelRunContext ℕ)
      → Dict.find request.model_name core.model_manager.model_map ≡ some run
      → run.scheduler.running ≡ true
      → run.scheduler.queue.broken ≡ false
      → length run.scheduler.queue.buffer < run.scheduler.queue.capacity
      → Routed core.model_manager core'.model_manager request.model_name run (record run.scheduler {
        queue = record run.scheduler.queue { buffer = run.scheduler.queue.buffer ++ tag ∷ [] };
      })
      → infer_take_action core tag request response ≡ some (core', some ctx, defers)
      → Fate core tag request response
  dropped :
      (ctx : GrpcInferRequestContext ℕ) (core' : InferenceCore ℕ) (run : ModelRunContext ℕ)
      → Dict.find request.model_name core.model_manager.model_map ≡ some run
      → run.scheduler.running ≡ true
      → run.scheduler.queue.broken ≡ true
      → Routed core.model_manager core'.model_manager request.model_name run run.scheduler
      → infer_take_action core tag request response ≡ some (core', some ctx, defers)
      → Fate core tag request response

made :
    (request : InferRequest) (tag : ℕ)
    → (ctx : GrpcInferRequestContext ℕ) × (new_context request tag ≡ returns ctx)
      × (ctx.infer_payload.model_name ≡ request.model_name)
unfolding new_context new_payload
made request tag = (_, refl, refl)

enqueue-stopped :
    (s : SimpleScheduler ℕ ℕ) (p : ℕ)
    → s.running ≡ false
    → enqueue s p ≡ some (s, failed_scheduler_not_running)
unfolding enqueue
enqueue-stopped s p h = ground arith

enqueue-full :
    (s : SimpleScheduler ℕ ℕ) (p : ℕ)
    → s.running ≡ true
    → s.queue.broken ≡ false
    → s.queue.capacity ≤ length s.queue.buffer
    → enqueue s p ≡ none
unfolding enqueue push
enqueue-full s p h b e = ground (arith, h, b, e)

enqueue-room :
    (s : SimpleScheduler ℕ ℕ) (p : ℕ)
    → s.running ≡ true
    → s.queue.broken ≡ false
    → length s.queue.buffer < s.queue.capacity
    → enqueue s p
      ≡ some (record s { queue = record s.queue { buffer = s.queue.buffer ++ p ∷ [] } }, success)
unfolding enqueue push
enqueue-room s p h b e = ground (arith, h, b, e)

enqueue-broken :
    (s : SimpleScheduler ℕ ℕ) (p : ℕ)
    → s.running ≡ true
    → s.queue.broken ≡ true
    → enqueue s p ≡ some (s, success)
unfolding enqueue push
enqueue-broken s p h b = ground (arith, h, b)

room_cases : (a b : ℕ) → (a < b) ⊎ (b ≤ a)
room_cases a b = ground arith

-- What InferAsync does, when Enqueue returns.
Routed-by :
    (m : ModelManager ℕ) (name : String) (version : ℤ) (tag : ℕ) (run : ModelRunContext ℕ)
    (s : SimpleScheduler ℕ ℕ) (status : Status)
    → enqueue run.scheduler tag ≡ some (s, status)
    → InferCase m name version tag run
    → (m' : ModelManager ℕ) × (infer_async m name version tag ≡ some (m', status))
      × Routed m m' name run s
Routed-by m name version tag run s status e (inl (stuck, _)) = absurd (cc (stuck, e))
Routed-by m name version tag run s status e (inr (s', status', m', e', d, r)) =
    (m', ground arith, subst (Routed m m' name run) (ground arith) r)

waits_by :
    (m : ModelManager ℕ) (name : String) (version : ℤ) (tag : ℕ) (run : ModelRunContext ℕ)
    → enqueue run.scheduler tag ≡ none
    → InferCase m name version tag run
    → infer_async m name version tag ≡ none
waits_by m name version tag run e (inl (_, d)) = d
waits_by m name version tag run e (inr (s', status', m', e', d, r)) = absurd (cc (e, e'))

module _ (core : InferenceCore ℕ) (tag : ℕ) (request : InferRequest)
    (response : InferResponse) where
  taken :
      (ctx : GrpcInferRequestContext ℕ)
      → new_context request tag ≡ returns ctx
      → ctx.infer_payload.model_name ≡ request.model_name
      → (o : Option (ModelManager ℕ × Status))
      → infer_async core.model_manager request.model_name ctx.infer_payload.model_version tag ≡ o
      → infer_take_action core tag request response ≡ submitted response ctx (with_manager core o)
  unfolding infer_take_action core_infer_async
  taken ctx made n o e = rw (made, n, e) refl

  found :
      (ctx : GrpcInferRequestContext ℕ)
      → new_context request tag ≡ returns ctx
      → ctx.infer_payload.model_name ≡ request.model_name
      → (run : ModelRunContext ℕ)
      → Dict.find request.model_name core.model_manager.model_map ≡ some run
      → InferCase core.model_manager request.model_name ctx.infer_payload.model_version tag run
      → Fate core tag request response
  found ctx made n run h c = elim (Bool-cases run.scheduler.running) [
    | inr off ↦
        let (m', d, r) =
          Routed-by core.model_manager request.model_name _ tag run _ _
            (enqueue-stopped run.scheduler tag off) c in
        model_stopped ctx (record core { model_manager = m' }) run h off r (taken ctx made n _ d)
    | inl on ↦ elim (Bool-cases run.scheduler.queue.broken) [
      | inl broken ↦
          let (m', d, r) =
            Routed-by core.model_manager request.model_name _ tag run _ _
              (enqueue-broken run.scheduler tag on broken) c in
          dropped ctx (record core { model_manager = m' }) run h on broken r (taken ctx made n _ d)
      | inr whole ↦
          elim (room_cases (length run.scheduler.queue.buffer) run.scheduler.queue.capacity) [
            | inr full ↦ waits_for_room run h on whole full (
                taken ctx made n none (
                  waits_by core.model_manager request.model_name _ tag run
                    (enqueue-full run.scheduler tag on whole full) c))
            | inl room ↦
                let (m', d, r) =
                  Routed-by core.model_manager request.model_name _ tag run _ _
                    (enqueue-room run.scheduler tag on whole room) c in
                handed_over ctx (record core { model_manager = m' }) run h on whole room r
                  (taken ctx made n _ d)
          ]
    ]
  ]

-- An inference request has one of five fates, by what the model manager holds for its model. With no
-- such model, or with its scheduler stopped, it is answered at once with INTERNAL and the text of the
-- status. Else, with the queue broken, the payload is dropped and the answer left to the callback; with
-- the queue whole and at its capacity the handler's thread waits; with room, the payload goes to the
-- back of the queue of that model alone and the answer is left to the callback.
pub infer_take_action-Fate :
    (core : InferenceCore ℕ) (tag : ℕ) (request : InferRequest) (response : InferResponse)
    → Fate core tag request response
infer_take_action-Fate core tag request response =
    let (ctx, e, n) = made request tag in
    elim (infer_async_cases core.model_manager request.model_name ctx.infer_payload.model_version
      tag) [
        | inl (h, d) ↦ no_model ctx h (taken core tag request response ctx e n _ d)
        | inr (run, h, c) ↦ found core tag request response ctx e n run h c
      ]
