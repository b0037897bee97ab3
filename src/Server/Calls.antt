-- ===== src/Server/Calls.antt =====
-- InferHandler::TakeAction (src/core/server/grpc_server.cc) hands a payload over exactly if it leaves the
-- answer to the callback.
use model_inference_server.Common.{
  ℕ, ◌+◌, ◌≡◌, refl, subst, Option, none, some, String, ℤ, arith, occurs, if◌then◌else◌, nat_key,
  string_key,
}
use model_inference_server.Common.Dict
use model_inference_server.Outcome.{returns}
use model_inference_server.Status.{Status, is_success}
use model_inference_server.Proto.{InferRequest, InferResponse}
use model_inference_server.Payload.{new_payload}
use model_inference_server.InferContext.{GrpcInferRequestContext, new_context}
use model_inference_server.Scheduler.{SimpleScheduler, enqueue}
use model_inference_server.Manager.{ModelRunContext, ModelManager}
use model_inference_server.Manager.Cycle.{infer_async, infer_on, stored}
use model_inference_server.Core.{InferenceCore, with_manager, core_infer_async}
use model_inference_server.Handler.{Action, answers, defers}
use model_inference_server.Handler.Actions.{after_try, submitted, infer_take_action}
use model_inference_server.Server.Opened.{AllOpen, AllOpen-find, stored-AllOpen}
use model_inference_server.Server.Places.{in_map, in_map-put, in_scheduler-enqueue}

-- Whether the payload of this address was handed over.
abbrev pub handed : ℕ → ℕ → Action InferResponse → ℕ
handed a tag (answers response) = 0
handed a tag defers = occurs a tag

module _ (a tag : ℕ) where
  abbrev accepted : Status → ℕ
  accepted status = if is_success status then occurs a tag else 0

  in_map-stored :
      (m m' : ModelManager ℕ) (name : String) (ctx : ModelRunContext ℕ) (status : Status)
      (o : Option (SimpleScheduler ℕ ℕ × Status))
      → AllOpen m.model_map
      → Dict.find name m.model_map ≡ some ctx
      → enqueue ctx.scheduler tag ≡ o
      → stored m name ctx o ≡ some (m', status)
      → in_map a m'.model_map ≡ in_map a m.model_map + accepted status
  in_map-stored m m' name ctx status none v h eo e = absurd (cc e)
  in_map-stored m m' name ctx status (some (s, st)) v h eo e =
      let next = record ctx { scheduler = s } in
      ground (
        arith,
        in_map-put a m.model_map name ctx next h,
        in_scheduler-enqueue a ctx.scheduler s tag st (AllOpen-find m.model_map name ctx v h).0 eo,
      )

  in_map-infer_on :
      (m m' : ModelManager ℕ) (name : String) (status : Status) (o : Option (ModelRunContext ℕ))
      → AllOpen m.model_map
      → Dict.find name m.model_map ≡ o
      → infer_on m name tag o ≡ some (m', status)
      → (in_map a m'.model_map ≡ in_map a m.model_map + accepted status) × AllOpen m'.model_map
  in_map-infer_on m m' name status none v h e =
      let same : m ≡ m' = ground arith in
      let refused : accepted status ≡ 0 = ground arith in
      subst
        (λ (t : ModelManager ℕ).
          (in_map a t.model_map ≡ in_map a m.model_map + accepted status) × AllOpen t.model_map)
        same (omega (arith, refused), v)
  in_map-infer_on m m' name status (some ctx) v h e = (
    in_map-stored m m' name ctx status (enqueue ctx.scheduler tag) v h refl e,
    stored-AllOpen m m' name tag ctx status (enqueue ctx.scheduler tag) v h refl e,
  )

  in_map-infer_async :
      (m m' : ModelManager ℕ) (name : String) (version : ℤ) (status : Status)
      → AllOpen m.model_map
      → infer_async m name version tag ≡ some (m', status)
      → (in_map a m'.model_map ≡ in_map a m.model_map + accepted status) × AllOpen m'.model_map
  unfolding infer_async
  in_map-infer_async m m' name version status v e =
      in_map-infer_on m m' name status (Dict.find name m.model_map) v refl e

  accepted-handed :
      (status : Status) (response : InferResponse)
      → accepted status ≡ handed a tag (after_try status response)
  accepted-handed status response = ground arith

  in_map-submitted :
      (core core' : InferenceCore ℕ) (name : String) (version : ℤ) (response : InferResponse)
      (ctx : GrpcInferRequestContext ℕ) (octx : Option (GrpcInferRequestContext ℕ))
      (action : Action InferResponse) (o : Option (ModelManager ℕ × Status))
      → AllOpen core.model_manager.model_map
      → infer_async core.model_manager name version tag ≡ o
      → submitted response ctx (with_manager core o) ≡ some (core', octx, action)
      → (in_map a core'.model_manager.model_map
          ≡ in_map a core.model_manager.model_map + handed a tag action)
        × AllOpen core'.model_manager.model_map
        × (octx ≡ some ctx)
  in_map-submitted core core' name version response ctx octx action none v eo e = absurd (cc e)
  in_map-submitted core core' name version response ctx octx action (some (m, status)) v eo e =
      let ec : record core { model_manager = m } ≡ core' = ground arith in
      let ea : after_try status response ≡ action = ground arith in
      let (more, opened) = in_map-infer_async core.model_manager m name version status v eo in
      let total : in_map a m.model_map
          ≡ in_map a core.model_manager.model_map + handed a tag (after_try status response) =
        omega (arith, more, accepted-handed status response) in
      (
        subst
            (λ (t : InferenceCore ℕ).
              in_map a t.model_manager.model_map
              ≡ in_map a core.model_manager.model_map + handed a tag action)
            ec
            (subst
              (λ t. in_map a m.model_map ≡ in_map a core.model_manager.model_map + handed a tag t)
              ea total),
        subst (λ (t : InferenceCore ℕ). AllOpen t.model_manager.model_map) ec opened,
        ground arith,
      )

  -- What the call does to the places of a payload, and the context that it leaves in the state.
  pub in_map-infer_take_action :
      (core core' : InferenceCore ℕ) (request : InferRequest) (response : InferResponse)
      (octx : Option (GrpcInferRequestContext ℕ)) (action : Action InferResponse)
      → AllOpen core.model_manager.model_map
      → infer_take_action core tag request response ≡ some (core', octx, action)
      → (in_map a core'.model_manager.model_map
          ≡ in_map a core.model_manager.model_map + handed a tag action)
        × AllOpen core'.model_manager.model_map
        × (ctx : GrpcInferRequestContext ℕ) × (octx ≡ some ctx)
        × (new_context request tag ≡ returns ctx)
  unfolding infer_take_action core_infer_async new_context new_payload
  in_map-infer_take_action core core' request response octx action v e =
      let (total, opened, made) =
        in_map-submitted core core' request.model_name request.model_version response _ octx action
          (infer_async core.model_manager request.model_name request.model_version tag) v refl e in
      (total, opened, _, made, refl)
