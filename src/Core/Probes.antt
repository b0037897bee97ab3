-- ===== src/Core/Probes.antt =====
-- GetStatus and GetHealth of InferenceCore (src/core/server/inference_core.cc), side by side with
-- what InferAsync does at the same time.
use model_inference_server.Common.{
  ℕ, ◌≡◌, refl, ◌≢◌, ◌↔◌, ◌⊎◌, inl, inr, true, none, some, String, [], ◌∷◌, ℤ, arith, string_key,
  str_eq_iff,
}
use model_inference_server.Common.Dict
use model_inference_server.Common.Dict.{Dict, IsDict}
use model_inference_server.Status.{Status, success, failed_infer_no_backend_found}
use model_inference_server.Proto.{
  HealthRequest, HealthResponse, StatusRequest, StatusResponse, RequestStatusCode, ServerReadyState,
}
use model_inference_server.Scheduler.{SimpleScheduler, enqueue}
use model_inference_server.Queue.{push}
use model_inference_server.Manager.{ModelRunContext}
use model_inference_server.Manager.Cycle.{get_number_of_live_models}
use model_inference_server.Manager.Requests.{infer_async_cases, find-get_model_status}
use model_inference_server.Core.{InferenceCore, get_status, get_health, core_infer_async}

abbrev at_ready : HealthRequest
at_ready = record { mode = "ready" }

abbrev live : String
live = "live"

live≢ready : live ≢ "ready"
live≢ready h = cc ((str_eq_iff "live" "ready").1 h)

module _ {P : Type 0} where
  ready_at :
      (core : InferenceCore P) (response : HealthResponse) (m : Dict String (ModelRunContext P))
      → core.model_manager.model_map ≡ m
      → ((get_health core at_ready response).0.health ≡ true) ↔ (m ≢ [])
  unfolding get_health get_number_of_live_models
  ready_at core response [] e = ground arith
  ready_at core response (x ∷ xs) e = ground arith

  abbrev pub ByMode :
      InferenceCore P → HealthRequest → HealthResponse → Dict String (ModelRunContext P) → Type 0
  ByMode core request response m =
      let r = get_health core request response in
      (r.1 ≡ success)
      × (((request.mode ≡ live)
            × (r.0.health ≡ true)
            × (r.0.request_status.code ≡ RequestStatusCode.success))
          ⊎ ((request.mode ≡ "ready")
              × ((r.0.health ≡ true) ↔ (m ≢ []))
              × (r.0.request_status.code ≡ RequestStatusCode.success))
          ⊎ ((request.mode ≢ live)
              × (request.mode ≢ "ready")
              × (r.0.health ≡ response.health)
              × (r.0.request_status.code ≡ RequestStatusCode.unsupported)))

  by_mode :
      (core : InferenceCore P) (request : HealthRequest) (response : HealthResponse)
      (m : Dict String (ModelRunContext P))
      → core.model_manager.model_map ≡ m
      → ByMode core request response m
  unfolding get_health get_number_of_live_models
  by_mode core request response [] e =
      ground (arith, str_eq_iff request.mode "live", str_eq_iff request.mode "ready", live≢ready)
  by_mode core request response (x ∷ xs) e =
      ground (arith, str_eq_iff request.mode "live", str_eq_iff request.mode "ready", live≢ready)

  -- GetHealth always returns Success, and answers by the mode: "live" is healthy and "ready" is
  -- healthy exactly if a model is loaded, both with the code SUCCESS; for any other mode the code is
  -- UNSUPPORTED and the health is what it was.
  pub get_health-ByMode :
      (core : InferenceCore P) (request : HealthRequest) (response : HealthResponse)
      → ByMode core request response core.model_manager.model_map
  get_health-ByMode core request response =
      by_mode core request response core.model_manager.model_map refl

  status_at :
      (core : InferenceCore P) (request : StatusRequest) (response : StatusResponse)
      (m : Dict String (ModelRunContext P))
      → core.model_manager.model_map ≡ m
      → ((get_status core request response).0.server_status.ready_state
          ≡ ServerReadyState.server_ready)
        ↔ (m ≢ [])
  unfolding get_status get_number_of_live_models
  status_at core request response [] e = ground arith
  status_at core request response (x ∷ xs) e = ground arith

  -- The two ways to ask whether the server is ready agree: GetStatus says SERVER_READY exactly if
  -- GetHealth of "ready" says true.
  pub probes_agree :
      (core : InferenceCore P) (request : StatusRequest) (status : StatusResponse)
      (health : HealthResponse)
      → ((get_status core request status).0.server_status.ready_state
          ≡ ServerReadyState.server_ready)
        ↔ ((get_health core at_ready health).0.health ≡ true)
  probes_agree core request status health =
      let (sf, sb) = status_at core request status core.model_manager.model_map refl in
      let (hf, hb) = ready_at core health core.model_manager.model_map refl in
      ((λ h. hb (sf h)), λ h. sb (hf h))

  enqueue-admits :
      (s s' : SimpleScheduler P ℕ) (p : P) (status : Status)
      → enqueue s p ≡ some (s', status)
      → status ≢ failed_infer_no_backend_found
  unfolding enqueue push
  enqueue-admits s s' p status e h = ground arith

  -- GetStatus lists exactly the models that InferAsync finds: a name is missing from the status
  -- response if, and only if, InferAsync for it returns Failed_Infer_No_Backend_Found.
  pub status_lists_served :
      (core : InferenceCore P) (request : StatusRequest) (response : StatusResponse) (name : String)
      (version : ℤ) (payload : P)
      → IsDict core.model_manager.model_map
      → (Dict.find name (get_status core request response).0.server_status.model_status ≡ none)
        ↔ (core_infer_async core name version payload ≡ some (core, failed_infer_no_backend_found))
  status_lists_served core request response name version payload ok =
      elim (infer_async_cases core.model_manager name version payload) [
        | inl (e, none_found) ↦ (
          (λ h. unfold core_infer_async in rw none_found refl),
          λ h. unfold get_status in rw (find-get_model_status core.model_manager name ok, e) refl,
        )
        | inr (ctx, e, inl (waits, stuck)) ↦ (
          (λ h.
              unfold get_status in
              ground (arith, find-get_model_status core.model_manager name ok)),
          λ h. unfold core_infer_async in ground arith,
        )
        | inr (ctx, e, inr (s, status, m', accepted, done, routed)) ↦ (
          (λ h.
              unfold get_status in
              ground (arith, find-get_model_status core.model_manager name ok)),
          λ h. absurd (
              enqueue-admits ctx.scheduler s payload status accepted
                (unfold core_infer_async in ground arith)),
        )
      ]
