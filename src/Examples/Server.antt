-- ===== src/Examples/Server.antt =====
-- The handlers, the core and main (src/core/server, src/core/main.cc) at concrete inputs.
use model_inference_server.Common.{
  ℕ, ◌≡◌, refl, ◌↔◌, true, false, some, none, [], ◌∷◌, pos, nat_key, string_key, String,
}
use model_inference_server.Common.Dict
use model_inference_server.Outcome.{returns}
use model_inference_server.Status.{failed_infer_no_backend_found}
use model_inference_server.Proto.{
  HealthRequest, empty_status_response, empty_infer_request, empty_infer_response,
}
use model_inference_server.Manager.Cycle.{create}
use model_inference_server.Core.{InferenceCore, new_core, core_infer_async, get_status}
use model_inference_server.Core.Lifecycle.{
  starts, stops, fresh, answers, call_all, call_all-new_core,
}
use model_inference_server.Core.Probes.{status_lists_served}
use model_inference_server.Handler.Actions.{Fate, infer_take_action-Fate}
use model_inference_server.Main.{
  sigterm, sigint, main_result, outcome_of, main_result-eq-outcome_of,
}
use model_inference_server.Examples.Manager.{world, server_cfg, manager, constructed, made}

abbrev pub core : InferenceCore ℕ
core = record {
  model_manager = constructed;
  grpc_server = record { running = false; registered = false };
  running = false;
}

pub core-made : new_core world (some server_cfg) ≡ returns core
unfolding new_core create
core-made = rw made refl

call_all-new_core_example :
    call_all core (stops ∷ starts ∷ starts ∷ stops ∷ starts ∷ [])
    ≡ answers fresh (stops ∷ starts ∷ starts ∷ stops ∷ starts ∷ [])
call_all-new_core_example =
    call_all-new_core world (some server_cfg) core (stops ∷ starts ∷ starts ∷ stops ∷ starts ∷ [])
      core-made

abbrev serving : InferenceCore ℕ
serving = record {
  model_manager = manager;
  grpc_server = record { running = true; registered = true };
  running = true;
}

abbrev ready : HealthRequest
ready = record { mode = "ready" }

abbrev absent : String
absent = "other"

status_lists_served_example :
    (Dict.find absent
        (get_status serving
          (record { model_name = "m" })
          empty_status_response).0.server_status.model_status
      ≡ none)
    ↔ (core_infer_async serving "other" (pos 1) 8 ≡ some (serving, failed_infer_no_backend_found))
status_lists_served_example =
    status_lists_served serving (record { model_name = "m" }) empty_status_response "other" (pos 1)
      8 (refl, tt)

infer_take_action-Fate_example :
    Fate serving 8 (record empty_infer_request { model_name = "m" }) empty_infer_response
infer_take_action-Fate_example =
    infer_take_action-Fate serving 8 (record empty_infer_request { model_name = "m" })
      empty_infer_response

main_result-eq-outcome_of_example :
    main_result world (some server_cfg) (sigint ∷ []) (sigterm ∷ sigint ∷ [])
    ≡ returns (outcome_of (sigterm ∷ sigint ∷ []))
main_result-eq-outcome_of_example =
    main_result-eq-outcome_of world (some server_cfg) core (sigint ∷ []) (sigterm ∷ sigint ∷ [])
      core-made
