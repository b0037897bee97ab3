-- ===== src/Examples/Client.antt =====
-- The client (src/clients) at concrete inputs.
use model_inference_server.Common.{
  ℕ, ◌≡◌, refl, ◌≤◌, ◌⊎◌, some, none, List, [], ◌∷◌, pos, get_elem?, length, arith,
}
use model_inference_server.Outcome.{returns}
use model_inference_server.Proto.{Bytes, Output, empty_infer_request, empty_infer_response}
use model_inference_server.Payload.{get_input_memory}
use model_inference_server.InferContext.{GrpcInferRequestContext, new_context}
use model_inference_server.Client.{
  Buffer, InferRequestContext, add_infer_inputs, clear, get_infer_output, refused, read, pushed,
}
use model_inference_server.Client.Requests.{inputs_reach_server}
use model_inference_server.Client.Outputs.{get_infer_output_cases}
use model_inference_server.Common.{String}
use model_inference_server.Proto.{InferRequest}
use model_inference_server.Client.Inference.{begun, inference_request}
use model_inference_server.Client.Inference.Built.{Reach, Built, inference_request_cases}
use model_inference_server.Client.Inference.Equivalence.{sent, inference_request-infer}
use model_inference_server.Status.{Status}
use model_inference_server.InferContext.{on_infer_completed}
use model_inference_server.InferContext.Delivery.{register_from}
use model_inference_server.Client.RoundTrip.{outputs_reach_client}
use model_inference_server.Examples.Parts.{request, payload, rpc, outputs, rpc-made}

abbrev inputs : List Buffer
inputs =
    record { raw_data = 1 ∷ 2 ∷ 3 ∷ []; byte_size = 2 }
    ∷ record { raw_data = 4 ∷ 5 ∷ []; byte_size = 2 }
    ∷ []

abbrev shapes : List (List ℕ)
shapes = (2 ∷ []) ∷ (1 ∷ 2 ∷ []) ∷ []

abbrev client : InferRequestContext
client = record {
  infer_request = empty_infer_request;
  infer_response = record empty_infer_response {
    meta_data = record empty_infer_response.meta_data {
      output = record { name = "y"; raw = record { dims = pos 2 ∷ []; batch_byte_size = 2 } } ∷ [];
    };
    raw_output = (6 ∷ 7 ∷ []) ∷ [];
  };
}

inputs_reach_server_example :
    let request = (add_infer_inputs (clear client).0 inputs shapes none).0.infer_request in
    (server : GrpcInferRequestContext ℕ) × (new_context request 9 ≡ returns server)
    × (get_input_memory server.infer_payload (pos 1)
        ≡ some (record { mem_addr = 4 ∷ 5 ∷ []; length = 2 }))
inputs_reach_server_example =
    inputs_reach_server client inputs shapes none 9 1
      (record { raw_data = 4 ∷ 5 ∷ []; byte_size = 2 }) refl refl refl

get_infer_output_cases_example :
    ((length client.infer_response.meta_data.output ≤ 0)
      × (get_infer_output client 0 [] ≡ refused []))
    ⊎ ((output : Output) × (get_elem? client.infer_response.meta_data.output 0 ≡ some output)
        × (((length client.infer_response.raw_output ≤ 0)
              × (get_infer_output client 0 [] ≡ refused (pushed [] output.raw.dims)))
            ⊎ ((b : Bytes) × (get_elem? client.infer_response.raw_output 0 ≡ some b)
                × (get_infer_output client 0 [] ≡ read b (pushed [] output.raw.dims)))))
get_infer_output_cases_example = get_infer_output_cases client 0 [] (omega arith)

outputs_reach_client_example :
    let done =
      on_infer_completed
        (record rpc { infer_payload = register_from 0 outputs payload })
        empty_infer_response
        Status.success
        "" in
    get_infer_output (record client { infer_response = done.0.1 }) 1 []
    ≡ read (6 ∷ []) (pushed [] (pos 1 ∷ []))
outputs_reach_client_example =
    outputs_reach_client request 9 rpc outputs "" client 1
      (record { name = "z"; content = 6 ∷ []; shape = pos 1 ∷ [] }) rpc-made refl (omega arith)

abbrev names : List String
names = "a" ∷ "b" ∷ []

inference_request_cases_example :
    let built = inference_request (record { request_id = 4 }) "m" names inputs shapes [] (pos 1) in
    (Reach names shapes [] 2
      × (r : InferRequest) × (built ≡ some r)
      × Built (begun 4 "m" (pos 1)) inputs r)
    ⊎ ((¬ Reach names shapes [] 2) × (built ≡ none))
inference_request_cases_example =
    inference_request_cases (record { request_id = 4 }) "m" names inputs shapes [] (pos 1)

inference_request-infer_example :
    inference_request (record { request_id = 4 }) "m" names inputs shapes [] (pos 1)
    ≡ some (sent 4 "m" (add_infer_inputs (clear client).0 inputs shapes (some names)).0)
inference_request-infer_example =
    inference_request-infer 4 "m" client names inputs shapes (λ h. cc h) refl refl
