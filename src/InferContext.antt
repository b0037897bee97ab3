-- ===== src/InferContext.antt =====
-- src/core/server/grpc_infer_request_context.{h,cc}: the link between an RPC and its payload. The
-- request and the response are those of the RPC's state, which the context points to: they are
-- arguments here. `K` names the RPC whose completion function was bound.
pub mod Delivery
pub mod Callback
use model_inference_server.Common.{
  ℕ, zero, suc, String, Option, some, List, [], ◌∷◌, ◌++◌, length, ℤ, pos, negsuc, Bool, false,
}
use model_inference_server.Outcome.{Outcome, returns, throws, ◌>>=◌}
use model_inference_server.Status.{Status, is_success}
use model_inference_server.Proto.{
  Bytes, RequestStatus, RequestStatusCode, InferRequest, InferResponse, empty_infer_response,
}
use model_inference_server.Payload.{
  MemoryReference, InferencePayload, new_payload, get_output_buffer,
}

pub record GrpcInferRequestContext (K : Type 0) : Type 0 where
  pub infer_payload : InferencePayload K
  pub on_infer_completed_func : K
  pub infer_completed : Bool

-- for (idx < raw_input_size()) inputs_memory.emplace_back(addr, size)
unfoldable pub memory_of : List Bytes → List MemoryReference
memory_of [] = []
memory_of (b ∷ bs) = record { mem_addr = b; length = length b } ∷ memory_of bs

abbrev pub add_raw_output : Bytes → InferResponse → InferResponse
add_raw_output b r = record r { raw_output = r.raw_output ++ b ∷ [] }

-- The passes of `for (idx = 0; idx <= max_output_index; ++idx)` that are left.
abbrev pub rounds : ℤ → ℕ
rounds (pos n) = suc n
rounds (negsuc n) = 0

abbrev pub set_status : RequestStatusCode → String → InferResponse → InferResponse
set_status code message r = record r {
  request_status = record r.request_status { code = code; msg = message };
}

module _ {K : Type 0} where
  -- The constructor. `meta_data()` is a reference, so the header is never null.
  unfoldable pub new_context : InferRequest → K → Outcome (GrpcInferRequestContext K)
  unfolding memory_of new_payload
  new_context infer_request on_completed = do
    payload ←
        new_payload infer_request.model_name infer_request.model_version
          (memory_of infer_request.raw_input) (some infer_request.meta_data) on_completed
    returns (record {
      infer_payload = payload;
      on_infer_completed_func = on_completed;
      infer_completed = false;
    })

  -- *output = GetOutputBuffer(idx), on the output that was just added, and the passes after it.
  abbrev pub after_read :
      (InferencePayload K
        → InferResponse
        → (InferencePayload K × InferResponse) × Outcome (Unit {0}))
      → InferResponse
      → InferencePayload K × Outcome Bytes
      → (InferencePayload K × InferResponse) × Outcome (Unit {0})
  after_read rest response (p, throws e) = ((p, add_raw_output [] response), throws e)
  after_read rest response (p, returns buffer) = rest p (add_raw_output buffer response)

  unfoldable pub copy_outputs :
      ℕ
      → ℕ
      → InferencePayload K
      → InferResponse
      → (InferencePayload K × InferResponse) × Outcome (Unit {0})
  copy_outputs zero idx p response = ((p, response), returns tt)
  copy_outputs (suc left) idx p response =
      after_read (copy_outputs left (suc idx)) response (get_output_buffer p (pos idx))

  -- meta_data->Swap(GetInferResponseHeader())
  abbrev swap_header : InferencePayload K → InferResponse → InferencePayload K × InferResponse
  swap_header p r =
      (record p { response_header = r.meta_data }, record r { meta_data = p.response_header })

  abbrev pub succeed :
      String
      → (InferencePayload K × InferResponse) × Outcome (Unit {0})
      → (InferencePayload K × InferResponse) × Outcome (Unit {0})
  succeed message ((p, r), returns _) =
      ((p, set_status RequestStatusCode.success message r), returns tt)
  succeed message ((p, r), throws e) = ((p, r), throws e)

  fill_response :
      Status
      → String
      → InferencePayload K
      → InferResponse
      → (InferencePayload K × InferResponse) × Outcome (Unit {0})
  fill_response Status.success message p response =
      let (p', r) = swap_header p response in
      succeed message (copy_outputs (rounds p'.max_output_index) 0 p' r)
  fill_response _ message p response =
      ((p, set_status RequestStatusCode.internal message empty_infer_response), returns tt)

  -- OnInferCompleted: the new context and response, and the completion function that it calls.
  unfoldable pub on_infer_completed :
      GrpcInferRequestContext K
      → InferResponse
      → Status
      → String
      → (GrpcInferRequestContext K × InferResponse) × Outcome K
  unfolding fill_response
  on_infer_completed ctx response status message =
      let ((p, r), done) = fill_response status message ctx.infer_payload response in
      ((record ctx { infer_payload = p }, r), (done >>= λ _. returns ctx.on_infer_completed_func))
