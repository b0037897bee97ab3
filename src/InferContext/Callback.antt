-- ===== src/InferContext/Callback.antt =====
-- Which RPC GrpcInferRequestContext::OnInferCompleted (src/core/server/grpc_infer_request_context.cc)
-- completes.
use model_inference_server.Common.{◌≡◌, refl, String}
use model_inference_server.Outcome.{Outcome, returns, throws, ◌>>=◌}
use model_inference_server.Status.{Status}
use model_inference_server.Proto.{InferResponse}
use model_inference_server.InferContext.{GrpcInferRequestContext, fill_response, on_infer_completed}

then_returns :
    {K : Type 0} (o : Outcome (Unit {0})) (f k : K) → (o >>= λ _. returns f) ≡ returns k → f ≡ k
then_returns (returns u) f k e = cc e
then_returns (throws x) f k e = absurd (cc e)

module _ {K : Type 0} (ctx : GrpcInferRequestContext K) (response : InferResponse) (status : Status)
    (message : String) where
  pub on_infer_completed-func :
      (on_infer_completed ctx response status message).0.0.on_infer_completed_func
      ≡ ctx.on_infer_completed_func
  unfolding on_infer_completed
  on_infer_completed-func = refl

  -- The function that is called is the one that was bound.
  pub on_infer_completed-returns :
      (k : K)
      → (on_infer_completed ctx response status message).1 ≡ returns k
      → ctx.on_infer_completed_func ≡ k
  unfolding on_infer_completed
  on_infer_completed-returns k e =
      then_returns (fill_response status message ctx.infer_payload response).1
        ctx.on_infer_completed_func k e
