-- ===== src/Client/Rpc.antt =====
-- src/clients/infer_rpc_client.h: InferRpcClient. The stub is the RPC library's: it is given the
-- timeout and the request, and yields the response, or none where its status is not ok.
use model_inference_server.Common.{Bool, true, false, Option, none, some, ℤ}
use model_inference_server.Proto.{InferRequest, InferResponse}

-- The options of a call, of which the timeout is set, in milliseconds.
pub record InferRpcClient : Type 0 where
  pub timeout : ℤ

-- The constructor.
unfoldable pub new_infer_rpc_client : ℤ → InferRpcClient
new_infer_rpc_client time_out = record { timeout = time_out }

abbrev answered : InferResponse → Option InferResponse → InferResponse × Bool
answered response none = (response, false)
answered response (some reply) = (reply, true)

unfoldable pub make_infer_request :
    (ℤ → InferRequest → Option InferResponse)
    → InferRpcClient
    → InferRequest
    → InferResponse
    → InferResponse × Bool
make_infer_request stub client request response = answered response (stub client.timeout request)
