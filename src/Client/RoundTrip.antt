-- ===== src/Client/RoundTrip.antt =====
-- From the outputs of a backend (src/core/inference_payload.cc), through the response
-- (src/core/server/grpc_infer_request_context.cc), to what a client reads of it
-- (src/clients/infer_request_context.cc).
use model_inference_server.Common.{
  ℕ, zero, suc, ◌^◌, ◌<◌, ◌≡◌, ◌≢◌, some, String, List, [], ◌∷◌, map, get_elem?, arith,
}
use model_inference_server.Outcome.{returns}
use model_inference_server.Status.{Status}
use model_inference_server.Proto.{InferRequest, empty_infer_response}
use model_inference_server.InferContext.{GrpcInferRequestContext, new_context, on_infer_completed}
use model_inference_server.InferContext.Delivery.{
  NamedOutput, described, register_from, on_infer_completed_delivers,
}
use model_inference_server.Client.{InferRequestContext, get_infer_output, read, pushed}
use model_inference_server.Client.Outputs.{get_infer_output-read}

get_elem?-map :
    {A B : Type 0} (f : A → B) (xs : List A) (i : ℕ) (x : A)
    → get_elem? xs i ≡ some x
    → get_elem? (map f xs) i ≡ some (f x)
get_elem?-map f [] i x h = absurd (cc h)
get_elem?-map f (y ∷ ys) zero x h = ground (arith, h)
get_elem?-map f (y ∷ ys) (suc i) x h = get_elem?-map f ys i x h

nonempty : {A : Type 0} (xs : List A) (i : ℕ) (x : A) → get_elem? xs i ≡ some x → xs ≢ []
nonempty [] i x h e = cc h
nonempty (y ∷ ys) i x h e = cc e

-- From the backend to the client: of the outputs that a backend registered under 0, 1, 2, … the
-- client reads at each index below 2 ^ 31 the bytes of the output of that index, with each dimension of
-- its shape modulo 2 ^ 32, from the response that a successful inference leaves of an empty one.
pub outputs_reach_client :
    {K : Type 0} (request : InferRequest) (k : K) (ctx : GrpcInferRequestContext K)
    (os : List NamedOutput) (message : String) (client : InferRequestContext) (i : ℕ)
    (o : NamedOutput)
    → new_context request k ≡ returns ctx
    → get_elem? os i ≡ some o
    → i < 2 ^ 31
    → let done =
        on_infer_completed
          (record ctx { infer_payload = register_from 0 os ctx.infer_payload })
          empty_infer_response
          Status.success
          message in
      get_infer_output (record client { infer_response = done.0.1 }) i []
      ≡ read o.content (pushed [] o.shape)
outputs_reach_client request k ctx os message client i o made h lt =
    let (raw, header, _, _, _) =
      on_infer_completed_delivers request k ctx os empty_infer_response message made
        (nonempty os i o h) in
    get_infer_output-read _ i [] (described o) o.content
      (rw header (get_elem?-map described os i o h))
      (rw raw (get_elem?-map (λ x. x.content) os i o h)) lt
