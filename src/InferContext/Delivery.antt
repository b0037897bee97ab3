-- ===== src/InferContext/Delivery.antt =====
-- What a client receives of the outputs that a backend registered, through
-- GrpcInferRequestContext::OnInferCompleted (src/core/server/grpc_infer_request_context.cc).
use mathlib.Core.List.{append_assoc, append-nil}
use model_inference_server.Common.{
  ℕ, suc, ◌+◌, ◌≤◌, ◌≡◌, refl, ◌≢◌, sym, ap, String, some, List, [], ◌∷◌, ◌++◌, map, arith, length,
  length-map, take, take_all, ℤ, pos, nat_key, nat_eq_iff, ◌∙◌,
}
use model_inference_server.Common.Dict
use model_inference_server.Common.Dict.{find-put}
use model_inference_server.Outcome.{Outcome, returns, ◌>>=◌}
use model_inference_server.Status.{Status}
use model_inference_server.Proto.{
  Bytes, Output, RequestStatusCode, InferRequest, InferResponse, empty_infer_response,
}
use model_inference_server.Payload.{InferencePayload, register_infer_output, get_output_buffer}
use model_inference_server.InferContext.{
  GrpcInferRequestContext, new_context, add_raw_output, succeed, set_status, copy_outputs,
  on_infer_completed, rounds,
}

-- An output as a backend has it: its name, its buffer and its shape.
pub record NamedOutput : Type 0 where
  pub name : String
  pub content : Bytes
  pub shape : List ℤ

-- The entry of the response header for an output.
abbrev pub described : NamedOutput → Output
described o = record {
  name = o.name;
  raw = record { dims = o.shape; batch_byte_size = length o.content };
}

-- The highest index after registering under `i`, `i + 1`, … with `m` the highest before.
abbrev top : ℕ → ℕ → List NamedOutput → ℕ
top m i [] = m
top m i (o ∷ os) = top i (suc i) os

top_lem : (i : ℕ) (os : List NamedOutput) → top i (suc i) os ≡ i + length os
top_lem i [] = omega arith
top_lem i (o ∷ os) = omega (arith, top_lem (suc i) os)

-- The buffers that stand under the indices from `i` on.
abbrev Holds : ℕ → List Bytes → Dict.Dict ℕ Bytes → Type 0
Holds i [] d = Unit
Holds i (c ∷ cs) d = (Dict.find i d ≡ some c) × Holds (suc i) cs d

module _ {K : Type 0} where
  -- A backend registers its outputs one by one, under the indices from `i` on.
  pub register_from : ℕ → List NamedOutput → InferencePayload K → InferencePayload K
  register_from i [] p = p
  register_from i (o ∷ os) p =
      register_from (suc i) os
        (register_infer_output p o.name (pos i) o.content (pos (length o.content)) o.shape).0

  abbrev next : ℕ → NamedOutput → InferencePayload K → InferencePayload K
  next i o p = (register_infer_output p o.name (pos i) o.content (pos (length o.content)) o.shape).0

  find-register_from_below :
      (j i : ℕ) (os : List NamedOutput) (p : InferencePayload K)
      → suc j ≤ i
      → Dict.find j (register_from i os p).output_buffer_map ≡ Dict.find j p.output_buffer_map
  unfolding register_from register_infer_output
  find-register_from_below j i [] p below = refl
  find-register_from_below j i (o ∷ os) p below =
      find-register_from_below j (suc i) os (next i o p) (omega arith)
      ∙ ground (
        arith,
        find-put i j (take (length o.content) o.content) p.output_buffer_map,
        nat_eq_iff i j,
      )

  find-next :
      (i : ℕ) (o : NamedOutput) (p : InferencePayload K)
      → Dict.find i (next i o p).output_buffer_map ≡ some o.content
  unfolding register_infer_output
  find-next i o p = ground (
    arith,
    find-put i i (take (length o.content) o.content) p.output_buffer_map,
    nat_eq_iff i i,
    take_all o.content,
  )

  register_from-Holds :
      (i : ℕ) (os : List NamedOutput) (p : InferencePayload K)
      → Holds i (map (λ o. o.content) os) (register_from i os p).output_buffer_map
  unfolding register_from
  register_from-Holds i [] p = tt
  register_from-Holds i (o ∷ os) p = (
    find-register_from_below i (suc i) os (next i o p) (omega arith) ∙ find-next i o p,
    register_from-Holds (suc i) os (next i o p),
  )

  max-next :
      (i m : ℕ) (o : NamedOutput) (p : InferencePayload K)
      → p.max_output_index ≡ pos m
      → m ≤ i
      → (next i o p).max_output_index ≡ pos i
  unfolding register_infer_output
  max-next i m o p e h = ground arith

  max-register_from :
      (i m : ℕ) (os : List NamedOutput) (p : InferencePayload K)
      → p.max_output_index ≡ pos m
      → m ≤ i
      → (register_from i os p).max_output_index ≡ pos (top m i os)
  unfolding register_from
  max-register_from i m [] p e h = e
  max-register_from i m (o ∷ os) p e h =
      max-register_from (suc i) i os (next i o p) (max-next i m o p e h) (omega arith)

  output-register_from :
      (i : ℕ) (os : List NamedOutput) (p : InferencePayload K)
      → (register_from i os p).response_header.output ≡ p.response_header.output ++ map described os
  unfolding register_from register_infer_output
  output-register_from i [] p = sym (append-nil p.response_header.output)
  output-register_from i (o ∷ os) p =
      output-register_from (suc i) os (next i o p)
      ∙ append_assoc p.response_header.output (described o ∷ []) (map described os)

  get_output_buffer-Holds :
      (i m : ℕ) (c : Bytes) (p : InferencePayload K)
      → p.max_output_index ≡ pos m
      → i ≤ m
      → Dict.find i p.output_buffer_map ≡ some c
      → get_output_buffer p (pos i) ≡ (p, returns c)
  unfolding get_output_buffer
  get_output_buffer-Holds i m c p e h f = ground arith

  -- The copying loop appends the buffers in the order of their indices.
  copy_outputs-Holds :
      (i m : ℕ) (cs : List Bytes) (p : InferencePayload K) (r : InferResponse)
      → p.max_output_index ≡ pos m
      → i + length cs ≤ suc m
      → Holds i cs p.output_buffer_map
      → copy_outputs (length cs) i p r
        ≡ ((p, record r { raw_output = r.raw_output ++ cs }), returns tt)
  unfolding copy_outputs
  copy_outputs-Holds i m [] p r e h held = rw append-nil
  copy_outputs-Holds i m (c ∷ cs) p r e h held =
      rw (get_output_buffer-Holds i m c p e (omega arith) held.0) (
        copy_outputs-Holds (suc i) m cs p (add_raw_output c r) e (omega arith) held.1
        ∙ rw append_assoc)

  -- A new context holds no output, and calls back the RPC that it was made for.
  pub record IsFresh (k : K) (ctx : GrpcInferRequestContext K) : Type 0 where
    pub no_output : ctx.infer_payload.response_header.output ≡ []
    pub no_buffer : ctx.infer_payload.output_buffer_map ≡ []
    pub zero_max : ctx.infer_payload.max_output_index ≡ pos 0
    pub callee : ctx.on_infer_completed_func ≡ k

  pub new_context-IsFresh :
      (request : InferRequest) (k : K) (ctx : GrpcInferRequestContext K)
      → new_context request k ≡ returns ctx
      → IsFresh k ctx
  unfolding new_context
  new_context-IsFresh request k ctx e = ground arith

  completed :
      GrpcInferRequestContext K
      → InferResponse
      → String
      → List Bytes
      → GrpcInferRequestContext K × InferResponse
  completed ctx response message cs = (
    record ctx {
      infer_payload = record ctx.infer_payload { response_header = response.meta_data };
    },
    record response {
      request_status = record response.request_status {
        code = RequestStatusCode.success;
        msg = message;
      };
      meta_data = ctx.infer_payload.response_header;
      raw_output = response.raw_output ++ cs;
    },
  )

  on_infer_completed_success :
      (ctx : GrpcInferRequestContext K) (response : InferResponse) (message : String)
      (cs : List Bytes) (m : ℕ)
      → ctx.infer_payload.max_output_index ≡ pos m
      → length cs ≡ suc m
      → Holds 0 cs ctx.infer_payload.output_buffer_map
      → on_infer_completed ctx response Status.success message
        ≡ (completed ctx response message cs, returns ctx.on_infer_completed_func)
  unfolding on_infer_completed completed
  on_infer_completed_success ctx response message cs m e n held =
      ap finish
        (ap (λ k. copy_outputs k 0 p r) passes ∙ copy_outputs-Holds 0 m cs p r e (omega arith) held)
    where
      p : InferencePayload K
      p = record ctx.infer_payload { response_header = response.meta_data }

      r : InferResponse
      r = record response { meta_data = ctx.infer_payload.response_header }

      passes : rounds ctx.infer_payload.max_output_index ≡ length cs
      passes = ap rounds e ∙ sym n

      finish :
          (InferencePayload K × InferResponse) × Outcome (Unit {0})
          → (GrpcInferRequestContext K × InferResponse) × Outcome K
      finish t =
          let u = succeed message t in
          (
            (record ctx { infer_payload = u.0.0 }, u.0.1),
            (u.1 >>= λ _. returns ctx.on_infer_completed_func),
          )

  -- A successful inference delivers what the backend registered: the raw outputs in the order of
  -- registration, a header entry for each, the status SUCCESS and the message, and it calls the
  -- completion function of the RPC. The backend registers at least one output, under 0, 1, 2, ….
  pub on_infer_completed_delivers :
      (request : InferRequest) (k : K) (ctx : GrpcInferRequestContext K) (os : List NamedOutput)
      (response : InferResponse) (message : String)
      → new_context request k ≡ returns ctx
      → os ≢ []
      → let done =
          on_infer_completed
            (record ctx { infer_payload = register_from 0 os ctx.infer_payload })
            response
            Status.success
            message in
        (done.0.1.raw_output ≡ response.raw_output ++ map (λ o. o.content) os)
        × (done.0.1.meta_data.output ≡ map described os)
        × (done.0.1.request_status.code ≡ RequestStatusCode.success)
        × (done.0.1.request_status.msg ≡ message)
        × (done.1 ≡ returns k)
  unfolding completed
  on_infer_completed_delivers request k ctx [] response message e ne = absurd (ne refl)
  on_infer_completed_delivers request k ctx (o ∷ os) response message e ne =
      let fresh = new_context-IsFresh request k ctx e in
      let p = register_from 0 (o ∷ os) ctx.infer_payload in
      rw
        (
          on_infer_completed_success (record ctx { infer_payload = p }) response message
              (map (λ o. o.content) (o ∷ os)) (top 0 0 (o ∷ os))
              (max-register_from 0 0 (o ∷ os) ctx.infer_payload fresh.zero_max (omega arith))
              (omega (arith, top_lem 0 os, length-map os (λ o. o.content)))
              (register_from-Holds 0 (o ∷ os) ctx.infer_payload),
          completed,
        )
        (
          refl,
          output-register_from 0 (o ∷ os) ctx.infer_payload ∙ rw fresh.no_output,
          refl,
          refl,
          ap returns fresh.callee,
        )

  -- A failed inference leaves nothing of the response but the status INTERNAL and the message, and
  -- calls the completion function too.
  pub on_infer_completed_fails :
      (ctx : GrpcInferRequestContext K) (response : InferResponse) (status : Status)
      (message : String)
      → status ≢ Status.success
      → on_infer_completed ctx response status message ≡ (
        (ctx, set_status RequestStatusCode.internal message empty_infer_response),
        returns ctx.on_infer_completed_func,
      )
  unfolding on_infer_completed
  on_infer_completed_fails ctx response Status.success message h = absurd (h refl)
  on_infer_completed_fails ctx response _ message h = refl

  -- Without any output the response still carries one raw output, an empty one, for which its
  -- header has no entry.
  pub on_infer_completed_without_output :
      (request : InferRequest) (k : K) (ctx : GrpcInferRequestContext K) (response : InferResponse)
      (message : String)
      → new_context request k ≡ returns ctx
      → let done = on_infer_completed ctx response Status.success message in
        (done.0.1.raw_output ≡ response.raw_output ++ [] ∷ [])
        × (done.0.1.meta_data.output ≡ [])
        × (done.1 ≡ returns k)
  unfolding on_infer_completed copy_outputs get_output_buffer
  on_infer_completed_without_output request k ctx response message e =
      let fresh = new_context-IsFresh request k ctx e in ground (arith)
