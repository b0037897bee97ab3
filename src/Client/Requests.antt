-- ===== src/Client/Requests.antt =====
-- The requests that InferRequestContext (src/clients/infer_request_context.cc) builds, and what the
-- server reads of them (src/core/server/grpc_infer_request_context.cc).
use mathlib.Core.List.{append_assoc, append-nil}
use model_inference_server.Common.{
  zero, length-append, Bool-cases, nat_eq_iff, ℕ, suc, ◌+◌, ◌<◌, ◌≡◌, refl, sym, ◌≢◌, ap, ◌∙◌, ◌⊎◌,
  inl, inr, Bool, true, false, Option, some, String, List, [], ◌∷◌, ◌++◌, map, length, get_elem?,
  arith, nat_eq, if◌then◌else◌, pos,
}
use model_inference_server.Outcome.{returns}
use model_inference_server.Proto.{DataType}
use model_inference_server.Payload.{get_input_memory, new_payload}
use model_inference_server.InferContext.{GrpcInferRequestContext, memory_of, new_context}
use model_inference_server.Client.{
  Buffer, InferRequestContext, content, add_infer_input, add_from, add_infer_inputs, names_fit,
  input_name_at, clear,
}

raw-add_from :
    (i : ℕ) (ctx : InferRequestContext) (bs : List Buffer) (shapes : List (List ℕ))
    (names : Option (List String))
    → length bs ≡ length shapes
    → ((add_from i ctx bs shapes names).1 ≡ true)
      × ((add_from i ctx bs shapes names).0.infer_request.raw_input
          ≡ ctx.infer_request.raw_input ++ map content bs)
unfolding add_from add_infer_input
raw-add_from i ctx [] shapes names e = (refl, sym (append-nil ctx.infer_request.raw_input))
raw-add_from i ctx (b ∷ bs) [] names e = absurd (omega (arith, e))
raw-add_from i ctx (b ∷ bs) (dims ∷ shapes) names e =
    let added = (add_infer_input ctx (input_name_at names i) b dims DataType.type_invalid).0 in
    let (ok, raw) = raw-add_from (suc i) added bs shapes names (omega (arith, e)) in
    (ok, raw ∙ append_assoc ctx.infer_request.raw_input (content b ∷ []) (map content bs))

aligned-add_from :
    (i : ℕ) (ctx : InferRequestContext) (bs : List Buffer) (shapes : List (List ℕ))
    (names : Option (List String))
    → length ctx.infer_request.meta_data.input ≡ length ctx.infer_request.raw_input
    → let r = (add_from i ctx bs shapes names).0.infer_request in
      length r.meta_data.input ≡ length r.raw_input
unfolding add_from add_infer_input
aligned-add_from i ctx [] shapes names e = e
aligned-add_from i ctx (b ∷ bs) [] names e = e
aligned-add_from i ctx (b ∷ bs) (dims ∷ shapes) names e =
    aligned-add_from (suc i)
      (add_infer_input ctx (input_name_at names i) b dims DataType.type_invalid).0 bs shapes names
      (length-append ctx.infer_request.meta_data.input _
        ∙ ap (λ n. n + 1) e
        ∙ sym (length-append ctx.infer_request.raw_input _))

if-Aligned :
    (t : Bool) (x y : InferRequestContext × Bool)
    → length x.0.infer_request.meta_data.input ≡ length x.0.infer_request.raw_input
    → length y.0.infer_request.meta_data.input ≡ length y.0.infer_request.raw_input
    → length (if t then x else y).0.infer_request.meta_data.input
      ≡ length (if t then x else y).0.infer_request.raw_input
if-Aligned true x y hx hy = hx
if-Aligned false x y hx hy = hy

-- AddInferInputs keeps a raw input for each input of the header, whatever it is given.
pub add_infer_inputs_aligned :
    (ctx : InferRequestContext) (bs : List Buffer) (shapes : List (List ℕ))
    (names : Option (List String))
    → length ctx.infer_request.meta_data.input ≡ length ctx.infer_request.raw_input
    → let r = (add_infer_inputs ctx bs shapes names).0.infer_request in
      length r.meta_data.input ≡ length r.raw_input
unfolding add_infer_inputs
add_infer_inputs_aligned ctx bs shapes names e =
    if-Aligned _ (ctx, false) _ e (aligned-add_from 0 ctx bs shapes names e)

-- AddInferInputs returns true exactly if there are as many shapes as inputs, and as many names if
-- names are given, and then the contents of the inputs follow the raw inputs in their order. Else the
-- request is left as it was.
pub add_infer_inputs_cases :
    (ctx : InferRequestContext) (bs : List Buffer) (shapes : List (List ℕ))
    (names : Option (List String))
    → ((length bs ≡ length shapes)
        × (names_fit names (length bs) ≡ true)
        × ((add_infer_inputs ctx bs shapes names).1 ≡ true)
        × ((add_infer_inputs ctx bs shapes names).0.infer_request.raw_input
            ≡ ctx.infer_request.raw_input ++ map content bs))
      ⊎ (((length bs ≢ length shapes) ⊎ (names_fit names (length bs) ≡ false))
          × (add_infer_inputs ctx bs shapes names ≡ (ctx, false)))
add_infer_inputs_cases ctx bs shapes names =
    elim (Bool-cases (nat_eq (length bs) (length shapes))) [
      | inr ne ↦ inr (
        inl (ground (arith, nat_eq_iff (length bs) (length shapes))),
        unfold add_infer_inputs in rw ne refl,
      )
      | inl e ↦ elim (Bool-cases (names_fit names (length bs))) [
        | inr ne ↦ inr (inr ne, unfold add_infer_inputs in rw (e, ne) refl)
        | inl fit ↦
            let same = (nat_eq_iff (length bs) (length shapes)).0 e in
            let (ok, raw) = raw-add_from 0 ctx bs shapes names same in
            inl (
              same,
              fit,
              unfold add_infer_inputs in rw (e, fit) ok,
              unfold add_infer_inputs in rw (e, fit) raw,
            )
      ]
    ]

pub get_elem?-memory_of :
    (bs : List Buffer) (i : ℕ) (b : Buffer)
    → get_elem? bs i ≡ some b
    → (get_elem? (memory_of (map content bs)) i
        ≡ some (record { mem_addr = content b; length = length (content b) }))
      × (i < length (memory_of (map content bs)))
unfolding memory_of
get_elem?-memory_of [] i b h = absurd (cc h)
get_elem?-memory_of (c ∷ bs) zero b h = (ground arith, omega arith)
get_elem?-memory_of (c ∷ bs) (suc i) b h =
    let (e, lt) = get_elem?-memory_of bs i b h in (e, omega (arith, lt))

-- From the client to the backend: the bytes that a client adds as its i-th input are what the
-- backend finds at index i of the payload that the server makes of the request.
pub inputs_reach_server :
    {K : Type 0} (ctx : InferRequestContext) (bs : List Buffer) (shapes : List (List ℕ))
    (names : Option (List String)) (k : K) (i : ℕ) (b : Buffer)
    → length bs ≡ length shapes
    → names_fit names (length bs) ≡ true
    → get_elem? bs i ≡ some b
    → let request = (add_infer_inputs (clear ctx).0 bs shapes names).0.infer_request in
      (server : GrpcInferRequestContext K) × (new_context request k ≡ returns server)
      × (get_input_memory server.infer_payload (pos i)
          ≡ some (record { mem_addr = content b; length = length (content b) }))
unfolding new_context new_payload get_input_memory clear
inputs_reach_server ctx bs shapes names k i b same fit h =
    let added =
      elim (add_infer_inputs_cases (clear ctx).0 bs shapes names)
        as (λ _.
          (add_infer_inputs (clear ctx).0 bs shapes names).0.infer_request.raw_input
          ≡ map content bs) [
            | inl (_, _, _, raw) ↦ raw
            | inr (inl ne, _) ↦ absurd (ne same)
            | inr (inr ne, _) ↦ absurd (cc (ne, fit))
          ] in
    let (e, lt) = get_elem?-memory_of bs i b h in (_, refl, rw added (ground (arith, e, lt)))
