-- ===== src/Client/Inference/Equivalence.antt =====
-- The two clients, InferClient (src/clients/example_client.cc) and InferRequestContext
-- (src/clients/infer_request_context.cc), send the same requests.
use model_inference_server.Common.{
  ℕ, zero, suc, ◌+◌, ◌<◌, ◌≡◌, refl, sym, ap, subst, ◌∙◌, ◌≢◌, String, some, List, [], ◌∷◌, length,
  get_elem?, arith, pos, negsuc, nat_eq_iff,
}
use model_inference_server.Proto.{DataType, InferRequest}
use model_inference_server.Client.{
  Buffer, InferRequestContext, filled, input_name_at, add_infer_input, add_from, add_infer_inputs,
  clear,
}
use model_inference_server.Client.Inference.{with_input, add_inputs, inference_request}

get_elem?-some :
    {A : Type 0} (xs : List A) (i : ℕ) → i < length xs → (x : A) × (get_elem? xs i ≡ some x)
get_elem?-some [] i lt = absurd (omega (arith, lt))
get_elem?-some (x ∷ xs) zero lt = (x, refl)
get_elem?-some (x ∷ xs) (suc i) lt = get_elem?-some xs i (omega (arith, lt))

module _ (id : ℕ) (model_name : String) where
  abbrev pub sent : InferRequestContext → InferRequest
  sent ctx = filled ctx.infer_request id model_name (negsuc 0)

  -- One pass of each client's loop, from a batch size of 1.
  with_input-sent :
      (ctx : InferRequestContext) (name : String) (dims : List ℕ) (b : Buffer)
      → ctx.infer_request.meta_data.batch_size ≡ 1
      → with_input name DataType.type_invalid dims b (sent ctx)
        ≡ sent (add_infer_input ctx name b dims DataType.type_invalid).0
  unfolding add_infer_input
  with_input-sent ctx name dims b one =
      ap
        (λ n.
          with_input name DataType.type_invalid dims b
            (record (sent ctx) { meta_data = record (sent ctx).meta_data { batch_size = n } }))
        one

  input_name_at-some :
      (names : List String) (i : ℕ) (name : String)
      → get_elem? names i ≡ some name
      → input_name_at (some names) i ≡ name
  unfolding input_name_at
  input_name_at-some names i name e = rw (input_name_at, e) refl

  after-one :
      (ctx : InferRequestContext) (name : String) (dims : List ℕ) (b : Buffer)
      → (add_infer_input ctx name b dims DataType.type_invalid).0.infer_request.meta_data.batch_size
        ≡ 1
  unfolding add_infer_input
  after-one ctx name dims b = refl

  add_inputs-add_from :
      (i : ℕ) (ctx : InferRequestContext) (names : List String) (bs : List Buffer)
      (whole shapes : List (List ℕ))
      → ctx.infer_request.meta_data.batch_size ≡ 1
      → i + length bs ≡ length names
      → length bs ≡ length shapes
      → ((j : ℕ) → get_elem? whole (j + i) ≡ get_elem? shapes j)
      → add_inputs i names bs whole [] (sent ctx)
        ≡ some (sent (add_from i ctx bs shapes (some names)).0)
  unfolding add_inputs add_from
  add_inputs-add_from i ctx names [] whole shapes one n l h = refl
  add_inputs-add_from i ctx names (b ∷ bs) whole [] one n l h = absurd (omega (arith, l))
  add_inputs-add_from i ctx names (b ∷ bs) whole (dims ∷ shapes) one n l h =
      let (name, en) = get_elem?-some names i (omega (arith, n)) in
      let es : get_elem? whole i ≡ some dims =
        subst (λ n. get_elem? whole n ≡ some dims) (omega arith) (h 0) in
      let next = (add_infer_input ctx name b dims DataType.type_invalid).0 in
      rw (en, es, input_name_at-some names i name en, with_input-sent ctx name dims b one)
        (add_inputs-add_from (suc i) next names bs whole shapes (after-one ctx name dims b)
          (omega (arith, n)) (omega (arith, l))
          (λ j. ap (get_elem? whole) (omega arith) ∙ h (suc j)))

  accepted :
      (ctx : InferRequestContext) (names : List String) (bs : List Buffer) (shapes : List (List ℕ))
      → length bs ≡ length names
      → length bs ≡ length shapes
      → add_infer_inputs ctx bs shapes (some names) ≡ add_from 0 ctx bs shapes (some names)
  unfolding add_infer_inputs
  accepted ctx names bs shapes n l =
      rw
        (
          (nat_eq_iff (length bs) (length shapes)).1 l,
          (nat_eq_iff (length names) (length bs)).1 (sym n),
        )
        refl

  from_first :
      (ctx : InferRequestContext) (names : List String) (bs : List Buffer) (shapes : List (List ℕ))
      → bs ≢ []
      → length bs ≡ length names
      → length bs ≡ length shapes
      → inference_request (record { request_id = id }) model_name names bs shapes [] (pos 1)
        ≡ some (sent (add_from 0 (clear ctx).0 bs shapes (some names)).0)
  unfolding inference_request add_inputs add_from clear add_infer_input
  from_first ctx names [] shapes some_input n l = absurd (some_input refl)
  from_first ctx names (b ∷ bs) [] some_input n l = absurd (omega (arith, l))
  from_first ctx names (b ∷ bs) (dims ∷ shapes) some_input n l =
      let (name, en) = get_elem?-some names 0 (omega (arith, n)) in
      rw (en, input_name_at-some names 0 name en)
        (add_inputs-add_from 1 (add_infer_input (clear ctx).0 name b dims DataType.type_invalid).0
          names bs (dims ∷ shapes) shapes refl (omega (arith, n)) (omega (arith, l))
          (λ j. let z : j + 1 ≡ suc j = omega arith in ap (get_elem? (dims ∷ shapes)) z))

  -- RequestInference without data types and with the batch size 1 sends, for at least one input and
  -- as many names and shapes, the request that Infer of an InferRequestContext sends for version -1
  -- once it was cleared and given the same inputs by AddInferInputs.
  pub inference_request-infer :
      (ctx : InferRequestContext) (names : List String) (bs : List Buffer) (shapes : List (List ℕ))
      → bs ≢ []
      → length bs ≡ length names
      → length bs ≡ length shapes
      → inference_request (record { request_id = id }) model_name names bs shapes [] (pos 1)
        ≡ some (sent (add_infer_inputs (clear ctx).0 bs shapes (some names)).0)
  inference_request-infer ctx names bs shapes some_input n l =
      rw (accepted (clear ctx).0 names bs shapes n l)
        (from_first ctx names bs shapes some_input n l)
