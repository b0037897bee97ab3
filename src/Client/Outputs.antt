-- ===== src/Client/Outputs.antt =====
-- What InferRequestContext (src/clients/infer_request_context.cc) reads of a response.
use model_inference_server.Common.{
  ℕ, zero, suc, ◌∙◌, ltb, [], ◌∷◌, if◌then◌else◌, ◌^◌, ◌≤◌, ◌<◌, ◌≡◌, refl, ◌⊎◌, inl, inr, Option,
  none, some, List, length, arith, get_elem?, get_elem?-eq-none_iff,
}
use model_inference_server.Proto.{Bytes, Output}
use model_inference_server.Client.{
  InferRequestContext, refused, read, undefined, pushed, get_infer_output, read_output,
}

get_elem?-bound :
    {A : Type 0} (xs : List A) (i : ℕ) (x : A) → get_elem? xs i ≡ some x → i < length xs
get_elem?-bound [] i x h = absurd (cc h)
get_elem?-bound (y ∷ ys) zero x h = omega arith
get_elem?-bound (y ∷ ys) (suc i) x h = omega (arith, get_elem?-bound ys i x h)

module _ (ctx : InferRequestContext) (i : ℕ) (dims : List ℕ) where
  at_index :
      i < 2 ^ 31
      → get_infer_output ctx i dims ≡ (
          if ltb i (length ctx.infer_response.meta_data.output)
          then read_output ctx.infer_response i dims
              (get_elem? ctx.infer_response.meta_data.output i)
          else refused dims)
  unfolding get_infer_output
  at_index lt = ground arith

  -- For an index at which there are both.
  pub get_infer_output-read :
      (output : Output) (b : Bytes)
      → get_elem? ctx.infer_response.meta_data.output i ≡ some output
      → get_elem? ctx.infer_response.raw_output i ≡ some b
      → i < 2 ^ 31
      → get_infer_output ctx i dims ≡ read b (pushed dims output.raw.dims)
  get_infer_output-read output b eo er lt =
      let within = get_elem?-bound ctx.infer_response.meta_data.output i output eo in
      let inside = get_elem?-bound ctx.infer_response.raw_output i b er in
      at_index lt ∙ ground (arith, within, inside, eo, er)

  -- The test before each access decides, and no access is outside of its array.
  by_output :
      (o : Option Output) (r : Option Bytes)
      → get_elem? ctx.infer_response.meta_data.output i ≡ o
      → get_elem? ctx.infer_response.raw_output i ≡ r
      → i < 2 ^ 31
      → ((length ctx.infer_response.meta_data.output ≤ i)
          × (get_infer_output ctx i dims ≡ refused dims))
        ⊎ ((output : Output) × (get_elem? ctx.infer_response.meta_data.output i ≡ some output)
            × (((length ctx.infer_response.raw_output ≤ i)
                  × (get_infer_output ctx i dims ≡ refused (pushed dims output.raw.dims)))
                ⊎ ((b : Bytes) × (get_elem? ctx.infer_response.raw_output i ≡ some b)
                    × (get_infer_output ctx i dims ≡ read b (pushed dims output.raw.dims)))))
  by_output none r eo er lt =
      let out = (get_elem?-eq-none_iff ctx.infer_response.meta_data.output i).0 eo in
      inl (out, at_index lt ∙ ground (arith, out))
  by_output (some output) none eo er lt =
      let within = get_elem?-bound ctx.infer_response.meta_data.output i output eo in
      let out = (get_elem?-eq-none_iff ctx.infer_response.raw_output i).0 er in
      inr (output, eo, inl (out, at_index lt ∙ ground (arith, within, out, eo)))
  by_output (some output) (some b) eo er lt =
      inr (output, eo, inr (b, er, get_infer_output-read output b eo er lt))

  -- An index below 2 ^ 31 is refused, with output_dims as it was, from the number of outputs in the
  -- header on. Else the output's dimensions are added to output_dims, each cut to 32 bits, and then the
  -- index is refused
  -- from the number of raw outputs on, or the raw output at the index is returned.
  pub get_infer_output_cases :
      i < 2 ^ 31
      → ((length ctx.infer_response.meta_data.output ≤ i)
          × (get_infer_output ctx i dims ≡ refused dims))
        ⊎ ((output : Output) × (get_elem? ctx.infer_response.meta_data.output i ≡ some output)
            × (((length ctx.infer_response.raw_output ≤ i)
                  × (get_infer_output ctx i dims ≡ refused (pushed dims output.raw.dims)))
                ⊎ ((b : Bytes) × (get_elem? ctx.infer_response.raw_output i ≡ some b)
                    × (get_infer_output ctx i dims ≡ read b (pushed dims output.raw.dims)))))
  get_infer_output_cases lt =
      by_output (get_elem? ctx.infer_response.meta_data.output i)
        (get_elem? ctx.infer_response.raw_output i) refl refl lt

  -- An index of 32 bits that is 2 ^ 31 or more passes the first test, whatever the response holds:
  -- the outputs are then read below zero.
  pub get_infer_output_high : 2 ^ 31 ≤ i → i < 2 ^ 32 → get_infer_output ctx i dims ≡ undefined
  unfolding get_infer_output
  get_infer_output_high ge lt = ground arith
