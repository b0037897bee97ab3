-- ===== src/Client/Inference/Built.antt =====
-- The request that InferClient (src/clients/example_client.cc) builds, and what the server reads of it.
use mathlib.Core.List.{append_assoc, append-nil}
use model_inference_server.Common.{
  ℕ, zero, suc, ◌+◌, ◌≤◌, ◌<◌, subst, ◌≡◌, refl, sym, ap, ◌∙◌, ◌⊎◌, inl, inr, String, none, some,
  Option-cases, List, [], ◌∷◌, ◌++◌, map, length, get_elem?, get_elem?-eq-none_iff, arith, ℤ, pos,
  length-append,
}
use model_inference_server.Outcome.{returns}
use model_inference_server.Proto.{DataType, InferRequest}
use model_inference_server.Payload.{get_input_memory, new_payload}
use model_inference_server.InferContext.{GrpcInferRequestContext, new_context}
use model_inference_server.Client.{Buffer, content}
use model_inference_server.Client.Requests.{get_elem?-memory_of}
use model_inference_server.Client.Inference.{
  InferClient, dtype_at, with_input, add_inputs, begun, inference_request,
}

-- A data type is read of an empty vector never, and else at every index.
abbrev pub TypesReach : List DataType → ℕ → Type 0
TypesReach [] n = Unit
TypesReach (t ∷ ts) n = n ≤ length (t ∷ ts)

-- Each of the vectors has as many elements as the loop reads.
abbrev pub Reach : List String → List (List ℕ) → List DataType → ℕ → Type 0
Reach names shapes dtypes n = (n ≤ length names) × (n ≤ length shapes) × TypesReach dtypes n

get_elem?-bound :
    {A : Type 0} (xs : List A) (i : ℕ) (x : A) → get_elem? xs i ≡ some x → suc i ≤ length xs
get_elem?-bound [] i x e = absurd (cc e)
get_elem?-bound (y ∷ ys) zero x e = omega arith
get_elem?-bound (y ∷ ys) (suc i) x e = omega (arith, get_elem?-bound ys i x e)

dtype_at-none :
    (dtypes : List DataType) (i n : ℕ) → dtype_at dtypes i ≡ none → i < n → ¬ TypesReach dtypes n
dtype_at-none [] i n e lt r = cc e
dtype_at-none (t ∷ ts) i n e lt r = omega (arith, (get_elem?-eq-none_iff (t ∷ ts) i).0 e)

dtype_at-some :
    (dtypes : List DataType) (i : ℕ) (t : DataType)
    → dtype_at dtypes i ≡ some t
    → TypesReach dtypes (suc i)
dtype_at-some [] i t e = tt
dtype_at-some (u ∷ us) i t e = get_elem?-bound (u ∷ us) i t e

TypesReach-zero : (dtypes : List DataType) → TypesReach dtypes 0
TypesReach-zero [] = tt
TypesReach-zero (t ∷ ts) = omega arith

-- A request that is built from another: each pass adds an input to the header and a raw input.
pub record Built (before : InferRequest) (bs : List Buffer) (after : InferRequest) : Type 0 where
  pub raw : after.raw_input ≡ before.raw_input ++ map content bs
  pub headers : length after.meta_data.input ≡ length before.meta_data.input + length bs
  pub name : after.model_name ≡ before.model_name
  pub version : after.model_version ≡ before.model_version
  pub id : after.meta_data.id ≡ before.meta_data.id

abbrev AddCase :
    ℕ → List String → List Buffer → List (List ℕ) → List DataType → InferRequest → Type 0
AddCase i names bs shapes dtypes request =
    (Reach names shapes dtypes (i + length bs)
      × (after : InferRequest) × (add_inputs i names bs shapes dtypes request ≡ some after)
      × Built request bs after)
    ⊎ ((¬ Reach names shapes dtypes (i + length bs))
        × (add_inputs i names bs shapes dtypes request ≡ none))

add_inputs_cases :
    (i : ℕ) (names : List String) (bs : List Buffer) (shapes : List (List ℕ))
    (dtypes : List DataType) (request : InferRequest)
    → Reach names shapes dtypes i
    → AddCase i names bs shapes dtypes request
unfolding add_inputs
add_inputs_cases i names [] shapes dtypes request r = inl (
  subst (Reach names shapes dtypes) (omega arith) r,
  request,
  refl,
  record {
    raw = sym (append-nil request.raw_input);
    headers = omega arith;
    name = refl;
    version = refl;
    id = refl;
  },
)
add_inputs_cases i names (b ∷ bs) shapes dtypes request r =
    elim (Option-cases (get_elem? names i)) [
      | inl e ↦ inr ((λ q. omega (arith, q.0, (get_elem?-eq-none_iff names i).0 e)), rw e refl)
      | inr (name, en) ↦ elim (Option-cases (dtype_at dtypes i)) [
        | inl e ↦ inr (
          (λ q. dtype_at-none dtypes i (i + suc (length bs)) e (omega arith) q.2),
          rw (en, e) refl,
        )
        | inr (dtype, et) ↦ elim (Option-cases (get_elem? shapes i)) [
          | inl e ↦
              inr (
                (λ q. omega (arith, q.1, (get_elem?-eq-none_iff shapes i).0 e)),
                rw (en, et, e) refl,
              )
          | inr (dims, es) ↦
              let next = with_input name dtype dims b request in
              let reached : Reach names shapes dtypes (suc i) = (
                get_elem?-bound names i name en,
                get_elem?-bound shapes i dims es,
                dtype_at-some dtypes i dtype et,
              ) in
              let same : suc i + length bs ≡ i + suc (length bs) = omega arith in
              elim (add_inputs_cases (suc i) names bs shapes dtypes next reached) [
                | inl (all, after, e, built) ↦ inl (
                  subst (Reach names shapes dtypes) same all,
                  after,
                  rw (en, et, es) e,
                  record {
                    raw =
                        built.raw
                        ∙ append_assoc request.raw_input (content b ∷ []) (map content bs);
                    headers =
                        omega
                          (arith, built.headers, length-append request.meta_data.input (_ ∷ []));
                    name = built.name;
                    version = built.version;
                    id = built.id;
                  },
                )
                | inr (short, e) ↦ inr (
                  (λ q. short (subst (Reach names shapes dtypes) (sym same) q)),
                  rw (en, et, es) e,
                )
              ]
        ]
      ]
    ]

-- RequestInference hands a request to the stub exactly if there are as many names and shapes as
-- inputs, or more, and as many data types, unless there are none; else it reads beyond one of the
-- vectors. The request names the model, asks for version -1, carries the client's id, and has for
-- each input one in the header and, in the same order, its bytes.
pub inference_request_cases :
    (client : InferClient) (model_name : String) (names : List String) (bs : List Buffer)
    (shapes : List (List ℕ)) (dtypes : List DataType) (batch_size : ℤ)
    → (Reach names shapes dtypes (length bs)
        × (r : InferRequest) × (inference_request client model_name names bs shapes dtypes
              batch_size
            ≡ some r)
        × Built (begun client.request_id model_name batch_size) bs r)
      ⊎ ((¬ Reach names shapes dtypes (length bs))
          × (inference_request client model_name names bs shapes dtypes batch_size ≡ none))
unfolding inference_request
inference_request_cases client model_name names bs shapes dtypes batch_size =
    let none_before : length bs ≡ 0 + length bs = omega arith in
    rw none_before (
      add_inputs_cases 0 names bs shapes dtypes (begun client.request_id model_name batch_size)
        (omega arith, omega arith, TypesReach-zero dtypes))

-- The bytes of the i-th input of a request that RequestInference sends are what the backend finds at
-- index i of the payload that the server makes of the request, which is for the model of that name.
pub inference_reaches_server :
    {K : Type 0} (client : InferClient) (model_name : String) (names : List String)
    (bs : List Buffer) (shapes : List (List ℕ)) (dtypes : List DataType) (batch_size : ℤ)
    (r : InferRequest) (k : K) (i : ℕ) (b : Buffer)
    → inference_request client model_name names bs shapes dtypes batch_size ≡ some r
    → get_elem? bs i ≡ some b
    → (server : GrpcInferRequestContext K) × (new_context r k ≡ returns server)
      × (server.infer_payload.model_name ≡ model_name)
      × (get_input_memory server.infer_payload (pos i)
          ≡ some (record { mem_addr = content b; length = length (content b) }))
unfolding new_context new_payload get_input_memory
inference_reaches_server client model_name names bs shapes dtypes batch_size r k i b e h =
    elim (inference_request_cases client model_name names bs shapes dtypes batch_size) [
      | inr (short, fails) ↦ absurd (cc (fails, e))
      | inl (all, r', e', built) ↦
          let same : r' ≡ r = cc (e, e') in
          let (em, lt) = get_elem?-memory_of bs i b h in
          (
            _,
            refl,
            ap (λ q. q.model_name) (sym same) ∙ built.name,
            rw (ap (λ q. q.raw_input) (sym same) ∙ built.raw) (ground (arith, em, lt)),
          )
    ]
