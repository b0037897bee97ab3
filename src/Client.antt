-- ===== src/Client.antt =====
-- src/clients/infer_request_context.{h,cc}: InferRequestContext, which builds a request and reads the
-- response, and the probes of src/clients/example_client.cc. The stub is gRPC's: a call takes the
-- request to the response, or to none where the call did not end well.
pub mod Requests
pub mod Outputs
pub mod RoundTrip
pub mod Inference
pub mod Rpc
use Prim.Native.String.{◌++◌ as str_append}
use model_inference_server.Common.{
  ltb, ltb_ℤ, ℕ, zero, suc, ◌+◌, ◌^◌, ◌%◌, String, Bool, true, false, not, ◌||◌, Option, none, some,
  List, [], ◌∷◌, ◌++◌, map, length, take, get_elem?, leb, nat_eq, if◌then◌else◌, ℤ, pos, negsuc,
  to_unsigned, to_signed,
}
use model_inference_server.Status.{decimal}
use model_inference_server.Proto.{
  Bytes, TensorProto, DataType, Input, InferRequest, InferResponse, Output, RequestStatusCode,
  StatusRequest, StatusResponse, HealthRequest, HealthResponse, ServerReadyState,
  empty_infer_request, empty_infer_response,
}

-- A pointer and a size: the memory from the pointer on.
pub record Buffer : Type 0 where
  pub raw_data : Bytes
  pub byte_size : ℕ

pub record InferRequestContext : Type 0 where
  pub infer_request : InferRequest
  pub infer_response : InferResponse

-- raw_input->append(data, size)
abbrev pub content : Buffer → Bytes
content b = take b.byte_size b.raw_data

unfoldable pub add_infer_input :
    InferRequestContext → String → Buffer → List ℕ → DataType → InferRequestContext × Bool
add_infer_input ctx input_name b input_dims data_type = (
  record ctx {
    infer_request = record ctx.infer_request {
      meta_data = record ctx.infer_request.meta_data {
        batch_size = 1;
        input =
            ctx.infer_request.meta_data.input
            ++ record {
              name = input_name;
              dims = map pos input_dims;
              batch_byte_size = b.byte_size;
              data_type = data_type;
            }
              ∷ [];
      };
      raw_input = ctx.infer_request.raw_input ++ content b ∷ [];
    };
  },
  true,
)

-- add_tensors()->Swap(&tensors[i]): the caller's tensors are left empty.
unfoldable pub add_infer_input_tensor :
    InferRequestContext → List TensorProto → (InferRequestContext × List TensorProto) × Bool
add_infer_input_tensor ctx [] = ((ctx, []), false)
add_infer_input_tensor ctx (t ∷ ts) = (
  (
    record ctx {
      infer_request = record ctx.infer_request { tensors = ctx.infer_request.tensors ++ t ∷ ts };
    },
    map (λ _. []) (t ∷ ts),
  ),
  true,
)

-- (*input_names_ptr)[i], or "INPUT__" + std::to_string(i); an int has at most ten digits.
unfoldable pub input_name_at : Option (List String) → ℕ → String
input_name_at none i = str_append "INPUT__" (decimal 10 i)
input_name_at (some names) i = elim (get_elem? names i) [ none ↦ "" | some name ↦ name ]

-- The passes from `i` on; the two lists have one length.
unfoldable pub add_from :
    ℕ
    → InferRequestContext
    → List Buffer
    → List (List ℕ)
    → Option (List String)
    → InferRequestContext × Bool
unfolding add_infer_input input_name_at
add_from i ctx [] shapes names = (ctx, true)
add_from i ctx (b ∷ bs) [] names = (ctx, true)
add_from i ctx (b ∷ bs) (dims ∷ shapes) names =
    let (added, ok) = add_infer_input ctx (input_name_at names i) b dims DataType.type_invalid in
    let rest = add_from (suc i) added bs shapes names in if ok then rest else (added, false)

abbrev pub names_fit : Option (List String) → ℕ → Bool
names_fit none n = true
names_fit (some names) n = nat_eq (length names) n

unfoldable pub add_infer_inputs :
    InferRequestContext
    → List Buffer
    → List (List ℕ)
    → Option (List String)
    → InferRequestContext × Bool
unfolding add_from
add_infer_inputs ctx inputs input_shapes input_names =
    let rest = add_from 0 ctx inputs input_shapes input_names in
    if not (nat_eq (length inputs) (length input_shapes))
      || not (names_fit input_names (length inputs))
    then (ctx, false)
    else rest

unfoldable pub request_infer_output : InferRequestContext → String → InferRequestContext × Bool
request_infer_output ctx output_name = (
  record ctx {
    infer_request = record ctx.infer_request {
      meta_data = record ctx.infer_request.meta_data {
        output = ctx.infer_request.meta_data.output ++ output_name ∷ [];
      };
    };
  },
  true,
)

abbrev pub is_success_code : RequestStatusCode → Bool
is_success_code RequestStatusCode.success = true
is_success_code _ = false

abbrev pub replied : InferRequestContext → Option InferResponse → InferRequestContext × Bool
replied ctx none = (ctx, false)
replied ctx (some response) =
    (record ctx { infer_response = response }, is_success_code response.request_status.code)

-- The request as Infer fills it in.
abbrev pub filled : InferRequest → ℕ → String → ℤ → InferRequest
filled request request_id model_name model_version = record request {
  model_name = model_name;
  model_version = model_version;
  meta_data = record request.meta_data { id = request_id };
}

-- Infer, with the static `request_id`, which it leaves one higher, as a 64-bit number.
unfoldable pub infer :
    (InferRequest → Option InferResponse)
    → InferRequestContext
    → ℕ
    → String
    → ℤ
    → (InferRequestContext × Bool) × ℕ
infer stub ctx request_id model_name model_version =
    let request = filled ctx.infer_request request_id model_name model_version in
    (replied (record ctx { infer_request = request }) (stub request), suc request_id % 2 ^ 64)

-- What GetInferOutput does: false, with what it wrote to output_dims; true, with the data; or an
-- index below zero into the header's outputs, which protobuf leaves undefined.
pub data OutputResult : Type 0 where
  refused : List ℕ → OutputResult
  read : Bytes → List ℕ → OutputResult
  undefined : OutputResult

-- output_dims.push_back(dim), a 64-bit number cut to 32 bits
abbrev pub pushed : List ℕ → List ℤ → List ℕ
pushed output_dims dims = output_dims ++ map (λ d. to_unsigned 64 d % 2 ^ 32) dims

-- output_raw_data and output_byte_size are set to what raw_output(output_index) is.
abbrev pub read_raw : List ℕ → Option Bytes → OutputResult
read_raw output_dims none = undefined
read_raw output_dims (some raw_output) = read raw_output output_dims

-- header.output(output_index) was read.
abbrev pub read_output : InferResponse → ℕ → List ℕ → Option Output → OutputResult
read_output response output_index output_dims none = undefined
read_output response output_index output_dims (some output) =
    if ltb output_index (length response.raw_output)
    then read_raw (pushed output_dims output.raw.dims) (get_elem? response.raw_output output_index)
    else refused (pushed output_dims output.raw.dims)

-- header.output(output_index), which takes an int: none outside of the array.
abbrev pub output_at : List Output → ℤ → Option Output
output_at outputs (pos n) = get_elem? outputs n
output_at outputs (negsuc n) = none

-- Each access has its test before it; an access outside of an array is undefined.
unfoldable pub get_infer_output : InferRequestContext → ℕ → List ℕ → OutputResult
get_infer_output ctx output_index output_dims =
    let outputs = ctx.infer_response.meta_data.output in
    let index = to_signed 31 output_index in
    if ltb_ℤ index (pos (length outputs))
    then read_output ctx.infer_response output_index output_dims (output_at outputs index)
    else refused output_dims

unfoldable pub clear : InferRequestContext → InferRequestContext × Bool
clear ctx =
    (record { infer_request = empty_infer_request; infer_response = empty_infer_response }, true)

abbrev is_ready : ServerReadyState → Bool
is_ready ServerReadyState.server_ready = true
is_ready _ = false

abbrev status_ok : Option StatusResponse → Bool
status_ok none = false
status_ok (some response) =
    if is_success_code response.request_status.code
    then is_ready response.server_status.ready_state
    else false

-- StatusClient::ModelReady
unfoldable pub model_ready : (StatusRequest → Option StatusResponse) → String → Bool
model_ready stub model_name = status_ok (stub (record { model_name = model_name }))

abbrev health_ok : Option HealthResponse → Bool
health_ok none = false
health_ok (some response) =
    if is_success_code response.request_status.code then response.health else false

-- HealthClient::MakeHealthRequest, which ProbeReadiness calls with "ready" and ProbeLiveness with
-- "live".
unfoldable pub make_health_request : (HealthRequest → Option HealthResponse) → String → Bool
make_health_request stub mode = health_ok (stub (record { mode = mode }))
