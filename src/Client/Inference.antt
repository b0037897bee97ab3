-- ===== src/Client/Inference.antt =====
-- src/clients/example_client.cc: InferClient, and the program's main.
pub mod Built
pub mod Equivalence
use model_inference_server.Common.{
  ℕ, suc, ◌*◌, ◌/◌, ◌^◌, ◌%◌, String, Bool, false, Option, none, some, List, [], ◌∷◌, ◌++◌, map,
  get_elem?, ℤ, pos, negsuc, to_unsigned,
}
use model_inference_server.Proto.{
  Bytes, DataType, InferRequest, InferResponse, StatusRequest, StatusResponse, HealthRequest,
  HealthResponse, empty_infer_request, empty_infer_response,
}
use model_inference_server.Client.{
  Buffer, content, is_success_code, model_ready, make_health_request,
}

-- A read of a vector; none is an index beyond its end, which C++ leaves undefined.
infixl 5 ◌>>=◌
abbrev pub ◌>>=◌ {ℓ κ} : {A : Type ℓ} {B : Type κ} → Option A → (A → Option B) → Option B
none >>= f = none
some a >>= f = f a

pub record InferClient : Type 0 where
  pub request_id : ℕ

-- `if (!input_dtypes.empty())`; a data type that is not set reads as TYPE_INVALID.
abbrev pub dtype_at : List DataType → ℕ → Option DataType
dtype_at [] i = some DataType.type_invalid
dtype_at (t ∷ ts) i = get_elem? (t ∷ ts) i

-- The body of the loop, once the name, the data type and the shape are read.
abbrev pub with_input : String → DataType → List ℕ → Buffer → InferRequest → InferRequest
with_input input_name dtype input_shape b request = record request {
  meta_data = record request.meta_data {
    input =
        request.meta_data.input
        ++ record {
          name = input_name;
          dims = map pos input_shape;
          batch_byte_size = b.byte_size;
          data_type = dtype;
        }
          ∷ [];
  };
  raw_input = request.raw_input ++ content b ∷ [];
}

-- The passes of the loop from `idx` on.
unfoldable pub add_inputs :
    ℕ
    → List String
    → List Buffer
    → List (List ℕ)
    → List DataType
    → InferRequest
    → Option InferRequest
add_inputs idx names [] shapes dtypes request = some request
add_inputs idx names (b ∷ bs) shapes dtypes request = do
  input_name ← get_elem? names idx
  dtype ← dtype_at dtypes idx
  input_shape ← get_elem? shapes idx
  add_inputs (suc idx) names bs shapes dtypes (with_input input_name dtype input_shape b request)

-- The request before the loop. An int batch size becomes an unsigned one of 32 bits.
abbrev pub begun : ℕ → String → ℤ → InferRequest
begun request_id model_name batch_size = record empty_infer_request {
  model_name = model_name;
  model_version = negsuc 0;
  meta_data = record empty_infer_request.meta_data {
    id = request_id;
    batch_size = to_unsigned 32 batch_size;
  };
}

-- What RequestInference hands to the stub.
unfoldable pub inference_request :
    InferClient
    → String
    → List String
    → List Buffer
    → List (List ℕ)
    → List DataType
    → ℤ
    → Option InferRequest
unfolding add_inputs
inference_request client model_name input_names inputs input_shapes input_dtypes batch_size =
    add_inputs 0 input_names inputs input_shapes input_dtypes
      (begun client.request_id model_name batch_size)

-- The response, with what the call returns of it.
abbrev pub judged : InferResponse → Option InferResponse → InferResponse × Bool
judged infer_response none = (infer_response, false)
judged infer_response (some response) = (response, is_success_code response.request_status.code)

-- RequestInference, with the response that it is to fill; the id that it leaves is a 64-bit number.
unfoldable pub request_inference :
    (InferRequest → Option InferResponse)
    → InferClient
    → String
    → List String
    → List Buffer
    → List (List ℕ)
    → List DataType
    → InferResponse
    → ℤ
    → Option (InferClient × InferResponse × Bool)
request_inference stub client model_name names inputs shapes dtypes infer_response batch_size = do
  request ← inference_request client model_name names inputs shapes dtypes batch_size
  let (response, ok) = judged infer_response (stub request) in
      some (record { request_id = suc client.request_id % 2 ^ 64 }, response, ok)

-- A uint32_t in memory, on a machine that stores the low byte first.
abbrev word_bytes : ℕ → Bytes
word_bytes n = n % 256 ∷ n / 256 % 256 ∷ n / 65536 % 256 ∷ n / 16777216 % 256 ∷ []

abbrev words_bytes : List ℕ → Bytes
words_bytes [] = []
words_bytes (n ∷ ns) = word_bytes n ++ words_bytes ns

abbrev pub demo_inputs : List Buffer
demo_inputs =
    record { raw_data = words_bytes (1 ∷ 2 ∷ 3 ∷ 4 ∷ []); byte_size = 4 * 4 }
    ∷ record { raw_data = words_bytes (5 ∷ 6 ∷ 7 ∷ 8 ∷ []); byte_size = 4 * 4 }
    ∷ []

-- main: what it prints, in this order, is whether the server lives, whether the model is ready, and
-- whether the inference succeeded. None is a read beyond a vector.
unfoldable pub example_main :
    (HealthRequest → Option HealthResponse)
    → (StatusRequest → Option StatusResponse)
    → (InferRequest → Option InferResponse)
    → Option (Bool × Bool × Bool)
unfolding request_inference inference_request model_ready make_health_request
example_main health_stub status_stub infer_stub = do
  (client, response, ret3) ←
      request_inference infer_stub (record { request_id = 0 }) "demo" ("INPUT__0" ∷ "INPUT__1" ∷ [])
        demo_inputs ((1 ∷ 16 ∷ []) ∷ (1 ∷ 16 ∷ []) ∷ [])
        (DataType.type_int32 ∷ DataType.type_int32 ∷ []) empty_infer_response (pos 1)
  some (make_health_request health_stub "live", model_ready status_stub "demo", ret3)
