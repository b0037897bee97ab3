-- ===== src/Payload.antt =====
-- src/core/inference_payload.{h,cc} and src/core/memory_misc.h: one inference request on its way through
-- the server. A callback is a value of `K`, the name of the function that was bound; calling it
-- yields the call. The time stamps recv_time_ … output_end_time_ are never written or read.
pub mod Outputs
use model_inference_server.Common.{
  ℕ, suc, String, Bool, Option, none, some, List, [], ◌∷◌, ◌++◌, ◌||◌, leb, if◌then◌else◌, length,
  get_elem?, take, ℤ, pos, negsuc, ltb_ℤ, max_ℤ, to_unsigned, pos_part, nat_key,
}
use model_inference_server.Common.Dict
use model_inference_server.Common.Dict.{Dict}
use model_inference_server.Outcome.{Outcome, returns, throws, invalid_argument, length_error}
use model_inference_server.Status.{Status, success}
use model_inference_server.Proto.{
  Bytes, InferRequestHeader, InferResponseHeader, Output, empty_response_header,
}

-- `mem_addr` is the memory from the address on.
pub record MemoryReference : Type 0 where
  pub mem_addr : Bytes
  pub length : ℕ

pub record InferencePayload (K : Type 0) : Type 0 where
  pub model_name : String
  pub model_version : ℤ
  pub request_header : Option InferRequestHeader
  pub response_header : InferResponseHeader
  pub inputs_memory : List MemoryReference
  pub output_buffer_map : Dict ℕ Bytes
  pub on_infer_completed_func : K
  pub max_output_index : ℤ

-- The call of a callback: the callback, the status and the message.
pub record CompletionCall (K : Type 0) : Type 0 where
  pub callback : K
  pub status : Status
  pub message : String

module _ {K : Type 0} where
  -- InferencePayload::Init: a null request header is refused.
  init_payload : InferencePayload K → Option InferRequestHeader → Outcome (InferencePayload K)
  init_payload p none = throws invalid_argument
  init_payload p (some h) = returns (record p { response_header = empty_response_header })

  -- The constructor.
  unfoldable pub new_payload :
      String
      → ℤ
      → List MemoryReference
      → Option InferRequestHeader
      → K
      → Outcome (InferencePayload K)
  unfolding init_payload
  new_payload model_name model_version inputs_memory request_header callback =
      init_payload
        (record {
          model_name = model_name;
          model_version = model_version;
          request_header = request_header;
          response_header = empty_response_header;
          inputs_memory = inputs_memory;
          output_buffer_map = [];
          on_infer_completed_func = callback;
          max_output_index = pos 0;
        })
        request_header

  add_output : InferencePayload K → String → ℤ → List ℤ → InferencePayload K
  add_output p name content_byte_size shape = record p {
    response_header = record p.response_header { output = p.response_header.output ++ output ∷ [] };
  }
    where
      output : Output
      output = record {
        name = name;
        raw = record { dims = shape; batch_byte_size = to_unsigned 64 content_byte_size };
      }

  -- std::string buffer(content, n): a negative size is a size_t past the longest string.
  store_output : InferencePayload K → ℤ → Bytes → ℤ → InferencePayload K × Outcome Status
  store_output p idx content (negsuc n) = (p, throws length_error)
  store_output p idx content (pos n) = (
    record p {
      output_buffer_map = Dict.put (to_unsigned 64 idx) (take n content) p.output_buffer_map;
      max_output_index = max_ℤ p.max_output_index idx;
    },
    returns success,
  )

  -- The output's entry in the response header stays if the buffer's size is refused.
  unfoldable pub register_infer_output :
      InferencePayload K → String → ℤ → Bytes → ℤ → List ℤ → InferencePayload K × Outcome Status
  unfolding add_output store_output
  register_infer_output p name idx content content_byte_size shape =
      store_output (add_output p name content_byte_size shape) idx content content_byte_size

  -- none is the null pointer.
  unfoldable pub get_input_memory : InferencePayload K → ℤ → Option MemoryReference
  get_input_memory p idx =
      if ltb_ℤ idx (pos 0) || leb (length p.inputs_memory) (to_unsigned 64 idx)
      then none
      else get_elem? p.inputs_memory (pos_part idx)

  -- operator[] adds an empty buffer where there is none.
  buffer_at : InferencePayload K → ℕ → Option Bytes → InferencePayload K × Outcome Bytes
  buffer_at p key none =
      (record p { output_buffer_map = Dict.put key [] p.output_buffer_map }, returns [])
  buffer_at p key (some buffer) = (p, returns buffer)

  unfoldable pub get_output_buffer : InferencePayload K → ℤ → InferencePayload K × Outcome Bytes
  unfolding buffer_at
  get_output_buffer p idx =
      if ltb_ℤ p.max_output_index idx
      then (p, throws invalid_argument)
      else buffer_at p (to_unsigned 64 idx) (Dict.find (to_unsigned 64 idx) p.output_buffer_map)

  unfoldable pub on_infer_completed : InferencePayload K → Status → String → CompletionCall K
  on_infer_completed p status message = record {
    callback = p.on_infer_completed_func;
    status = status;
    message = message;
  }
