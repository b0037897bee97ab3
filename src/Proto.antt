-- ===== src/Proto.antt =====
-- The messages of src/proto/*.proto that the program fills and reads. A message is a record with a
-- field for each field that the program touches; a field that is not set reads as its default.
use model_inference_server.Common.{ℕ, String, Bool, false, List, []}
use model_inference_server.Common.{ℤ}
use model_inference_server.Common.Dict.{Dict}

-- src/proto/request_status.proto
pub data RequestStatusCode : Type 0 where
  invalid success unknown internal not_found invalid_arg unavailable unsupported already_exists :
      RequestStatusCode

pub record RequestStatus : Type 0 where
  pub code : RequestStatusCode
  pub msg : String
  pub server_id : String
  pub request_id : ℕ

abbrev pub empty_status : RequestStatus
empty_status = record { code = RequestStatusCode.invalid; msg = ""; server_id = ""; request_id = 0 }

-- src/proto/data_type.proto
pub data DataType : Type 0 where
  type_invalid type_bool : DataType
  type_uint8 type_uint16 type_uint32 type_uint64 : DataType
  type_int8 type_int16 type_int32 type_int64 : DataType
  type_fp16 type_fp32 type_fp64 type_string : DataType

-- a `bytes` field, or the text of a buffer
abbrev pub Bytes : Type 0
Bytes = List ℕ

-- A tensor is passed on and never looked into: it stands as its serialized form.
abbrev pub TensorProto : Type 0
TensorProto = Bytes

-- src/proto/api.proto
pub record Input : Type 0 where
  pub name : String
  pub dims : List ℤ
  pub batch_byte_size : ℕ
  pub data_type : DataType

pub record InferRequestHeader : Type 0 where
  pub batch_size : ℕ
  pub input : List Input
  pub output : List String
  pub id : ℕ

abbrev pub empty_request_header : InferRequestHeader
empty_request_header = record { batch_size = 0; input = []; output = []; id = 0 }

pub record Raw : Type 0 where
  pub dims : List ℤ
  pub batch_byte_size : ℕ

pub record Output : Type 0 where
  pub name : String
  pub raw : Raw

pub record InferResponseHeader : Type 0 where
  pub output : List Output
  pub id : ℕ

abbrev pub empty_response_header : InferResponseHeader
empty_response_header = record { output = []; id = 0 }

-- src/proto/grpc_service.proto
pub record InferRequest : Type 0 where
  pub model_name : String
  pub model_version : ℤ
  pub meta_data : InferRequestHeader
  pub raw_input : List Bytes
  pub tensors : List TensorProto

abbrev pub empty_infer_request : InferRequest
empty_infer_request = record {
  model_name = "";
  model_version = ℤ.pos 0;
  meta_data = empty_request_header;
  raw_input = [];
  tensors = [];
}

pub record InferResponse : Type 0 where
  pub request_status : RequestStatus
  pub meta_data : InferResponseHeader
  pub raw_output : List Bytes
  pub tensors : List TensorProto

abbrev pub empty_infer_response : InferResponse
empty_infer_response = record {
  request_status = empty_status;
  meta_data = empty_response_header;
  raw_output = [];
  tensors = [];
}

pub record HealthRequest : Type 0 where
  pub mode : String

pub record HealthResponse : Type 0 where
  pub request_status : RequestStatus
  pub health : Bool

abbrev pub empty_health_response : HealthResponse
empty_health_response = record { request_status = empty_status; health = false }

-- src/proto/server_status.proto
pub data ModelReadyState : Type 0 where
  model_unknown model_ready model_unavailable : ModelReadyState

abbrev pub ModelStatus : Type 0
ModelStatus = Dict ℤ ModelReadyState

pub data ServerReadyState : Type 0 where
  server_invalid server_initializing server_ready server_exiting server_failed_to_initialize :
      ServerReadyState

pub record ServerStatus : Type 0 where
  pub id : String
  pub version : String
  pub model_status : Dict String ModelStatus
  pub ready_state : ServerReadyState

pub record StatusRequest : Type 0 where
  pub model_name : String

pub record StatusResponse : Type 0 where
  pub request_status : RequestStatus
  pub server_status : ServerStatus

abbrev pub empty_status_response : StatusResponse
empty_status_response = record {
  request_status = empty_status;
  server_status = record {
    id = "";
    version = "";
    model_status = [];
    ready_state = ServerReadyState.server_invalid;
  };
}
