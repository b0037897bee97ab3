-- ===== src/Core.antt =====
-- src/core/server/inference_core.{h,cc}: InferenceCore, and what it calls of GrpcServer
-- (src/core/server/grpc_server.{h,cc}). `P` is a pointer to a payload.
pub mod Lifecycle
pub mod Probes
use model_inference_server.Common.{
  ℕ, String, Bool, true, false, Option, none, some, ltb, if◌then◌else◌, ℤ, str_eq,
}
use model_inference_server.Outcome.{Outcome, returns, throws, ◌>>=◌, runtime_error, aborted}
use model_inference_server.Status.{
  Status, success, faield_rpc_already_running, failed_rpc_not_running, is_success,
}
use model_inference_server.Config.{ServerConfig}
use model_inference_server.Proto.{
  HealthRequest, HealthResponse, StatusRequest, StatusResponse, RequestStatus, RequestStatusCode,
  ServerReadyState,
}
use model_inference_server.Manager.{World, ModelManager}
use model_inference_server.Manager.Cycle.{
  create, stop_manager, infer_async, get_model_status, get_number_of_live_models,
}

-- GrpcServer: its flag, and whether its service was registered with a server that was built. Queues and
-- handlers are in Handler.antt.
pub record GrpcServer : Type 0 where
  pub running : Bool
  pub registered : Bool

-- GrpcServer::Create, whose constructor only stores its arguments.
unfoldable pub create_grpc_server : GrpcServer × Status
create_grpc_server = (record { running = false; registered = false }, success)

-- RegisterService and BuildAndStart, with the same service and builder at every call: gRPC aborts the
-- program when a service is registered that has a server.
unfoldable pub start_grpc_server : GrpcServer → GrpcServer × Outcome Status
start_grpc_server server =
    if server.registered
    then (server, throws aborted)
    else (record server { running = true; registered = true }, returns success)

-- What Stop comes to once the threads of the three handlers, which it joins, have ended.
unfoldable pub stop_grpc_server : GrpcServer → GrpcServer × Status
stop_grpc_server server =
    if server.running
    then (record server { running = false }, success)
    else (server, failed_rpc_not_running)

pub record InferenceCore (P : Type 0) : Type 0 where
  pub model_manager : ModelManager P
  pub grpc_server : GrpcServer
  pub running : Bool

abbrev answered : RequestStatusCode → HealthResponse → HealthResponse
answered code response = record response {
  request_status = record response.request_status { code = code };
}

module _ {P : Type 0} where
  abbrev pub constructed :
      Status × Option (ModelManager P) → GrpcServer × Status → Outcome (InferenceCore P)
  constructed (status, none) (server, rpc_status) = throws runtime_error
  constructed (status, some m) (server, rpc_status) =
      if is_success status
      then (if is_success rpc_status
          then returns (record { model_manager = m; grpc_server = server; running = false })
          else throws runtime_error)
      else throws runtime_error

  -- The constructor; an error of Create is thrown.
  unfoldable pub new_core : World → Option ServerConfig → Outcome (InferenceCore P)
  unfolding create_grpc_server
  new_core w cfg = create w cfg >>= λ made. constructed made create_grpc_server

  abbrev pub after_rpc_start :
      InferenceCore P → GrpcServer × Outcome Status → InferenceCore P × Outcome Status
  after_rpc_start core (server, throws e) = (record core { grpc_server = server }, throws e)
  after_rpc_start core (server, returns status) =
      if is_success status
      then (record core { grpc_server = server; running = true }, returns success)
      else (record core { grpc_server = server }, throws runtime_error)

  unfoldable pub start : InferenceCore P → InferenceCore P × Outcome Status
  start core =
      if core.running
      then (core, returns faield_rpc_already_running)
      else after_rpc_start core (start_grpc_server core.grpc_server)

  abbrev pub after_manager_stop :
      InferenceCore P → ModelManager P × Status → InferenceCore P × Outcome Status
  after_manager_stop core (m, status) =
      if is_success status
      then (record core { model_manager = m; running = false }, returns success)
      else (record core { model_manager = m }, throws runtime_error)

  abbrev pub after_rpc_stop :
      InferenceCore P → GrpcServer × Status → InferenceCore P × Outcome Status
  after_rpc_stop core (server, status) =
      if is_success status
      then after_manager_stop (record core { grpc_server = server })
          (stop_manager core.model_manager)
      else (record core { grpc_server = server }, throws runtime_error)

  unfoldable pub stop : InferenceCore P → InferenceCore P × Outcome Status
  stop core =
      if core.running
      then after_rpc_stop core (stop_grpc_server core.grpc_server)
      else (core, returns failed_rpc_not_running)

  abbrev pub with_manager :
      InferenceCore P → Option (ModelManager P × Status) → Option (InferenceCore P × Status)
  with_manager core none = none
  with_manager core (some (m, status)) = some (record core { model_manager = m }, status)

  -- InferAsync of the payload, with the name and the version that it holds.
  unfoldable pub core_infer_async :
      InferenceCore P → String → ℤ → P → Option (InferenceCore P × Status)
  core_infer_async core model_name model_version payload =
      with_manager core (infer_async core.model_manager model_name model_version payload)

  -- GetStatus, which the name in the request does not narrow.
  unfoldable pub get_status :
      InferenceCore P → StatusRequest → StatusResponse → StatusResponse × Status
  get_status core request response = (
    record response {
      request_status = record response.request_status { code = RequestStatusCode.success };
      server_status = record response.server_status {
        model_status = get_model_status core.model_manager;
        ready_state =
            if ltb 0 (get_number_of_live_models core.model_manager)
            then ServerReadyState.server_ready
            else ServerReadyState.server_failed_to_initialize;
      };
    },
    success,
  )

  unfoldable pub get_health :
      InferenceCore P → HealthRequest → HealthResponse → HealthResponse × Status
  get_health core request response = (
    if str_eq request.mode "live"
        then answered RequestStatusCode.success (record response { health = true })
        else if str_eq request.mode "ready"
        then answered RequestStatusCode.success
            (record response { health = ltb 0 (get_number_of_live_models core.model_manager) })
        else answered RequestStatusCode.unsupported response,
    success,
  )
