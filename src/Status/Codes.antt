-- ===== src/Status/Codes.antt =====
-- Status codes and the message that a client receives tell the statuses of src/core/status.h apart.
use model_inference_server.Common.{
  ◌≡◌, refl, ap, Option, none, some, List, [], ◌∷◌, String, str_eq, if◌then◌else◌,
}
use model_inference_server.Status.{
  Status, success, failed_generic, failed_invalid_server_config, faield_rpc_already_running,
  failed_rpc_not_running, failed_model_repo_path_not_exist, failed_model_config_invalid,
  failed_model_config_io_not_found, failed_model_config_platform_unknown,
  faield_model_manager_already_running, faield_model_manager_not_running,
  failed_scheduler_not_running, failed_scheduler_already_running,
  failed_infer_no_scheduler_configured, failed_infer_no_backend_found, failed_model_warmup,
  failed_model_load, status_text,
}

statuses : List Status
statuses =
    success ∷ failed_generic ∷ failed_invalid_server_config ∷ faield_rpc_already_running
    ∷ failed_rpc_not_running ∷ failed_model_repo_path_not_exist ∷ failed_model_config_invalid
    ∷ failed_model_config_io_not_found ∷ failed_model_config_platform_unknown
    ∷ faield_model_manager_already_running ∷ faield_model_manager_not_running
    ∷ failed_scheduler_not_running ∷ failed_scheduler_already_running
    ∷ failed_infer_no_scheduler_configured ∷ failed_infer_no_backend_found ∷ failed_model_warmup
    ∷ failed_model_load ∷ []

-- The status that a received message stands for.
search_text : String → List Status → Option Status
search_text t [] = none
search_text t (s ∷ ss) = if str_eq (status_text s) t then some s else search_text t ss

unfoldable pub read_status : String → Option Status
unfolding search_text statuses
read_status t = search_text t statuses

-- Reading back the text that `operator<<` writes of a status gives that status.
pub read_status-status_text : (s : Status) → read_status (status_text s) ≡ some s
unfolding read_status status_text
read_status-status_text success = refl
read_status-status_text _ = refl

-- Two statuses with the same text are one status.
pub status_text_injective : (s t : Status) → status_text s ≡ status_text t → s ≡ t
status_text_injective s t h =
    cc (read_status-status_text s, read_status-status_text t, ap read_status h)
