-- ===== src/Status.antt =====
-- src/core/status.h: the status codes and the text that `operator<<` writes of them.
pub mod Codes
use Prim.Native.String.{◌++◌ as str_append}
use model_inference_server.Common.{
  ℕ, zero, suc, ◌/◌, ◌%◌, Bool, true, false, String, nat_eq, ltb, if◌then◌else◌,
}

pub data Status : Type 0 where
  success : Status
  failed_generic : Status
  failed_invalid_server_config : Status
  faield_rpc_already_running : Status
  failed_rpc_not_running : Status
  failed_model_repo_path_not_exist : Status
  failed_model_config_invalid : Status
  failed_model_config_io_not_found : Status
  failed_model_config_platform_unknown : Status
  faield_model_manager_already_running : Status
  faield_model_manager_not_running : Status
  failed_scheduler_not_running : Status
  failed_scheduler_already_running : Status
  failed_infer_no_scheduler_configured : Status
  failed_infer_no_backend_found : Status
  failed_model_warmup : Status
  failed_model_load : Status

-- static_cast<uint32_t>(status)
unfoldable pub status_code : Status → ℕ
status_code success = 0
status_code failed_generic = 1
status_code failed_invalid_server_config = 2
status_code faield_rpc_already_running = 3
status_code failed_rpc_not_running = 4
status_code failed_model_repo_path_not_exist = 100
status_code failed_model_config_invalid = 101
status_code failed_model_config_io_not_found = 102
status_code failed_model_config_platform_unknown = 103
status_code faield_model_manager_already_running = 104
status_code faield_model_manager_not_running = 105
status_code failed_scheduler_not_running = 200
status_code failed_scheduler_already_running = 201
status_code failed_infer_no_scheduler_configured = 300
status_code failed_infer_no_backend_found = 301
status_code failed_model_warmup = 400
status_code failed_model_load = 401

-- status == Status::Success
abbrev pub is_success : Status → Bool
is_success success = true
is_success _ = false

digit : ℕ → String
digit n =
    if nat_eq n 0
    then "0"
    else if nat_eq n 1
    then "1"
    else if nat_eq n 2
    then "2"
    else if nat_eq n 3
    then "3"
    else if nat_eq n 4
    then "4"
    else if nat_eq n 5
    then "5"
    else if nat_eq n 6
    then "6"
    else if nat_eq n 7
    then "7"
    else if nat_eq n 8
    then "8"
    else "9"

-- Decimal print of a number below 10 ^ fuel: std::to_string, and `<<` of an unsigned number.
unfoldable pub decimal : ℕ → ℕ → String
unfolding digit
decimal zero n = ""
decimal (suc fuel) n =
    let front = decimal fuel (n / 10) in
    if ltb n 10 then digit n else str_append front (digit (n % 10))

-- out << status; a 32-bit number has at most ten digits.
unfoldable pub status_text : Status → String
unfolding status_code decimal
status_text status = str_append "Status = " (decimal 10 (status_code status))
