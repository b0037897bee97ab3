-- ===== src/Config.antt =====
-- src/core/basic_data.h (the configuration classes), src/core/constants.h (the limits) and
-- src/core/service_config.{h,cc}.
pub mod Load
use model_inference_server.Common.{
  ℕ, String, Bool, true, false, if◌then◌else◌, List, [], ℤ, pos, max_ℤ,
}
use model_inference_server.Common.Dict.{Dict}
use model_inference_server.Outcome.{Outcome, returns, throws, ◌>>=◌}

abbrev pub max_scheduler_depletion_wait_time : ℕ
max_scheduler_depletion_wait_time = 120

abbrev pub min_model_refresh_interval : ℤ
min_model_refresh_interval = pos 5

abbrev pub default_scheduelr_queue_size : ℤ
default_scheduelr_queue_size = pos 4

pub record ModelControlConfig : Type 0 where
  pub auto_update : Bool
  pub update_interval : ℤ
  pub auto_warmup : Bool
  pub specific_model_version : Dict String ℤ

pub record GrpcServerConfig : Type 0 where
  pub grpc_server_addr : String

pub data SchedulerType : Type 0 where
  scheduler_simple scheduler_batch : SchedulerType

pub record SchedulerConfig : Type 0 where
  pub type : SchedulerType
  pub max_queue_size : ℤ

pub record ServerConfig : Type 0 where
  pub model_repo_path : String
  pub model_control_cfg : ModelControlConfig
  pub grpc_server_cfg : GrpcServerConfig
  pub scheduler_cfg : SchedulerConfig

-- std::make_shared<ServerConfig>() value-initializes: numbers are 0, flags false, texts empty.
abbrev pub empty_config : ServerConfig
empty_config = record {
  model_repo_path = "";
  model_control_cfg = record {
    auto_update = false;
    update_interval = pos 0;
    auto_warmup = false;
    specific_model_version = [];
  };
  grpc_server_cfg = record { grpc_server_addr = "" };
  scheduler_cfg = record { type = scheduler_simple; max_queue_size = pos 0 };
}

-- yaml-cpp, which is not part of the repository. `present` is the node's operator bool, `at` its
-- operator[], and the `_or` readers are as<T>(fallback), which does not throw.
pub record Yaml : Type 1 where
  pub Node : Type 0
  pub load_file : String → Outcome Node
  pub at : Node → String → Node
  pub present : Node → Bool
  pub as_string : Node → Outcome String
  pub as_bool : Node → Outcome Bool
  pub as_int : Node → Outcome ℤ
  pub as_string_or : Node → String → String
  pub as_int_or : Node → ℤ → ℤ

module _ (yaml : Yaml) where
  open yaml use {Node, load_file, at, present, as_string, as_bool, as_int, as_string_or, as_int_or}

  -- The interval is read, and raised to its least value, only with automatic updates.
  load_interval : Bool → Node → ℤ → Outcome ℤ
  load_interval false model_control old = returns old
  load_interval true model_control old = do
    interval ← as_int (at model_control "refresh_interval")
    returns (max_ℤ min_model_refresh_interval interval)

  load_model_control : Node → ModelControlConfig → Outcome ModelControlConfig
  unfolding load_interval
  load_model_control model_control cfg = do
    auto_update ← as_bool (at model_control "enable_automatic_refresh")
    interval ← load_interval auto_update model_control cfg.update_interval
    auto_warmup ← as_bool (at model_control "enable_warmup")
    returns (record cfg {
      auto_update = auto_update;
      update_interval = interval;
      auto_warmup = auto_warmup;
    })

  load_grpc_server : Node → GrpcServerConfig → GrpcServerConfig
  load_grpc_server grpc_server cfg =
      if present grpc_server
      then record { grpc_server_addr = as_string_or (at grpc_server "addr") "0.0.0.0:50051" }
      else cfg

  load_scheduler : Node → SchedulerConfig → SchedulerConfig
  load_scheduler scheduler cfg =
      if present scheduler
      then record cfg {
        max_queue_size = as_int_or (at scheduler "max_queue_size") default_scheduelr_queue_size;
      }
      else cfg

  unfoldable pub load_server_config : String → Outcome ServerConfig
  unfolding load_model_control load_grpc_server load_scheduler
  load_server_config config_file = do
    node ← load_file config_file
    path ← as_string (at node "model_repo_path")
    control ←
        (if present (at node "model_control")
          then load_model_control (at node "model_control") empty_config.model_control_cfg
          else returns empty_config.model_control_cfg)
    returns (record {
      model_repo_path = path;
      model_control_cfg = control;
      grpc_server_cfg = load_grpc_server (at node "grpc_server") empty_config.grpc_server_cfg;
      scheduler_cfg = load_scheduler (at node "scheduler") empty_config.scheduler_cfg;
    })
