-- ===== src/Config/Load.antt =====
-- What ServiceHelper::LoadServerConfig (src/core/service_config.cc) guarantees of its result.
use model_inference_server.Common.{◌≡◌, String, true, false, arith, pos, ◌≤ℤ◌}
use model_inference_server.Outcome.{returns}
use model_inference_server.Config.{
  Yaml, ServerConfig, min_model_refresh_interval, load_server_config,
}

module _ (yaml : Yaml) where
  open yaml use {Node, load_file, at, present, as_string, as_bool, as_int}

  -- A configuration with automatic updates has an update interval of at least five seconds.
  pub load-interval_bound :
      (file : String) (cfg : ServerConfig)
      → load_server_config yaml file ≡ returns cfg
      → cfg.model_control_cfg.auto_update ≡ true
      → min_model_refresh_interval ≤ℤ cfg.model_control_cfg.update_interval
  unfolding load_server_config
  load-interval_bound file cfg h on = ground arith

  -- Without a "scheduler" section the queue size is zero, not the default of four, which is used
  -- only where the section is there without a size.
  pub load-without_scheduler :
      (file : String) (node : Node) (cfg : ServerConfig)
      → load_file file ≡ returns node
      → present (at node "scheduler") ≡ false
      → load_server_config yaml file ≡ returns cfg
      → cfg.scheduler_cfg.max_queue_size ≡ pos 0
  unfolding load_server_config
  load-without_scheduler file node cfg loaded missing h = ground arith
