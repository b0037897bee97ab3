-- ===== src/Manager.antt =====
-- src/core/model_manager/model_manager.{h,cc}: ModelManager, with the backends that it owns on an
-- explicit heap: a backend pointer is an address, and a bound ModelBackend::Run is the address that
-- it was bound to. `P` is a pointer to a payload. The parse of a configuration text is protobuf's,
-- a parameter, as is the file system at the moment of a call.
pub mod Cycle
pub mod Scanned
pub mod Scan
pub mod Ownership
pub mod Reload
pub mod Lifetime
pub mod Dangling
pub mod Destruction
pub mod Instances
pub mod Load
pub mod Entries
pub mod Reconcile
pub mod Requests
use model_inference_server.Common.{
  ℕ, suc, ◌+◌, ◌^◌, ◌%◌, String, Bool, true, false, not, Option, none, some, List, [], ◌∷◌, ◌++◌,
  map, length, contains, if◌then◌else◌, ℤ, pos, negsuc, eqb_ℤ, to_signed, string_key, nat_key,
  int_key,
}
use model_inference_server.Common.Dict
use model_inference_server.Common.Dict.{Dict}
use model_inference_server.Outcome.{Outcome, returns, throws, ◌>>=◌}
use model_inference_server.Status.{
  Status, success, failed_model_config_platform_unknown, faield_model_manager_already_running,
  failed_invalid_server_config, failed_infer_no_backend_found,
}
use model_inference_server.Platform.{
  Platform, platform_demo, convert_string_to_platform_type, k_model_config_pb_txt,
}
use model_inference_server.Config.{ServerConfig}
use model_inference_server.Proto.{ModelReadyState, ModelStatus}
use model_inference_server.Backend.{ModelConfig, ModelBackend}
use model_inference_server.Backend.Demo.{Created, created, not_created, create_backend}
use model_inference_server.Scheduler.{
  SimpleScheduler, new_scheduler, start, enqueue, update_backend_infer_func,
}
use model_inference_server.Files.{Boost, get_directory_sub_dirs, combine_path, read_file_text}
use model_inference_server.Version.{highest_of}

-- The outside world at the moment of a call.
pub record World : Type 0 where
  pub boost : Boost
  pub parse : String → Option ModelConfig

pub record BackendInfo : Type 0 where
  pub model_name : String
  pub path : String
  pub platform : Platform
  pub model_version : ℤ
  pub model_config : ModelConfig
  pub backend : ℕ

pub record ModelRunContext (P : Type 0) : Type 0 where
  pub scheduler : SimpleScheduler P ℕ
  pub backend_info : BackendInfo

pub record ModelManager (P : Type 0) : Type 0 where
  pub server_cfg : ServerConfig
  pub model_map : Dict String (ModelRunContext P)
  pub running : Bool
  pub updating : Bool
  pub heap : Dict ℕ ModelBackend
  pub next_address : ℕ

pub record ModelLoadInfo : Type 0 where
  pub model_name : String
  pub model_version : ℤ

-- The three lists that GetModelStateUpdate fills.
pub record StateUpdate : Type 0 where
  pub added : List ModelLoadInfo
  pub updated : List ModelLoadInfo
  pub deleted : List String

-- BackendInfo::CreateModelBackend
unfoldable pub create_model_backend : Platform → String → ℤ → ModelConfig → Created
create_model_backend platform_demo name version cfg = create_backend name version cfg
create_model_backend _ name version cfg = not_created failed_model_config_platform_unknown

module _ (w : World) where
  -- The parsed configuration of a model.
  unfoldable pub read_config : String → String → Option ModelConfig
  read_config repo name =
      w.parse
        (read_file_text w.boost (combine_path w.boost repo (name ∷ k_model_config_pb_txt ∷ [])))

  unfoldable pub get_highest_version : String → String → Outcome ℤ
  get_highest_version repo name = do
    dirs ← get_directory_sub_dirs w.boost (combine_path w.boost repo (name ∷ []))
    highest_of dirs (negsuc 0)

module _ {P : Type 0} where
  -- The names in the map that are no directory of the repository.
  unfoldable pub deleted_models : List String → Dict String (ModelRunContext P) → List String
  deleted_models cur_models [] = []
  deleted_models cur_models ((name, ctx) ∷ m) =
      let rest = deleted_models cur_models m in
      if contains cur_models name then rest else name ∷ rest

  -- Where a model of the repository goes, once it has a version.
  abbrev pub classify : String → ℤ → Option (ModelRunContext P) → StateUpdate → StateUpdate
  classify name version none u = record u {
    added = record { model_name = name; model_version = version } ∷ u.added;
  }
  classify name version (some ctx) u =
      if eqb_ℤ ctx.backend_info.model_version version
      then u
      else record u { updated = record { model_name = name; model_version = version } ∷ u.updated }

  abbrev pub with_version : Dict String (ModelRunContext P) → String → ℤ → StateUpdate → StateUpdate
  with_version m name version u =
      if eqb_ℤ version (negsuc 0) then u else classify name version (Dict.find name m) u

  -- One pass of the loop over the models, in front of what the later passes add. A configuration
  -- that is not parsed is passed over before the versions are listed.
  abbrev pub visit :
      World
      → String
      → Dict String (ModelRunContext P)
      → String
      → Option ModelConfig
      → Outcome StateUpdate
      → Outcome StateUpdate
  visit w repo m name none rest = rest
  visit w repo m name (some cfg) rest = do
    version ← get_highest_version w repo name
    u ← rest
    returns (with_version m name version u)

  unfoldable pub visit_models :
      World
      → String
      → Dict String (ModelRunContext P)
      → List String
      → List String
      → Outcome StateUpdate
  visit_models w repo m deleted [] =
      returns (record { added = []; updated = []; deleted = deleted })
  visit_models w repo m deleted (name ∷ names) =
      visit w repo m name (read_config w repo name) (visit_models w repo m deleted names)

  unfoldable pub get_model_state_update : World → ModelManager P → Outcome StateUpdate
  get_model_state_update w m = do
    cur_models ← get_directory_sub_dirs w.boost m.server_cfg.model_repo_path
    visit_models w m.server_cfg.model_repo_path m.model_map (deleted_models cur_models m.model_map)
        cur_models

  -- make_unique of a backend: a new address.
  abbrev pub allocate : ModelManager P → ModelBackend → ModelManager P
  allocate m b = record m { heap = (m.next_address, b) ∷ m.heap; next_address = suc m.next_address }

  -- The destructor of a unique_ptr to a backend.
  abbrev pub release_backend : ModelManager P → ℕ → ModelManager P
  release_backend m address = record m { heap = Dict.erase address m.heap }

  abbrev pub loaded :
      ModelManager P
      → ModelLoadInfo
      → String
      → ModelConfig
      → Created
      → ModelManager P × Option BackendInfo
  loaded m info path cfg (not_created status) = (m, none)
  loaded m info path cfg (created b) = (
    allocate m b,
    some (record {
      model_name = info.model_name;
      path = path;
      platform = convert_string_to_platform_type cfg.platform;
      model_version = info.model_version;
      model_config = cfg;
      backend = m.next_address;
    }),
  )

  abbrev pub load_parsed :
      World
      → ModelManager P
      → ModelLoadInfo
      → Option ModelConfig
      → ModelManager P × Option BackendInfo
  load_parsed w m info none = (m, none)
  load_parsed w m info (some cfg) =
      loaded m info (combine_path w.boost m.server_cfg.model_repo_path (info.model_name ∷ [])) cfg (
        create_model_backend (convert_string_to_platform_type cfg.platform) info.model_name
          info.model_version cfg)

  unfoldable pub load_model :
      World → ModelManager P → ModelLoadInfo → ModelManager P × Option BackendInfo
  load_model w m info =
      load_parsed w m info (read_config w m.server_cfg.model_repo_path info.model_name)
