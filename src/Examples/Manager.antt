-- ===== src/Examples/Manager.antt =====
-- ModelManager (src/core/model_manager/model_manager.{h,cc}) over a repository with one model.
use Prim.Native.String.{◌++◌ as str_append}
use model_inference_server.Common.{
  ℕ, ◌≡◌, refl, ◌∙◌, sym, subst, ◌⊎◌, inl, inr, Bool-cases, true, false, String, some, none, [],
  ◌∷◌, pos, arith, get_elem?, str_eq, str_eq_iff, string_key, nat_key, nat_eq_iff, if◌then◌else◌,
}
use model_inference_server.Common.Dict
use model_inference_server.Outcome.{returns}
use model_inference_server.Platform.{platform_demo, convert_string_to_platform_type}
use model_inference_server.Config.{ServerConfig, empty_config, scheduler_simple}
use model_inference_server.Backend.{ModelBackend}
use model_inference_server.Scheduler.{calling}
use model_inference_server.Files.{Boost, DirectoryEntry, get_directory_sub_dirs, combine_path}
use model_inference_server.Version.{highest_of, stoll}
use model_inference_server.Manager.{
  World, ModelRunContext, ModelManager, ModelLoadInfo, StateUpdate, load_model,
  get_model_state_update, visit_models, read_config, get_highest_version, deleted_models,
}
use model_inference_server.Manager.Cycle.{
  load_models, apply_update, new_manager, start_manager, empty_manager, stop_manager, update_model,
}
use model_inference_server.Common.{List}
use model_inference_server.Manager.Reconcile.Settled.{load_models_settles}
use model_inference_server.Manager.Scanned.{Scanned}
use model_inference_server.Manager.Load.{CanLoad, Loads, load_model_cases}
use model_inference_server.Manager.Ownership.{Owns, Sound}
use model_inference_server.Manager.Lifetime.{load_models-Sound}
use model_inference_server.Manager.Requests.{stop_manager_releases}
use model_inference_server.Status.{success}
use model_inference_server.Scheduler.{not_called}
use model_inference_server.Manager.Destruction.{
  Event, destroys, runner_steps, begin, destroy_run, destruction_dangles,
}
use model_inference_server.Manager.Dangling.{update_model_dangles}
use model_inference_server.Examples.Parts.{demo_config, backend}

-- Two versions of the model "m", at "repo/m".
abbrev directory : String → DirectoryEntry
directory name = record { filename = name; is_directory = true; is_regular_file = false }

abbrev boost : Boost
boost = record {
  exists = λ path. true;
  directory_iterator = λ path.
      returns
        (if str_eq path "repo" then directory "m" ∷ [] else directory "1" ∷ directory "2" ∷ []);
  append = λ path part. str_append path (str_append "/" part);
  last_write_time = λ path. returns (pos 0);
  open_file = λ path. some path;
}

abbrev pub world : World
world = record { boost = boost; parse = λ text. some demo_config }

abbrev pub server_cfg : ServerConfig
server_cfg = record empty_config {
  model_repo_path = "repo";
  scheduler_cfg = record { type = scheduler_simple; max_queue_size = pos 1 };
}

-- Version 1 is loaded, and its runner is in a call of it.
abbrev pub ctx : ModelRunContext ℕ
ctx = record {
  scheduler = record {
    cfg = server_cfg.scheduler_cfg;
    infer_func = 0;
    queue = record { buffer = []; broken = false; capacity = 1 };
    total_runners = pos 1;
    threads = calling 7 0 ∷ [];
    running = true;
  };
  backend_info = record {
    model_name = "m";
    path = "repo/m";
    platform = platform_demo;
    model_version = pos 1;
    model_config = demo_config;
    backend = 0;
  };
}

abbrev live : ModelBackend
live = record backend { model_version = pos 1 }

abbrev pub manager : ModelManager ℕ
manager = record {
  server_cfg = server_cfg;
  model_map = ("m", ctx) ∷ [];
  running = true;
  updating = false;
  heap = (0, live) ∷ [];
  next_address = 1;
}

abbrev the_name : String
the_name = "m"

only :
    (n : String) (c : ModelRunContext ℕ)
    → Dict.find n manager.model_map ≡ some c
    → (the_name ≡ n) × (ctx ≡ c)
only n c h = elim (Bool-cases (str_eq "m" n)) [
  | inl same ↦ ((str_eq_iff "m" n).0 same, ground arith)
  | inr other ↦ absurd (ground arith)
]

owned : Owns manager.heap "m" ctx
owned = record { bound = refl; live = live; at = refl; named = refl; versioned = refl }

pub manager-Sound : Sound manager
manager-Sound = record {
  map_ok = (refl, tt);
  heap_ok = (refl, tt);
  fresh = λ a h. ground (arith, nat_eq_iff 0 a);
  owned = λ n c h.
      let (en, ec) = only n c h in
      subst (λ k. Owns manager.heap k c) en (subst (Owns manager.heap "m") ec owned);
  apart = λ n k c d hc hd e. sym (only n c hc).0 ∙ (only k d hd).0;
}

abbrev pub info : ModelLoadInfo
info = record { model_name = "m"; model_version = pos 2 }

abbrev update : StateUpdate
update = record { added = []; updated = info ∷ []; deleted = [] }

scanned : get_model_state_update world manager ≡ returns update
unfolding get_model_state_update get_directory_sub_dirs visit_models read_config get_highest_version
    highest_of combine_path stoll deleted_models
scanned = refl

applied : load_models world manager ≡ returns (apply_update world manager update)
unfolding load_models
applied = rw scanned refl

load_models-Sound_example : Sound (apply_update world manager update)
load_models-Sound_example =
    load_models-Sound world manager (apply_update world manager update) manager-Sound applied

abbrev first : ModelManager ℕ
first = record (empty_manager server_cfg) { running = true }

abbrev additions : StateUpdate
additions = record { added = info ∷ []; updated = []; deleted = [] }

first_scanned : get_model_state_update world first ≡ returns additions
unfolding get_model_state_update get_directory_sub_dirs visit_models read_config get_highest_version
    highest_of combine_path stoll deleted_models
first_scanned = refl

first_loaded : load_models world first ≡ returns (apply_update world first additions)
unfolding load_models
first_loaded = rw first_scanned refl

abbrev pub constructed : ModelManager ℕ
constructed =
    let m = apply_update world first additions in
    record m { updating = m.server_cfg.model_control_cfg.auto_update }

pub made : new_manager world server_cfg ≡ returns constructed
unfolding new_manager start_manager
made = rw first_loaded refl

-- The repository with its last model removed.
abbrev emptied : World
emptied = record world { boost = record boost { directory_iterator = λ path. returns [] } }

abbrev removals : StateUpdate
removals = record { added = []; updated = []; deleted = "m" ∷ [] }

load_model_cases_example :
    (CanLoad world "repo" "m" × Loads world manager info)
    ⊎ ((¬ CanLoad world "repo" "m") × (load_model world manager info ≡ (manager, none)))
load_model_cases_example = load_model_cases world manager info

stop_manager_releases_example :
    ((stop_manager manager).0.model_map ≡ [])
    × ((stop_manager manager).0.running ≡ false)
    × (Dict.find 0 (stop_manager manager).0.heap ≡ none)
stop_manager_releases_example = stop_manager_releases manager "m" ctx manager-Sound refl

can : CanLoad world "repo" "m"
unfolding read_config convert_string_to_platform_type
can = record {
  cfg = demo_config;
  parsed = refl;
  is_demo = refl;
  loadable = record {
    platform_set = λ h. cc;
    has_group = λ h. cc;
    accepted = (((λ h. cc), inr refl), tt);
    runnable = (inr refl, tt);
  };
}

update_model_dangles_example :
    let m' = update_model world manager info in
    (ctx' : ModelRunContext ℕ) × (Dict.find the_name m'.model_map ≡ some ctx')
    × (get_elem? ctx'.scheduler.threads 0 ≡ some (calling 7 0))
    × (Dict.find 0 m'.heap ≡ none)
update_model_dangles_example =
    update_model_dangles world manager info ctx 0 7 manager-Sound can refl refl

load_models_settles_example :
    load_models world (apply_update world manager update)
    ≡ returns (apply_update world manager update)
load_models_settles_example =
    load_models_settles world manager (apply_update world manager update) manager-Sound applied

-- A runner is in a call while the destroying thread goes on.
abbrev events : List Event
events = destroys 0 ∷ runner_steps 0 success ∷ destroys 0 ∷ destroys 120 ∷ []

destruction_dangles_example :
    ((destroy_run (begin manager ctx) events).phase ≡ not_called)
      × ((destroy_run (begin manager ctx) events).manager ≡ manager)
    ⊎ (Dict.find
          (destroy_run (begin manager ctx) events).scheduler.infer_func
          (destroy_run (begin manager ctx) events).manager.heap
        ≡ none)
destruction_dangles_example = destruction_dangles manager "m" ctx events manager-Sound refl
