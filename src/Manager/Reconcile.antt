-- ===== src/Manager/Reconcile.antt =====
-- What a name of the map stands for after LoadModels (src/core/model_manager/model_manager.cc), by
-- what the repository has.
pub mod Loops
pub mod Passes
pub mod Refinement
pub mod Settled
use model_inference_server.Common.{
  ◌≡◌, refl, sym, ap, ◌∙◌, subst, ◌≢◌, ◌↔◌, ◌⊎◌, inl, inr, Option, none, some, true, false,
  Option-cases, Bool-cases, Keys-cases, String, List, [], ◌∷◌, All, contains, ℤ, negsuc, eqb_ℤ,
  eqb_ℤ_iff, arith, string_key, int_key,
}
use model_inference_server.Common.Dict
use model_inference_server.Outcome.{Outcome, returns, Outcome-cases, >>=-eq-returns}
use model_inference_server.Files.{get_directory_sub_dirs}
use model_inference_server.Manager.{
  World, ModelRunContext, ModelManager, ModelLoadInfo, StateUpdate, read_config,
  get_highest_version, get_model_state_update,
}
use model_inference_server.Manager.Cycle.{
  add_model, update_model, delete_model, each, apply_update, load_models,
}
use model_inference_server.Manager.Load.{CanLoad, load_model_cases}
use model_inference_server.Manager.Ownership.{Sound}
use model_inference_server.Manager.Reload.{add_model-Sound, update_model-Sound}
use model_inference_server.Manager.Lifetime.{each-Sound}
use model_inference_server.Manager.Scanned.{Listed, Offers, Outdated, Scanned, only_one}
use model_inference_server.Manager.Scan.{get_model_state_update_lists}
use model_inference_server.Manager.Entries.{version_of, served}
use model_inference_server.Manager.Reconcile.Loops.{
  About, All-Listed, Loadable, Kept, Serving, each-keeps, add_model-Kept, update_model-Kept,
  add_model-Serving, update_model-Serving, add_models-serve, update_models-serve,
  delete_models-Kept, delete_models-gone,
}

-- A version that the repository has of a model, and that can be loaded.
abbrev pub Servable : World → String → String → ℤ → Type 0
Servable w repo name version = Offers w repo name version × CanLoad w repo name

-- What a name stands for after LoadModels: nothing, if it has no directory; the greatest version in
-- it, if the repository has one that can be loaded; and else what it stood for before.
pub data Reconciled {P : Type 0} (w : World) (repo : String) (dirs : List String)
    (before after : ModelManager P) (name : String) : Type 0 where
  gone :
      contains dirs name ≡ false
      → Dict.find name after.model_map ≡ none
      → Reconciled w repo dirs before after name
  current :
      (version : ℤ)
      → contains dirs name ≡ true
      → Servable w repo name version
      → served after name ≡ some version
      → Reconciled w repo dirs before after name
  kept :
      contains dirs name ≡ true
      → ((version : ℤ) → ¬ Servable w repo name version)
      → Dict.find name after.model_map ≡ Dict.find name before.model_map
      → Reconciled w repo dirs before after name
