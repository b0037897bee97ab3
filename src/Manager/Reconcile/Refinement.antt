-- ===== src/Manager/Reconcile/Refinement.antt =====
-- LoadModels (src/core/model_manager/model_manager.cc) implements its description by the repository.
use model_inference_server.Common.{◌≡◌, subst, String, List, arith, string_key, int_key}
use model_inference_server.Outcome.{returns, >>=-eq-returns}
use model_inference_server.Files.{get_directory_sub_dirs}
use model_inference_server.Manager.{World, ModelManager, get_model_state_update}
use model_inference_server.Manager.Cycle.{delete_model, each, apply_update, load_models}
use model_inference_server.Manager.Ownership.{Sound}
use model_inference_server.Manager.Reconcile.{Reconciled}
use model_inference_server.Manager.Reconcile.Passes.{added, updated, reconciled}

pub load_models_reconciles :
    {P : Type 0} (w : World) (m m' : ModelManager P) (dirs : List String) (name : String)
    → Sound m
    → load_models w m ≡ returns m'
    → get_directory_sub_dirs w.boost m.server_cfg.model_repo_path ≡ returns dirs
    → Reconciled w m.server_cfg.model_repo_path dirs m m' name
unfolding load_models apply_update updated added
load_models_reconciles w m m' dirs name v e listed =
    let (u, eu, em) = >>=-eq-returns (get_model_state_update w m) _ e in
    let same : each delete_model (updated w m u dirs name eu listed) u.deleted ≡ m' =
      ground arith in
    subst (λ t. Reconciled w m.server_cfg.model_repo_path dirs m t name) same
      (reconciled w m u dirs name eu listed v)
