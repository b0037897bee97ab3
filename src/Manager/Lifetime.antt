-- ===== src/Manager/Lifetime.antt =====
-- The backends of a ModelManager (src/core/model_manager/model_manager.cc) from its construction on, and
-- when they are destroyed.
use model_inference_server.Common.{
  ◌≡◌, refl, subst, ◌≢◌, inl, inr, Bool, true, false, Bool-cases, some, Option-cases, String, List,
  [], ◌∷◌, arith, string_key, nat_key, str_eq_iff, if◌then◌else◌,
}
use model_inference_server.Common.Dict
use model_inference_server.Common.Dict.{
  Dict, IsDict, find-put, find-insert, find-erase, put-IsDict, insert-IsDict, erase-IsDict,
}
use model_inference_server.Outcome.{Outcome, returns, throws, >>=-eq-returns}
use model_inference_server.Manager.{World, ModelRunContext, ModelManager, StateUpdate}
use model_inference_server.Manager.Cycle.{
  add_model, update_model, delete_model, each, apply_update, load_models,
}
use model_inference_server.Config.{ServerConfig}
use model_inference_server.Status.{Status}
use model_inference_server.Manager.{get_model_state_update}
use model_inference_server.Manager.Cycle.{
  empty_manager, start_manager, new_manager, after_load, upload_loop,
}
use model_inference_server.Manager.Ownership.{Sound, release-Sound}
use model_inference_server.Manager.Reload.{add_model-Sound, update_model-Sound}

module _ {P : Type 0} where
  erase-Sound :
      {m : ModelManager P} (v : Sound m) (name : String)
      → Sound (record m { model_map = Dict.erase name m.model_map })
  erase-Sound {m} v name = record {
    map_ok = erase-IsDict name m.model_map v.map_ok;
    heap_ok = v.heap_ok;
    fresh = v.fresh;
    owned = λ n c h. v.owned n c (kept n c h);
    apart = λ n k c d hc hd e. v.apart n k c d (kept n c hc) (kept k d hd) e;
  }
    where
      kept :
          (n : String) (c : ModelRunContext P)
          → Dict.find n (Dict.erase name m.model_map) ≡ some c
          → Dict.find n m.model_map ≡ some c
      kept n c h = ground (arith, find-erase name n m.model_map v.map_ok)

  erased-unused :
      {m : ModelManager P} (v : Sound m) (name : String) (ctx : ModelRunContext P)
      → Dict.find name m.model_map ≡ some ctx
      → (n : String) (c : ModelRunContext P) → Dict.find n (Dict.erase name m.model_map) ≡ some c
      → c.backend_info.backend ≢ ctx.backend_info.backend
  erased-unused {m} v name ctx h n c hc q =
      ground
        (arith, find-erase name n m.model_map v.map_ok, v.apart n name c ctx, str_eq_iff name n)

  pub delete_model-Sound :
      (m : ModelManager P) (name : String) → Sound m → Sound (delete_model m name)
  delete_model-Sound m name v = elim (Option-cases (Dict.find name m.model_map)) [
    | inl e ↦ unfold delete_model in rw e v
    | inr (ctx, e) ↦
        unfold delete_model in
        rw e
          (release-Sound (erase-Sound v name) ctx.backend_info.backend (erased-unused v name ctx e))
  ]

  pub each-Sound :
      {A : Type 0} (f : ModelManager P → A → ModelManager P)
      → ((m : ModelManager P) (a : A) → Sound m → Sound (f m a))
      → (m : ModelManager P) (xs : List A) → Sound m
      → Sound (each f m xs)
  each-Sound f step m [] v = v
  each-Sound f step m (x ∷ xs) v = each-Sound f step (f m x) xs (step m x v)

  apply_update-Sound :
      (w : World) (m : ModelManager P) (u : StateUpdate) → Sound m → Sound (apply_update w m u)
  unfolding apply_update
  apply_update-Sound w m u v = each-Sound delete_model delete_model-Sound _ u.deleted (
      each-Sound (update_model w) (update_model-Sound w) _ u.updated
        (each-Sound (add_model w) (add_model-Sound w) m u.added v))

  -- LoadModels, whatever the repository holds: afterwards each entry of the map owns a live backend,
  -- made for its name and version, that no other entry owns, and its scheduler calls that backend.
  pub load_models-Sound :
      (w : World) (m m' : ModelManager P) → Sound m → load_models w m ≡ returns m' → Sound m'
  unfolding load_models
  load_models-Sound w m m' v e =
      let (u, eu, em) = >>=-eq-returns (get_model_state_update w m) _ e in
      subst Sound (ground arith) (apply_update-Sound w m u v)

  -- The update loop keeps that up for as long as it runs, through any changes of the repository.
  pub upload_loop-Sound :
      (ws : List World) (m m' : ModelManager P) (done : Bool)
      → Sound m
      → upload_loop ws m ≡ returns (m', done)
      → Sound m'
  upload_loop-Sound [] m m' done v e = unfold upload_loop in subst Sound (ground arith) v
  upload_loop-Sound (w ∷ ws) m m' done v e = elim (Bool-cases m.running) [
    | inl on ↦
        let (n, en, er) =
          >>=-eq-returns (load_models w m) (upload_loop ws) {b = (m', done)}
            (unfold upload_loop in ground arith) in
        upload_loop-Sound ws n m' done (load_models-Sound w m n v en) er
    | inr off ↦ unfold upload_loop in subst Sound (ground arith) v
  ]

  empty-Sound : (cfg : ServerConfig) → Sound (empty_manager {P = P} cfg)
  empty-Sound cfg = record {
    map_ok = tt;
    heap_ok = tt;
    fresh = λ a h. refl;
    owned = λ n ctx h. absurd (cc);
    apart = λ n k c d hc hd e. absurd (cc);
  }

  running-Sound :
      {m : ModelManager P} (v : Sound m) (on updating : Bool)
      → Sound (record m { running = on; updating = updating })
  running-Sound v on updating = record {
    map_ok = v.map_ok;
    heap_ok = v.heap_ok;
    fresh = v.fresh;
    owned = v.owned;
    apart = v.apart;
  }

  after_load-Sound :
      (m : ModelManager P) (o : Outcome (ModelManager P))
      → Sound m
      → ((m' : ModelManager P) → o ≡ returns m' → Sound m')
      → Sound (after_load m o).0
  after_load-Sound m (throws e) v h = v
  after_load-Sound m (returns m') v h =
      running-Sound (h m' refl) m'.running m'.server_cfg.model_control_cfg.auto_update

  if-Sound :
      (b : Bool) (x y : ModelManager P × Outcome Status)
      → Sound x.0
      → Sound y.0
      → Sound (if b then x else y).0
  if-Sound true x y hx hy = hx
  if-Sound false x y hx hy = hy

  start_manager-Sound : (w : World) (m : ModelManager P) → Sound m → Sound (start_manager w m).0
  unfolding start_manager
  start_manager-Sound w m v = if-Sound m.running _ _ v (
      after_load-Sound (record m { running = true }) (load_models w (record m { running = true }))
        (running-Sound v true m.updating)
        (λ m' e.
          load_models-Sound w (record m { running = true }) m' (running-Sound v true m.updating) e))

  -- A manager that was constructed is sound.
  pub new_manager-Sound :
      (w : World) (cfg : ServerConfig) (m : ModelManager P)
      → new_manager w cfg ≡ returns m
      → Sound m
  unfolding new_manager
  new_manager-Sound w cfg m e =
      let (s, es, em) = >>=-eq-returns (start_manager w (empty_manager cfg)).1 _ e in
      subst Sound (ground arith) (start_manager-Sound w (empty_manager cfg) (empty-Sound cfg))
