-- ===== src/Server/Startup.antt =====
-- A server that has just started (src/core/server/inference_core.cc) has no payload anywhere.
use model_inference_server.Common.{
  ℕ, ◌≡◌, refl, subst, Bool, true, false, Option, none, some, arith, if◌then◌else◌,
}
use model_inference_server.Outcome.{Outcome, returns, throws, ◌>>=◌, >>=-eq-returns}
use model_inference_server.Status.{Status}
use model_inference_server.Config.{ServerConfig}
use model_inference_server.Manager.{World, ModelManager, get_model_state_update}
use model_inference_server.Manager.Cycle.{
  load_models, apply_update, start_manager, after_load, empty_manager, new_manager, create,
}
use model_inference_server.Core.{
  InferenceCore, constructed, create_grpc_server, start_grpc_server, new_core, start,
}
use model_inference_server.Server.Places.{in_map}
use model_inference_server.Server.Opened.{AllOpen, apply_update-AllOpen}
use model_inference_server.Server.Loading.{in_map-apply_update}

module _ (a : ℕ) where
  abbrev IsVacant : ModelManager ℕ → Type 0
  IsVacant m = (in_map a m.model_map ≡ 0) × AllOpen m.model_map

  load_models-IsVacant :
      (w : World) (m m' : ModelManager ℕ) → IsVacant m → load_models w m ≡ returns m' → IsVacant m'
  unfolding load_models
  load_models-IsVacant w m m' v e =
      let (u, eu, em) = >>=-eq-returns (get_model_state_update w m) _ e in
      let same : apply_update w m u ≡ m' = ground arith in
      subst IsVacant same
        (omega (arith, v.0, in_map-apply_update a w m u), apply_update-AllOpen w m u v.1)

  after_load-IsVacant :
      (m : ModelManager ℕ) (o : Outcome (ModelManager ℕ))
      → IsVacant m
      → ((m' : ModelManager ℕ) → o ≡ returns m' → IsVacant m')
      → IsVacant (after_load m o).0
  after_load-IsVacant m (throws e) v h = v
  after_load-IsVacant m (returns m') v h = h m' refl

  if-IsVacant :
      (b : Bool) (x y : ModelManager ℕ × Outcome Status)
      → IsVacant x.0
      → IsVacant y.0
      → IsVacant (if b then x else y).0
  if-IsVacant true x y hx hy = hx
  if-IsVacant false x y hx hy = hy

  start_manager-IsVacant :
      (w : World) (m : ModelManager ℕ) → IsVacant m → IsVacant (start_manager w m).0
  unfolding start_manager
  start_manager-IsVacant w m v = if-IsVacant m.running _ _ v (
      after_load-IsVacant (record m { running = true })
        (load_models w (record m { running = true })) v
        (λ m' e. load_models-IsVacant w (record m { running = true }) m' v e))

  new_manager-IsVacant :
      (w : World) (cfg : ServerConfig) (m : ModelManager ℕ)
      → new_manager w cfg ≡ returns m
      → IsVacant m
  unfolding new_manager
  new_manager-IsVacant w cfg m e =
      let (s, es, em) = >>=-eq-returns (start_manager w (empty_manager cfg)).1 _ e in
      let same : (start_manager w (empty_manager cfg)).0 ≡ m = ground arith in
      subst IsVacant same (start_manager-IsVacant w (empty_manager cfg) (refl, tt))

  constructed-manager :
      (core : InferenceCore ℕ) (o : Outcome (Status × Option (ModelManager ℕ)))
      → (o >>= λ made. constructed made create_grpc_server) ≡ returns core
      → (status : Status) × (o ≡ returns (status, some core.model_manager))
  constructed-manager core (throws e) h = absurd (cc h)
  constructed-manager core (returns (status, none)) h = absurd (cc h)
  constructed-manager core (returns (status, some m)) h = (status, ground arith)

  create-manager :
      (w : World) (cfg : Option ServerConfig) (status : Status) (m : ModelManager ℕ)
      → create w cfg ≡ returns (status, some m)
      → (c : ServerConfig) × (new_manager w c ≡ returns m)
  unfolding create
  create-manager w none status m e = absurd (ground arith)
  create-manager w (some c) status m e =
      let (m', en, er) = >>=-eq-returns (new_manager w c) _ e in (c, ground arith)

  start-manager : (core : InferenceCore ℕ) → (start core).0.model_manager ≡ core.model_manager
  unfolding start start_grpc_server
  start-manager core = ground arith

  pub new_core-IsVacant :
      (w : World) (cfg : Option ServerConfig) (core : InferenceCore ℕ)
      → new_core w cfg ≡ returns core
      → IsVacant (start core).0.model_manager
  unfolding new_core
  new_core-IsVacant w cfg core e =
      let (status, made) = constructed-manager core (create w cfg) e in
      let (c, new) = create-manager w cfg status core.model_manager made in
      rw (start-manager core) (new_manager-IsVacant w c core.model_manager new)
