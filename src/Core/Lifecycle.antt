-- ===== src/Core/Lifecycle.antt =====
-- Start and Stop of InferenceCore (src/core/server/inference_core.cc), in any order of calls.
use model_inference_server.Common.{◌≡◌, refl, true, false, Option, List, [], ◌∷◌, arith}
use model_inference_server.Outcome.{Outcome, returns, throws, aborted}
use model_inference_server.Status.{
  Status, success, faield_rpc_already_running, failed_rpc_not_running,
}
use model_inference_server.Config.{ServerConfig}
use model_inference_server.Manager.{World}
use model_inference_server.Manager.Cycle.{stop_manager}
use model_inference_server.Core.{
  InferenceCore, new_core, create_grpc_server, start_grpc_server, stop_grpc_server, start, stop,
}

-- A call on an InferenceCore.
pub data Call : Type 0 where
  starts : Call
  stops : Call

-- The contract: a core is fresh, on, or was stopped after it was on. A call that would leave it as it
-- is fails, and a core that was stopped cannot be started again.
pub data Mode : Type 0 where
  fresh on used : Mode

unfoldable pub answer : Mode → Call → Outcome Status
answer fresh starts = returns success
answer on starts = returns faield_rpc_already_running
answer used starts = throws aborted
answer on stops = returns success
answer _ stops = returns failed_rpc_not_running

unfoldable pub turned : Mode → Call → Mode
turned fresh starts = on
turned on stops = used
turned mode _ = mode

-- Nothing follows the call that ends the program.
abbrev pub then_calls : Outcome Status → List (Outcome Status) → List (Outcome Status)
then_calls (returns status) rest = returns status ∷ rest
then_calls (throws e) rest = throws e ∷ []

unfoldable pub answers : Mode → List Call → List (Outcome Status)
unfolding answer turned
answers mode [] = []
answers mode (c ∷ cs) = then_calls (answer mode c) (answers (turned mode c) cs)

module _ {P : Type 0} where
  unfoldable pub call : InferenceCore P → Call → InferenceCore P × Outcome Status
  call core starts = start core
  call core stops = stop core

  -- What the calls return, in their order.
  unfoldable pub call_all : InferenceCore P → List Call → List (Outcome Status)
  unfolding call
  call_all core [] = []
  call_all core (c ∷ cs) = then_calls (call core c).1 (call_all (call core c).0 cs)

  -- What the members hold in each mode.
  IsIn : InferenceCore P → Mode → Type 0
  IsIn core fresh =
      (core.running ≡ false)
      × (core.grpc_server.running ≡ false)
      × (core.grpc_server.registered ≡ false)
  IsIn core on =
      (core.running ≡ true)
      × (core.grpc_server.running ≡ true)
      × (core.grpc_server.registered ≡ true)
  IsIn core used =
      (core.running ≡ false)
      × (core.grpc_server.running ≡ false)
      × (core.grpc_server.registered ≡ true)

  call_lem :
      (core : InferenceCore P) (mode : Mode) (c : Call)
      → IsIn core mode
      → ((call core c).1 ≡ answer mode c) × IsIn (call core c).0 (turned mode c)
  unfolding IsIn call answer turned start stop start_grpc_server stop_grpc_server stop_manager
  call_lem core fresh starts v = ground (arith, v)
  call_lem core on starts v = ground (arith, v)
  call_lem core used starts v = ground (arith, v)
  call_lem core fresh stops v = ground (arith, v)
  call_lem core on stops v = ground (arith, v)
  call_lem core used stops v = ground (arith, v)

  call_all_lem :
      (core : InferenceCore P) (mode : Mode) (cs : List Call)
      → IsIn core mode
      → call_all core cs ≡ answers mode cs
  unfolding call_all answers
  call_all_lem core mode [] v = refl
  call_all_lem core mode (c ∷ cs) v =
      let (e, after) = call_lem core mode c v in
      cc (e, call_all_lem (call core c).0 (turned mode c) cs after)

  pub new_core-off :
      (w : World) (cfg : Option ServerConfig) (core : InferenceCore P)
      → new_core w cfg ≡ returns core
      → (core.running ≡ false)
        × (core.grpc_server.running ≡ false)
        × (core.grpc_server.registered ≡ false)
  unfolding new_core create_grpc_server
  new_core-off w cfg core e = ground (arith, e)

  -- What any calls of Start and Stop after the construction of a core return, each Stop once the
  -- handlers' threads have ended: the first Start succeeds, Start fails while the core runs, Stop fails
  -- while it does not, and the Start after a Stop that succeeded ends the program.
  pub call_all-new_core :
      (w : World) (cfg : Option ServerConfig) (core : InferenceCore P) (cs : List Call)
      → new_core w cfg ≡ returns core
      → call_all core cs ≡ answers fresh cs
  unfolding IsIn
  call_all-new_core w cfg core cs e = call_all_lem core fresh cs (new_core-off w cfg core e)
