-- ===== src/Main.antt =====
-- src/core/main.cc: the signal handler, and main from the construction of the core to its exit. The
-- pipe signal's handler only logs. `before` are the signals that arrive up to the reset of `exiting_`,
-- `after` those that arrive later, in their order.
use model_inference_server.Common.{
  ℕ, ◌≡◌, refl, ◌∙◌, Bool, true, false, Option, List, [], ◌∷◌, ℤ, pos, negsuc, arith, if◌then◌else◌,
}
use model_inference_server.Outcome.{Outcome, returns, throws, ◌>>=◌}
use model_inference_server.Status.{Status, success, is_success}
use model_inference_server.Config.{ServerConfig}
use model_inference_server.Manager.{World}
use model_inference_server.Manager.Cycle.{stop_manager}
use model_inference_server.Core.{
  InferenceCore, new_core, start, stop, start_grpc_server, stop_grpc_server,
}
use model_inference_server.Core.Lifecycle.{new_core-off}

pub data ExitSignal : Type 0 where
  no_signal : ExitSignal
  grace_exit : ExitSignal
  immediate_exit : ExitSignal

pub data Signal : Type 0 where
  sigterm : Signal
  sigint : Signal

unfoldable pub signal_handler : ExitSignal → Signal → ExitSignal
signal_handler no_signal sigterm = grace_exit
signal_handler no_signal sigint = immediate_exit
signal_handler grace_exit signum = grace_exit
signal_handler immediate_exit signum = immediate_exit

unfoldable pub signals : ExitSignal → List Signal → ExitSignal
unfolding signal_handler
signals exiting [] = exiting
signals exiting (s ∷ ss) = signals (signal_handler exiting s) ss

-- What becomes of main: it waits for a signal, or exits with a code, after it slept or at once.
pub data MainResult : Type 0 where
  waiting : MainResult
  exits : ℤ → Bool → MainResult

abbrev pub exit_code : Status → ℤ
exit_code status = if is_success status then pos 0 else negsuc 0

-- After the loop: the sleep of GraceExit, and Stop.
abbrev pub leave : InferenceCore ℕ → ExitSignal → Outcome MainResult
leave core no_signal = returns waiting
leave core grace_exit = (stop core).1 >>= λ status. returns (exits (exit_code status) true)
leave core immediate_exit = (stop core).1 >>= λ status. returns (exits (exit_code status) false)

-- exiting_ = NoSignal, before the loop
abbrev pub reset : ExitSignal → ExitSignal
reset exiting = no_signal

-- From the return of Start on.
abbrev pub started :
    ExitSignal → List Signal → InferenceCore ℕ × Outcome Status → Outcome MainResult
started exiting after (core, throws e) = throws e
started exiting after (core, returns status) =
    if is_success status
    then leave core (signals (reset exiting) after)
    else returns (exits (negsuc 0) false)

unfoldable pub serve : InferenceCore ℕ → List Signal → List Signal → Outcome MainResult
serve core before after = started (signals no_signal before) after (start core)

unfoldable pub main_result :
    World → Option ServerConfig → List Signal → List Signal → Outcome MainResult
unfolding serve
main_result w cfg before after = new_core w cfg >>= λ core. serve core before after

keeps_grace : (ss : List Signal) → signals grace_exit ss ≡ grace_exit
unfolding signals signal_handler
keeps_grace [] = refl
keeps_grace (s ∷ ss) = keeps_grace ss

keeps_immediate : (ss : List Signal) → signals immediate_exit ss ≡ immediate_exit
unfolding signals signal_handler
keeps_immediate [] = refl
keeps_immediate (s ∷ ss) = keeps_immediate ss

started-up :
    (core : InferenceCore ℕ)
    → core.running ≡ false
    → core.grpc_server.registered ≡ false
    → (exiting : ExitSignal) (after : List Signal)
    → started exiting after (start core) ≡ leave (start core).0 (signals no_signal after)
unfolding start start_grpc_server
started-up core off unused exiting after = ground arith

stops-clean :
    (core : InferenceCore ℕ)
    → core.running ≡ false
    → core.grpc_server.registered ≡ false
    → (stop (start core).0).1 ≡ returns success
unfolding start start_grpc_server stop stop_grpc_server stop_manager
stops-clean core off unused = ground arith

-- What main comes to by the signals that arrive after the reset.
unfoldable pub outcome_of : List Signal → MainResult
outcome_of [] = waiting
outcome_of (sigterm ∷ rest) = exits (pos 0) true
outcome_of (sigint ∷ rest) = exits (pos 0) false

-- Once a core was constructed, the first signal after the reset decides: main exits with 0, after the
-- sleep if it is SIGTERM and at once if not, and later signals change nothing. With none it waits on,
-- whatever signals arrived while it started.
pub main_result-eq-outcome_of :
    (w : World) (cfg : Option ServerConfig) (core : InferenceCore ℕ) (before after : List Signal)
    → new_core w cfg ≡ returns core
    → main_result w cfg before after ≡ returns (outcome_of after)
unfolding main_result serve signals signal_handler outcome_of
main_result-eq-outcome_of w cfg core before after e =
    rw e (started-up core off unused (signals no_signal before) after ∙ left after)
  where
    off : core.running ≡ false
    off = (new_core-off w cfg core e).0

    unused : core.grpc_server.registered ≡ false
    unused = (new_core-off w cfg core e).2

    left :
        (after : List Signal)
        → leave (start core).0 (signals no_signal after) ≡ returns (outcome_of after)
    left [] = refl
    left (sigterm ∷ rest) = rw (keeps_grace rest, stops-clean core off unused) refl
    left (sigint ∷ rest) = rw (keeps_immediate rest, stops-clean core off unused) refl
