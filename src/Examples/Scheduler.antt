-- ===== src/Examples/Scheduler.antt =====
-- Runs of src/core/scheduler/simple_scheduler.{h,cc}.
use model_inference_server.Common.{
  ℕ, ◌≡◌, refl, ◌≤◌, ◌<◌, ◌*◌, ◌+◌, true, false, some, List, [], ◌∷◌, pos, nat_key, count, length,
  arith,
}
use model_inference_server.Config.{SchedulerConfig, scheduler_simple}
use model_inference_server.Status.{success, failed_generic}
use model_inference_server.Queue.{push, pop}
use model_inference_server.Queue.Fifo.{Call, pushes, pops, breaks, Inv}
use model_inference_server.Queue.Fifo
use model_inference_server.Scheduler.{
  SimpleScheduler, exited, start, enqueue, stop_step, all_exited, process_step,
}
use model_inference_server.Scheduler.System.{
  Event, enqueue_tests, enqueue_pushes, runner_steps, stop_steps, step, run, launched,
}
use model_inference_server.Scheduler.Delivery.{answered, answered_once, drained_answers}
use model_inference_server.Scheduler.Shutdown.{InPhase, run-launched-InPhase}
use model_inference_server.Scheduler.Exit.{runners_exit}
use model_inference_server.Scheduler.Stranded.{stranded, enqueue-restart}

abbrev cfg : SchedulerConfig
cfg = record { type = scheduler_simple; max_queue_size = pos 4 }

-- One payload is queued and answered, and Stop runs to its end.
abbrev served : List (Event ℕ ℕ)
served =
    enqueue_tests 7
    ∷ enqueue_pushes 0
    ∷ runner_steps 0 success
    ∷ runner_steps 0 success
    ∷ runner_steps 0 success
    ∷ runner_steps 0 failed_generic
    ∷ stop_steps 0
    ∷ stop_steps 0
    ∷ stop_steps 0
    ∷ runner_steps 0 success
    ∷ stop_steps 0
    ∷ []

-- The queue is broken with a payload in it.
abbrev left_behind : List (Event ℕ ℕ)
left_behind =
    enqueue_tests 7 ∷ enqueue_pushes 0 ∷ stop_steps 0 ∷ stop_steps 120 ∷ stop_steps 120 ∷ []

answered_once_example :
    answered 7 (run (launched cfg (pos 1) 0) served).completions
    ≤ count 7 (run (launched cfg (pos 1) 0) served).admitted
answered_once_example = answered_once 7 cfg (pos 1) 0 served

served-drained :
    ((run (launched cfg (pos 1) 0) served).pending ≡ [])
    × ((run (launched cfg (pos 1) 0) served).scheduler.queue.buffer ≡ [])
    × (all_exited (run (launched cfg (pos 1) 0) served).scheduler.threads ≡ true)
unfolding run step launched stop_step push process_step pop
served-drained = (refl, refl, refl)

drained_answers_example :
    count 7 (run (launched cfg (pos 1) 0) served).admitted
    ≡ answered 7 (run (launched cfg (pos 1) 0) served).completions
      + count 7 (run (launched cfg (pos 1) 0) served).dropped
drained_answers_example =
    drained_answers 7 cfg (pos 1) 0 served served-drained.0 served-drained.1 served-drained.2

run-launched-InPhase_example :
    InPhase
      (run (launched cfg (pos 1) 0) served).stop
      (run (launched cfg (pos 1) 0) served).scheduler
run-launched-InPhase_example = run-launched-InPhase cfg (pos 1) 0 served

left_behind-broken :
    ((run (launched cfg (pos 1) 0) left_behind).scheduler.running ≡ false)
    × ((run (launched cfg (pos 1) 0) left_behind).scheduler.queue.broken ≡ true)
    × (0 < count 7 (run (launched cfg (pos 1) 0) left_behind).scheduler.queue.buffer)
    × (count 7
          (run (run (launched cfg (pos 1) 0) left_behind) (runner_steps 0 success ∷ [])).admitted
        ≡ 1)
unfolding run step launched stop_step push process_step pop
left_behind-broken = (refl, refl, omega arith, refl)

runners_exit_example :
    (evs : List (Event ℕ ℕ)) × (all_exited
        (run (run (launched cfg (pos 1) 0) left_behind) evs).scheduler.threads
      ≡ true)
    × (length evs ≤ 3 * length (run (launched cfg (pos 1) 0) left_behind).scheduler.threads)
runners_exit_example =
    runners_exit (run (launched cfg (pos 1) 0) left_behind) success left_behind-broken.0
      left_behind-broken.1

stranded_example :
    answered 7
      (run (run (launched cfg (pos 1) 0) left_behind) (runner_steps 0 success ∷ [])).completions
    ≡ 0
stranded_example =
    stranded 7 cfg (pos 1) 0 left_behind (runner_steps 0 success ∷ []) left_behind-broken.1
      left_behind-broken.2 left_behind-broken.3

abbrev stopped : SimpleScheduler ℕ ℕ
stopped = record {
  cfg = cfg;
  infer_func = 0;
  queue = record { buffer = 3 ∷ []; broken = true; capacity = 4 };
  total_runners = pos 1;
  threads = exited ∷ [];
  running = false;
}

enqueue-restart_example :
    ((start stopped).1 ≡ success)
    × (enqueue (start stopped).0 5 ≡ some ((start stopped).0, success))
enqueue-restart_example = enqueue-restart stopped 5 refl refl

abbrev calls : List (Call ℕ)
calls = pushes 1 ∷ pushes 2 ∷ pops ∷ pushes 3 ∷ pushes 4 ∷ breaks ∷ pops ∷ []

run-start-Inv_example : Inv 2 (Fifo.run (Fifo.start 2) calls)
run-start-Inv_example = Fifo.run-start-Inv 2 calls
