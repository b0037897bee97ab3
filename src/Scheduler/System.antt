-- ===== src/Scheduler/System.antt =====
-- SimpleScheduler (src/core/scheduler/simple_scheduler.cc) with the threads around it: callers of
-- Enqueue, the runners, one caller of Stop. An event lets one of them go one step; a thread that
-- has to wait stays where it is. Enqueue is two steps, the test of `running_` and the push.
use model_inference_server.Common.{
  ℕ, Option, none, some, List, [], ◌∷◌, ◌++◌, if◌then◌else◌, get_elem?, set, remove_at, ℤ,
}
use model_inference_server.Config.{SchedulerConfig}
use model_inference_server.Status.{Status}
use model_inference_server.Queue.{BlockingQueue, push}
use model_inference_server.Scheduler.{
  SimpleScheduler, Runner, Completion, StopPhase, not_called, new_scheduler, start,
  update_backend_infer_func, stop_step, process_step,
}

-- `pending` are the payloads whose callers stand before the push; `admitted`, `refused`, `dropped`
-- and `completions` record what has happened: payloads that passed the test of `running_`, that
-- did not, that were pushed into a broken queue, and the completion callbacks, in order.
pub record System (P F : Type 0) : Type 0 where
  pub scheduler : SimpleScheduler P F
  pub stop : StopPhase
  pub pending : List P
  pub admitted : List P
  pub refused : List P
  pub dropped : List P
  pub completions : List (Completion P)

pub data Event (P F : Type 0) : Type 0 where
  enqueue_tests : P → Event P F
  enqueue_pushes : ℕ → Event P F
  runner_steps : ℕ → Status → Event P F
  stop_steps : ℕ → Event P F
  func_updated : F → Event P F

logged : {P : Type 0} → List (Completion P) → Option (Completion P) → List (Completion P)
logged cs none = cs
logged cs (some c) = cs ++ c ∷ []

module _ {P F : Type 0} where
  test_running : System P F → P → System P F
  test_running t p =
      if t.scheduler.running
      then record t { pending = t.pending ++ p ∷ []; admitted = t.admitted ++ p ∷ [] }
      else record t { refused = t.refused ++ p ∷ [] }

  pushed : System P F → ℕ → P → Option (BlockingQueue P) → System P F
  pushed t i p none = t
  pushed t i p (some q) = record t {
    scheduler = record t.scheduler { queue = q };
    pending = remove_at t.pending i;
    dropped = if q.broken then t.dropped ++ p ∷ [] else t.dropped;
  }

  push_pending : System P F → ℕ → Option P → System P F
  push_pending t i none = t
  push_pending t i (some p) = pushed t i p (push t.scheduler.queue p)

  moved :
      System P F
      → ℕ
      → Option (SimpleScheduler P F × Runner P F × Option (Completion P))
      → System P F
  moved t i none = t
  moved t i (some (s, r, c)) = record t {
    scheduler = record s { threads = set s.threads i r };
    completions = logged t.completions c;
  }

  run_runner : System P F → ℕ → Status → Option (Runner P F) → System P F
  run_runner t i status none = t
  run_runner t i status (some r) = moved t i (process_step t.scheduler r status)

  stopped : System P F → Option (SimpleScheduler P F × StopPhase) → System P F
  stopped t none = t
  stopped t (some (s, phase)) = record t { scheduler = s; stop = phase }

  unfoldable pub step : System P F → Event P F → System P F
  unfolding test_running pushed push_pending logged moved run_runner stopped
  step t (enqueue_tests p) = test_running t p
  step t (enqueue_pushes i) = push_pending t i (get_elem? t.pending i)
  step t (runner_steps i status) = run_runner t i status (get_elem? t.scheduler.threads i)
  step t (stop_steps toc) = stopped t (stop_step t.scheduler t.stop toc)
  step t (func_updated f) = record t { scheduler = (update_backend_infer_func t.scheduler f).0 }

  unfoldable pub run : System P F → List (Event P F) → System P F
  run t [] = t
  run t (e ∷ es) = run (step t e) es

  -- A scheduler that was made and started, before anybody uses it.
  unfoldable pub launched : SchedulerConfig → ℤ → F → System P F
  unfolding new_scheduler start
  launched cfg total_runners f = record {
    scheduler = (start (new_scheduler cfg total_runners f)).0;
    stop = not_called;
    pending = [];
    admitted = [];
    refused = [];
    dropped = [];
    completions = [];
  }
