-- ===== src/Scheduler.antt =====
-- src/core/scheduler/simple_scheduler.{h,cc}: SimpleScheduler and the loop of its runner threads.
-- `P` is a pointer to a payload, `F` a bound inference function. A runner is the point of
-- ProcessLoop at which it stands; what the inference function returns is the environment's.
pub mod System
pub mod Delivery
pub mod Shutdown
pub mod Exit
pub mod Stranded
use model_inference_server.Common.{
  ℕ, zero, suc, String, Bool, true, false, ◌&&◌, Option, none, some, List, [], ◌∷◌, ◌++◌, ltb,
  if◌then◌else◌, ℤ, pos, negsuc, to_unsigned, pos_part, replicate,
}
use model_inference_server.Config.{SchedulerConfig, max_scheduler_depletion_wait_time}
use model_inference_server.Status.{
  Status, success, failed_scheduler_not_running, failed_scheduler_already_running, status_text,
  is_success,
}
use model_inference_server.Queue.{BlockingQueue, new_queue, push, pop, size, break_all}

-- A runner tests `running_`, pops, has a payload and a copy of the inference function, or is in
-- the call of an inference function.
pub data Runner (P F : Type 0) : Type 0 where
  testing : Runner P F
  popping : Runner P F
  ready : P → Runner P F
  calling : P → F → Runner P F
  exited : Runner P F

pub record SimpleScheduler (P F : Type 0) : Type 0 where
  pub cfg : SchedulerConfig
  pub infer_func : F
  pub queue : BlockingQueue P
  pub total_runners : ℤ
  pub threads : List (Runner P F)
  pub running : Bool

-- OnInferCompleted(status, message) of a payload.
pub record Completion (P : Type 0) : Type 0 where
  pub payload : P
  pub status : Status
  pub message : String

-- Where SimpleScheduler::Stop stands: not called, in the loop that waits for the queue to empty,
-- after `running_ = false`, joining the runners, or returned.
pub data StopPhase : Type 0 where
  not_called : StopPhase
  depleting : StopPhase
  halted : StopPhase
  joining : StopPhase
  returned : Status → StopPhase

-- The message of a completion.
unfoldable pub completion : {P : Type 0} → P → Status → Completion P
completion infer_payload status = record {
  payload = infer_payload;
  status = status;
  message = if is_success status then "" else status_text status;
}

module _ {P F : Type 0} where
  unfoldable pub new_scheduler : SchedulerConfig → ℤ → F → SimpleScheduler P F
  unfolding new_queue
  new_scheduler scheduler_config total_runners backend_infer_func = record {
    cfg = scheduler_config;
    infer_func = backend_infer_func;
    queue = new_queue (to_unsigned 64 scheduler_config.max_queue_size);
    total_runners = total_runners;
    threads = [];
    running = false;
  }

  after_enqueue :
      SimpleScheduler P F → Option (BlockingQueue P) → Option (SimpleScheduler P F × Status)
  after_enqueue s none = none
  after_enqueue s (some q) = some (record s { queue = q }, success)

  -- none while the caller waits for room in the queue.
  unfoldable pub enqueue : SimpleScheduler P F → P → Option (SimpleScheduler P F × Status)
  unfolding after_enqueue
  enqueue s infer_payload =
      if s.running
      then after_enqueue s (push s.queue infer_payload)
      else some (s, failed_scheduler_not_running)

  unfoldable pub update_backend_infer_func : SimpleScheduler P F → F → SimpleScheduler P F × Status
  update_backend_infer_func s infer_func = (record s { infer_func = infer_func }, success)

  -- for (idx = 0; idx < total_runners_; idx++) threads_.push_back(...)
  abbrev pub spawned : ℤ → List (Runner P F)
  spawned total_runners = replicate (pos_part total_runners) testing

  unfoldable pub start : SimpleScheduler P F → SimpleScheduler P F × Status
  start s =
      if s.running
      then (s, failed_scheduler_already_running)
      else (record s { running = true; threads = s.threads ++ spawned s.total_runners }, success)

  -- The condition of the waiting loop of Stop; `toc` is the timer's reading, in milliseconds.
  unfoldable pub should_wait : SimpleScheduler P F → ℕ → Bool
  unfolding size
  should_wait s toc = ltb 0 (size s.queue) && ltb toc max_scheduler_depletion_wait_time

  -- `thd->joinable()` threads are joined once they have left ProcessLoop.
  abbrev pub all_exited : List (Runner P F) → Bool
  all_exited [] = true
  all_exited (exited ∷ rs) = all_exited rs
  all_exited (_ ∷ rs) = false

  -- One step of Stop; none while it waits in a join, or has returned.
  unfoldable pub stop_step :
      SimpleScheduler P F → StopPhase → ℕ → Option (SimpleScheduler P F × StopPhase)
  unfolding should_wait break_all
  stop_step s not_called toc =
      some (s, (if s.running then depleting else returned failed_scheduler_not_running))
  stop_step s depleting toc =
      if should_wait s toc then some (s, depleting) else some (record s { running = false }, halted)
  stop_step s halted toc = some (record s { queue = break_all s.queue }, joining)
  stop_step s joining toc = if all_exited s.threads then some (s, returned success) else none
  stop_step s (returned status) toc = none

  abbrev popped :
      SimpleScheduler P F
      → Option (BlockingQueue P × Option P)
      → Option (SimpleScheduler P F × Runner P F × Option (Completion P))
  popped s none = none
  popped s (some (q, none)) = some (record s { queue = q }, testing, none)
  popped s (some (q, some infer_payload)) = some (record s { queue = q }, ready infer_payload, none)

  -- One step of ProcessLoop, with the status that a call that ends now returns: the scheduler, where
  -- the runner stands, and the completion, if there is one. None while it waits, or after the loop.
  -- The copy `infer_func` is taken under the lock; the call goes through `infer_func_`.
  unfoldable pub process_step :
      SimpleScheduler P F
      → Runner P F
      → Status
      → Option (SimpleScheduler P F × Runner P F × Option (Completion P))
  unfolding completion
  process_step s testing status = some (s, (if s.running then popping else exited), none)
  process_step s popping status = popped s (pop s.queue)
  process_step s (ready infer_payload) status = some (s, calling infer_payload s.infer_func, none)
  process_step s (calling infer_payload f) status =
      some (s, testing, some (completion infer_payload status))
  process_step s exited status = none
