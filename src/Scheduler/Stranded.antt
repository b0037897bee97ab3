-- ===== src/Scheduler/Stranded.antt =====
-- What SimpleScheduler (src/core/scheduler/simple_scheduler.cc) leaves behind when it is stopped.
use model_inference_server.Common.{
  ℕ, ◌≤◌, ◌<◌, ◌≡◌, refl, ◌⊎◌, ◌↔◌, ap, ◌∙◌, true, false, Option, none, some, List, [], ◌∷◌, arith,
  get_elem?, Keys, count, ℤ,
}
use model_inference_server.Config.{SchedulerConfig}
use model_inference_server.Status.{Status, success}
use model_inference_server.Queue.{push, pop}
use model_inference_server.Scheduler.{
  SimpleScheduler, Runner, testing, popping, ready, calling, exited, StopPhase, not_called,
  depleting, halted, joining, returned, process_step, stop_step, update_backend_infer_func, start,
  enqueue,
}
use model_inference_server.Scheduler.System.{
  System, Event, enqueue_tests, enqueue_pushes, runner_steps, stop_steps, func_updated, step, run,
  launched,
}
use model_inference_server.Scheduler.Delivery.{answered, run-Conserved, run-launched-Conserved}
use model_inference_server.Scheduler.Shutdown.{tests_keeps}

module _ {P F : Type 0} where
  pushes-broken :
      (t : System P F) (i : ℕ) (o : Option P)
      → get_elem? t.pending i ≡ o
      → t.scheduler.queue.broken ≡ true
      → (step t (enqueue_pushes i)).scheduler.queue ≡ t.scheduler.queue
  unfolding step push
  pushes-broken t i none h b = ground arith
  pushes-broken t i (some p) h b = ground arith

  runner-broken :
      (t : System P F) (i : ℕ) (status : Status) (o : Option (Runner P F))
      → get_elem? t.scheduler.threads i ≡ o
      → t.scheduler.queue.broken ≡ true
      → (step t (runner_steps i status)).scheduler.queue ≡ t.scheduler.queue
  unfolding step process_step pop
  runner-broken t i status none h b = ground arith
  runner-broken t i status (some testing) h b = ground arith
  runner-broken t i status (some popping) h b = ground arith
  runner-broken t i status (some (ready p)) h b = ground arith
  runner-broken t i status (some (calling p f)) h b = ground arith
  runner-broken t i status (some exited) h b = ground arith

  stop-broken :
      (t : System P F) (toc : ℕ) (ph : StopPhase)
      → t.stop ≡ ph
      → t.scheduler.queue.broken ≡ true
      → (step t (stop_steps toc)).scheduler.queue ≡ t.scheduler.queue
  unfolding step stop_step
  stop-broken t toc not_called e b = ground arith
  stop-broken t toc depleting e b = ground arith
  stop-broken t toc halted e b = ground arith
  stop-broken t toc joining e b = ground arith
  stop-broken t toc (returned s) e b = ground arith

  step-broken :
      (t : System P F) (ev : Event P F)
      → t.scheduler.queue.broken ≡ true
      → (step t ev).scheduler.queue ≡ t.scheduler.queue
  step-broken t (enqueue_tests p) b = ap (λ s. s.queue) (tests_keeps t p).1
  step-broken t (enqueue_pushes i) b = pushes-broken t i (get_elem? t.pending i) refl b
  step-broken t (runner_steps i status) b =
      runner-broken t i status (get_elem? t.scheduler.threads i) refl b
  step-broken t (stop_steps toc) b = stop-broken t toc t.stop refl b
  step-broken t (func_updated f) b = unfold step update_backend_infer_func in refl

  run-broken :
      (t : System P F) (evs : List (Event P F))
      → t.scheduler.queue.broken ≡ true
      → (run t evs).scheduler.queue ≡ t.scheduler.queue
  unfolding run
  run-broken t [] b = refl
  run-broken t (ev ∷ evs) b =
      run-broken (step t ev) evs (ap (λ q. q.broken) (step-broken t ev b) ∙ b) ∙ step-broken t ev b

module _ {P F : Type 0} ⦃e : Keys P⦄ where
  -- A payload that is in the queue when Stop breaks it is never answered, if it was admitted once:
  -- its completion is not called, whatever runs afterwards.
  pub stranded :
      (a : P) (cfg : SchedulerConfig) (n : ℤ) (f : F) (evs later : List (Event P F))
      → (run (launched cfg n f) evs).scheduler.queue.broken ≡ true
      → 0 < count a (run (launched cfg n f) evs).scheduler.queue.buffer
      → count a (run (run (launched cfg n f) evs) later).admitted ≡ 1
      → answered a (run (run (launched cfg n f) evs) later).completions ≡ 0
  stranded a cfg n f evs later b waits once =
      let t = run (launched cfg n f) evs in
      omega (
        arith,
        run-Conserved a t later (run-launched-Conserved a cfg n f evs),
        ap (λ q. count a q.buffer) (run-broken t later b),
      )

depleting_ends_at :
    {P F : Type 0} (s : SimpleScheduler P F) (toc : ℕ) (b : List P)
    → s.queue.buffer ≡ b
    → (stop_step s depleting toc ≡ some (record s { running = false }, halted))
      ↔ ((b ≡ []) ⊎ (120 ≤ toc))
unfolding stop_step
depleting_ends_at s toc [] e = ground arith
depleting_ends_at s toc (x ∷ xs) e = ground arith

-- Stop gives up waiting for the queue after 120 milliseconds, and not earlier unless it is empty.
pub depleting_ends_iff :
    {P F : Type 0} (s : SimpleScheduler P F) (toc : ℕ)
    → (stop_step s depleting toc ≡ some (record s { running = false }, halted))
      ↔ ((s.queue.buffer ≡ []) ⊎ (120 ≤ toc))
depleting_ends_iff s toc = depleting_ends_at s toc s.queue.buffer refl

-- A scheduler that is started again after Stop accepts payloads and drops them: Enqueue reports
-- Success and leaves the scheduler as it was.
pub enqueue-restart :
    {P F : Type 0} (s : SimpleScheduler P F) (p : P)
    → s.running ≡ false
    → s.queue.broken ≡ true
    → ((start s).1 ≡ success) × (enqueue (start s).0 p ≡ some ((start s).0, success))
unfolding enqueue start push
enqueue-restart s p d b = ground arith
