-- ===== src/Scheduler/Shutdown.antt =====
-- The phases of SimpleScheduler::Stop (src/core/scheduler/simple_scheduler.cc).
use model_inference_server.Common.{
  ℕ, zero, suc, ◌≡◌, refl, ap, ◌∙◌, true, false, Option, none, some, List, [], ◌∷◌, arith,
  get_elem?, ℤ,
}
use model_inference_server.Config.{SchedulerConfig}
use model_inference_server.Status.{Status, success}
use model_inference_server.Queue.{push, pop}
use model_inference_server.Scheduler.{
  SimpleScheduler, Runner, testing, popping, ready, calling, exited, StopPhase, not_called,
  depleting, halted, joining, returned, process_step, stop_step, update_backend_infer_func,
  all_exited,
}
use model_inference_server.Scheduler.System.{
  System, Event, enqueue_tests, enqueue_pushes, runner_steps, stop_steps, func_updated, step, run,
  launched,
}

module _ {P F : Type 0} where
  -- What each phase of Stop says of the flag and of the queue.
  abbrev pub InPhase : StopPhase → SimpleScheduler P F → Type 0
  InPhase not_called s = (s.running ≡ true) × (s.queue.broken ≡ false)
  InPhase depleting s = (s.running ≡ true) × (s.queue.broken ≡ false)
  InPhase halted s = (s.running ≡ false) × (s.queue.broken ≡ false)
  InPhase joining s = (s.running ≡ false) × (s.queue.broken ≡ true)
  InPhase (returned status) s =
      (s.running ≡ false)
      × (s.queue.broken ≡ true)
      × (status ≡ success)
      × (all_exited s.threads ≡ true)

  exited_at :
      (rs : List (Runner P F)) (i : ℕ) (r : Runner P F)
      → all_exited rs ≡ true
      → get_elem? rs i ≡ some r
      → r ≡ exited
  exited_at [] i r h g = absurd (cc)
  exited_at (exited ∷ rs) zero r h g = ground arith
  exited_at (exited ∷ rs) (suc i) r h g = exited_at rs i r h g
  exited_at (testing ∷ rs) i r h g = absurd (cc)
  exited_at (popping ∷ rs) i r h g = absurd (cc)
  exited_at (ready p ∷ rs) i r h g = absurd (cc)
  exited_at (calling p f ∷ rs) i r h g = absurd (cc)

  -- A runner's step keeps the flag, the state of the queue and the phase of Stop.
  pub runner_keeps :
      (t : System P F) (i : ℕ) (status : Status) (o : Option (Runner P F)) (b : List P)
      → get_elem? t.scheduler.threads i ≡ o
      → t.scheduler.queue.buffer ≡ b
      → let u = step t (runner_steps i status) in
        (u.stop ≡ t.stop)
        × (u.scheduler.running ≡ t.scheduler.running)
        × (u.scheduler.queue.broken ≡ t.scheduler.queue.broken)
        × (all_exited t.scheduler.threads ≡ true → u.scheduler.threads ≡ t.scheduler.threads)
  unfolding step process_step pop
  runner_keeps t i status none b h hb = ground arith
  runner_keeps t i status (some testing) b h hb =
      ground (arith, exited_at t.scheduler.threads i testing)
  runner_keeps t i status (some popping) [] h hb =
      ground (arith, exited_at t.scheduler.threads i popping)
  runner_keeps t i status (some popping) (p ∷ ps) h hb =
      ground (arith, exited_at t.scheduler.threads i popping)
  runner_keeps t i status (some (ready p)) b h hb =
      ground (arith, exited_at t.scheduler.threads i (ready p))
  runner_keeps t i status (some (calling p f)) b h hb =
      ground (arith, exited_at t.scheduler.threads i (calling p f))
  runner_keeps t i status (some exited) b h hb = ground arith

  pub tests_keeps :
      (t : System P F) (p : P)
      → ((step t (enqueue_tests p)).stop ≡ t.stop)
        × ((step t (enqueue_tests p)).scheduler ≡ t.scheduler)
  unfolding step
  tests_keeps t p = ground arith

  pub pushes_keeps :
      (t : System P F) (i : ℕ) (o : Option P)
      → get_elem? t.pending i ≡ o
      → let u = step t (enqueue_pushes i) in
        (u.stop ≡ t.stop)
        × (u.scheduler.running ≡ t.scheduler.running)
        × (u.scheduler.queue.broken ≡ t.scheduler.queue.broken)
        × (u.scheduler.threads ≡ t.scheduler.threads)
  unfolding step push
  pushes_keeps t i none h = ground arith
  pushes_keeps t i (some p) h = ground arith

  stop-InPhase :
      (t : System P F) (toc : ℕ) (ph : StopPhase)
      → t.stop ≡ ph
      → InPhase ph t.scheduler
      → InPhase (step t (stop_steps toc)).stop (step t (stop_steps toc)).scheduler
  unfolding step stop_step
  stop-InPhase t toc not_called e v = rw (e, step) (rw v.0 (refl, v.1))
  stop-InPhase t toc depleting e v = ground arith
  stop-InPhase t toc halted e v = ground arith
  stop-InPhase t toc joining e v = ground arith
  stop-InPhase t toc (returned s) e v = ground arith

  carry :
      (ph : StopPhase) (s s' : SimpleScheduler P F)
      → s'.running ≡ s.running
      → s'.queue.broken ≡ s.queue.broken
      → (all_exited s.threads ≡ true → s'.threads ≡ s.threads)
      → InPhase ph s
      → InPhase ph s'
  carry not_called s s' r b x v = ground arith
  carry depleting s s' r b x v = ground arith
  carry halted s s' r b x v = ground arith
  carry joining s s' r b x v = ground arith
  carry (returned status) s s' r b x v = (r ∙ v.0, b ∙ v.1, v.2, ap all_exited (x v.3) ∙ v.3)

  moved_phase :
      (t u : System P F) → u.stop ≡ t.stop → InPhase t.stop u.scheduler → InPhase u.stop u.scheduler
  moved_phase t u e v = rw e v

  step-InPhase :
      (t : System P F) (ev : Event P F)
      → InPhase t.stop t.scheduler
      → InPhase (step t ev).stop (step t ev).scheduler
  step-InPhase t (enqueue_tests p) v =
      let (e, s) = tests_keeps t p in
      moved_phase t (step t (enqueue_tests p)) e (
        carry t.stop t.scheduler _ (ap (λ x. x.running) s) (ap (λ x. x.queue.broken) s)
          (λ _. ap (λ x. x.threads) s) v)
  step-InPhase t (enqueue_pushes i) v =
      let (e, r, b, x) = pushes_keeps t i (get_elem? t.pending i) refl in
      moved_phase t (step t (enqueue_pushes i)) e (carry t.stop t.scheduler _ r b (λ _. x) v)
  step-InPhase t (runner_steps i status) v =
      let (e, r, b, x) =
        runner_keeps t i status (get_elem? t.scheduler.threads i) t.scheduler.queue.buffer refl
          refl in
      moved_phase t (step t (runner_steps i status)) e (carry t.stop t.scheduler _ r b x v)
  step-InPhase t (stop_steps toc) v = stop-InPhase t toc t.stop refl v
  step-InPhase t (func_updated f) v =
      unfold step update_backend_infer_func in carry t.stop t.scheduler _ refl refl (λ _. refl) v

  run-InPhase :
      (t : System P F) (evs : List (Event P F))
      → InPhase t.stop t.scheduler
      → InPhase (run t evs).stop (run t evs).scheduler
  unfolding run
  run-InPhase t [] v = v
  run-InPhase t (ev ∷ evs) v = run-InPhase (step t ev) evs (step-InPhase t ev v)

  -- In every run from the start, the phase of Stop decides the flag and the queue: both are up
  -- until the waiting loop ends, then the flag falls, then the queue breaks, and Stop returns
  -- Success only, with every runner out of its loop.
  pub run-launched-InPhase :
      (cfg : SchedulerConfig) (n : ℤ) (f : F) (evs : List (Event P F))
      → let t = run (launched cfg n f) evs in InPhase t.stop t.scheduler
  run-launched-InPhase cfg n f evs =
      run-InPhase (launched cfg n f) evs (unfold launched in (refl, refl))
