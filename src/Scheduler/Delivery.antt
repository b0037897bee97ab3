-- ===== src/Scheduler/Delivery.antt =====
-- No payload is lost or answered twice by SimpleScheduler (src/core/scheduler/simple_scheduler.cc).
use model_inference_server.Common.{
  ℕ, zero, suc, ◌+◌, ◌≤◌, ◌≡◌, refl, ap, true, Option, none, some, List, [], ◌∷◌, ◌++◌, arith,
  get_elem?, set, replicate, Keys, count, occurs, count-append, count-remove_at, ℤ, pos_part,
}
use model_inference_server.Config.{SchedulerConfig}
use model_inference_server.Status.{Status}
use model_inference_server.Queue.{push, pop}
use model_inference_server.Scheduler.{
  Runner, testing, popping, ready, calling, exited, Completion, StopPhase, process_step, stop_step,
  completion, all_exited, update_backend_infer_func,
}
use model_inference_server.Scheduler.System.{
  System, Event, enqueue_tests, enqueue_pushes, runner_steps, stop_steps, func_updated, step, run,
  launched,
}

module _ {P : Type 0} ⦃e : Keys P⦄ where
  -- How often a runner has the payload.
  abbrev pub has : {F : Type 0} → P → Runner P F → ℕ
  has a (ready p) = occurs a p
  has a (calling p f) = occurs a p
  has a _ = 0

  abbrev pub held : {F : Type 0} → P → List (Runner P F) → ℕ
  held a [] = 0
  held a (r ∷ rs) = has a r + held a rs

  -- How often the payload has been completed.
  abbrev pub answered : P → List (Completion P) → ℕ
  answered a [] = 0
  answered a (c ∷ cs) = occurs a c.payload + answered a cs

  answered-append :
      (a : P) (cs ds : List (Completion P)) → answered a (cs ++ ds) ≡ answered a cs + answered a ds
  answered-append a [] ds = omega arith
  answered-append a (c ∷ cs) ds = omega (arith, answered-append a cs ds)

  pub held-spawned : (F : Type 0) (a : P) (n : ℕ) → held {F = F} a (replicate n testing) ≡ 0
  held-spawned F a zero = refl
  held-spawned F a (suc n) = omega (arith, held-spawned F a n)

module _ {P F : Type 0} ⦃e : Keys P⦄ where
  pub held-set :
      (a : P) (rs : List (Runner P F)) (i : ℕ) (r r' : Runner P F)
      → get_elem? rs i ≡ some r
      → held a (set rs i r') + has a r ≡ held a rs + has a r'
  held-set a [] i r r' h = absurd (cc)
  held-set a (x ∷ xs) zero r r' h = ground arith
  held-set a (x ∷ xs) (suc i) r r' h = omega (arith, held-set a xs i r r' h)

  -- A payload that passed the test of Enqueue is before the push, in the buffer, with a runner,
  -- completed, or dropped by the push into a broken queue: as often as it passed.
  abbrev pub Conserved : P → System P F → Type 0
  Conserved a t =
      count a t.admitted
      ≡ count a t.pending
        + count a t.scheduler.queue.buffer
        + held a t.scheduler.threads
        + answered a t.completions
        + count a t.dropped

  module _ (a : P) (t : System P F) (v : Conserved a t) where
    tests-Conserved : (p : P) → Conserved a (step t (enqueue_tests p))
    unfolding step
    tests-Conserved p =
        ground (arith, count-append a t.pending (p ∷ []), count-append a t.admitted (p ∷ []))

    pushes-Conserved :
        (i : ℕ) (o : Option P) → get_elem? t.pending i ≡ o → Conserved a (step t (enqueue_pushes i))
    unfolding step push
    pushes-Conserved i none h = ground arith
    pushes-Conserved i (some p) h = ground (
      arith,
      count-remove_at a p t.pending i h,
      count-append a t.scheduler.queue.buffer (p ∷ []),
      count-append a t.dropped (p ∷ []),
    )

    stop-Conserved :
        (toc : ℕ) (ph : StopPhase) → t.stop ≡ ph → Conserved a (step t (stop_steps toc))
    unfolding step stop_step
    stop-Conserved toc StopPhase.not_called h = ground arith
    stop-Conserved toc StopPhase.depleting h = ground arith
    stop-Conserved toc StopPhase.halted h = ground arith
    stop-Conserved toc StopPhase.joining h = ground arith
    stop-Conserved toc (StopPhase.returned s) h = ground arith

    runner-Conserved :
        (i : ℕ) (status : Status) (o : Option (Runner P F)) (b : List P)
        → get_elem? t.scheduler.threads i ≡ o
        → t.scheduler.queue.buffer ≡ b
        → Conserved a (step t (runner_steps i status))
    unfolding step process_step pop
    runner-Conserved i status none b h hb = ground arith
    runner-Conserved i status (some testing) b h hb = ground (
      arith,
      held-set a t.scheduler.threads i testing popping h,
      held-set a t.scheduler.threads i testing exited h,
    )
    runner-Conserved i status (some popping) [] h hb =
        ground (arith, held-set a t.scheduler.threads i popping testing h)
    runner-Conserved i status (some popping) (p ∷ ps) h hb = ground (
      arith,
      held-set a t.scheduler.threads i popping testing h,
      held-set a t.scheduler.threads i popping (ready p) h,
    )
    runner-Conserved i status (some (ready p)) b h hb =
        ground
          (arith, held-set a t.scheduler.threads i (ready p) (calling p t.scheduler.infer_func) h)
    runner-Conserved i status (some (calling p f)) b h hb = ground (
      arith,
      held-set a t.scheduler.threads i (calling p f) testing h,
      answered-append a t.completions (completion p status ∷ []),
    )
    runner-Conserved i status (some exited) b h hb = ground arith

  step-Conserved :
      (a : P) (t : System P F) (ev : Event P F) → Conserved a t → Conserved a (step t ev)
  step-Conserved a t (enqueue_tests p) v = tests-Conserved a t v p
  step-Conserved a t (enqueue_pushes i) v = pushes-Conserved a t v i (get_elem? t.pending i) refl
  step-Conserved a t (runner_steps i status) v =
      runner-Conserved a t v i status (get_elem? t.scheduler.threads i) t.scheduler.queue.buffer
        refl refl
  step-Conserved a t (stop_steps toc) v = stop-Conserved a t v toc t.stop refl
  step-Conserved a t (func_updated f) v = unfold step update_backend_infer_func in v

  pub run-Conserved :
      (a : P) (t : System P F) (evs : List (Event P F)) → Conserved a t → Conserved a (run t evs)
  unfolding run
  run-Conserved a t [] v = v
  run-Conserved a t (ev ∷ evs) v = run-Conserved a (step t ev) evs (step-Conserved a t ev v)

  launched-Conserved :
      (a : P) (cfg : SchedulerConfig) (n : ℤ) (f : F) → Conserved a (launched cfg n f)
  unfolding launched
  launched-Conserved a cfg n f = omega (arith, held-spawned F a (pos_part n))

  -- From the start of a scheduler, whatever the threads do and in whatever order: a payload that
  -- was admitted waits before the push, or is in the queue, or is with a runner, or was answered,
  -- or was dropped because the queue was broken, and is counted there as often as it was admitted.
  pub run-launched-Conserved :
      (a : P) (cfg : SchedulerConfig) (n : ℤ) (f : F) (evs : List (Event P F))
      → Conserved a (run (launched cfg n f) evs)
  run-launched-Conserved a cfg n f evs =
      run-Conserved a (launched cfg n f) evs (launched-Conserved a cfg n f)

  held-all_exited : (a : P) (rs : List (Runner P F)) → all_exited rs ≡ true → held a rs ≡ 0
  held-all_exited a [] h = refl
  held-all_exited a (exited ∷ rs) h = omega (arith, held-all_exited a rs h)
  held-all_exited a (testing ∷ rs) h = absurd (cc)
  held-all_exited a (popping ∷ rs) h = absurd (cc)
  held-all_exited a (ready p ∷ rs) h = absurd (cc)
  held-all_exited a (calling p f ∷ rs) h = absurd (cc)

  -- Whatever the threads do and in whatever order, no payload is answered more often than it was
  -- admitted.
  pub answered_once :
      (a : P) (cfg : SchedulerConfig) (n : ℤ) (f : F) (evs : List (Event P F))
      → let t = run (launched cfg n f) evs in answered a t.completions ≤ count a t.admitted
  answered_once a cfg n f evs = let v = run-launched-Conserved a cfg n f evs in omega arith

  -- Once no caller stands before the push, the queue is empty and the runners have left their loops,
  -- each admission of a payload was answered or was dropped by the broken queue.
  pub drained_answers :
      (a : P) (cfg : SchedulerConfig) (n : ℤ) (f : F) (evs : List (Event P F))
      → (run (launched cfg n f) evs).pending ≡ []
      → (run (launched cfg n f) evs).scheduler.queue.buffer ≡ []
      → all_exited (run (launched cfg n f) evs).scheduler.threads ≡ true
      → let t = run (launched cfg n f) evs in
        count a t.admitted ≡ answered a t.completions + count a t.dropped
  drained_answers a cfg n f evs hp hb hx =
      let t = run (launched cfg n f) evs in
      omega (
        arith,
        run-launched-Conserved a cfg n f evs,
        ap (count a) hp,
        ap (count a) hb,
        held-all_exited a t.scheduler.threads hx,
      )
