-- ===== src/Scheduler/Exit.antt =====
-- Once SimpleScheduler::Stop (src/core/scheduler/simple_scheduler.cc) has lowered the flag and broken
-- the queue, its runners leave ProcessLoop.
use model_inference_server.Common.{
  ℕ, zero, suc, ◌+◌, ◌*◌, ◌≤◌, ◌<◌, ◌≡◌, refl, ◌≢◌, ◌⊎◌, inl, inr, ap, ◌∙◌, true, false, Option,
  none, some, List, [], ◌∷◌, arith, get_elem?, set, length,
}
use model_inference_server.Status.{Status}
use model_inference_server.Queue.{pop}
use model_inference_server.Scheduler.{
  Runner, testing, popping, ready, calling, exited, StopPhase, not_called, depleting, halted,
  joining, returned, process_step, stop_step, update_backend_infer_func, all_exited,
}
use model_inference_server.Scheduler.System.{
  System, Event, enqueue_tests, enqueue_pushes, runner_steps, stop_steps, func_updated, step, run,
}
use model_inference_server.Scheduler.Shutdown.{runner_keeps, tests_keeps, pushes_keeps}

module _ {P F : Type 0} where
  -- The steps that a runner still makes once the flag is down and the queue broken.
  abbrev pub rank : Runner P F → ℕ
  rank testing = 1
  rank popping = 2
  rank (ready p) = 3
  rank (calling p f) = 2
  rank exited = 0

  abbrev pub ranks : List (Runner P F) → ℕ
  ranks [] = 0
  ranks (r ∷ rs) = rank r + ranks rs

  ranks-set :
      (rs : List (Runner P F)) (i : ℕ) (r r' : Runner P F)
      → get_elem? rs i ≡ some r
      → ranks (set rs i r') + rank r ≡ ranks rs + rank r'
  ranks-set [] i r r' h = absurd (cc)
  ranks-set (x ∷ xs) zero r r' h = ground arith
  ranks-set (x ∷ xs) (suc i) r r' h = omega (arith, ranks-set xs i r r' h)

  ranks-le : (rs : List (Runner P F)) → ranks rs ≤ 3 * length rs
  ranks-le [] = omega arith
  ranks-le (r ∷ rs) = ground (arith, ranks-le rs)

  runner-rank :
      (t : System P F) (i : ℕ) (status : Status) (r : Runner P F)
      → t.scheduler.running ≡ false
      → t.scheduler.queue.broken ≡ true
      → get_elem? t.scheduler.threads i ≡ some r
      → r ≢ exited
      → ranks (step t (runner_steps i status)).scheduler.threads < ranks t.scheduler.threads
  unfolding step process_step pop
  runner-rank t i status testing d b h ne =
      ground (arith, ranks-set t.scheduler.threads i testing exited h)
  runner-rank t i status popping d b h ne =
      ground (arith, ranks-set t.scheduler.threads i popping testing h)
  runner-rank t i status (ready p) d b h ne =
      ground (arith, ranks-set t.scheduler.threads i (ready p) (calling p t.scheduler.infer_func) h)
  runner-rank t i status (calling p f) d b h ne =
      ground (arith, ranks-set t.scheduler.threads i (calling p f) testing h)
  runner-rank t i status exited d b h ne = absurd (ne refl)

  runner-rank_le :
      (t : System P F) (i : ℕ) (status : Status) (o : Option (Runner P F))
      → t.scheduler.running ≡ false
      → t.scheduler.queue.broken ≡ true
      → get_elem? t.scheduler.threads i ≡ o
      → ranks (step t (runner_steps i status)).scheduler.threads ≤ ranks t.scheduler.threads
  runner-rank_le t i status none d b h = unfold step in ground arith
  runner-rank_le t i status (some exited) d b h = unfold step process_step in ground arith
  runner-rank_le t i status (some testing) d b h =
      omega (arith, runner-rank t i status testing d b h (λ e. cc))
  runner-rank_le t i status (some popping) d b h =
      omega (arith, runner-rank t i status popping d b h (λ e. cc))
  runner-rank_le t i status (some (ready p)) d b h =
      omega (arith, runner-rank t i status (ready p) d b h (λ e. cc))
  runner-rank_le t i status (some (calling p f)) d b h =
      omega (arith, runner-rank t i status (calling p f) d b h (λ e. cc))

  active :
      (rs : List (Runner P F))
      → (all_exited rs ≡ true)
        ⊎ ((i : ℕ) × (r : Runner P F) × (get_elem? rs i ≡ some r) × (r ≢ exited))
  active [] = inl refl
  active (exited ∷ rs) = elim (active rs) [
    | inl done ↦ inl done
    | inr (i, r, g, ne) ↦ inr (suc i, r, g, ne)
  ]
  active (testing ∷ rs) = inr (0, testing, refl, λ e. cc)
  active (popping ∷ rs) = inr (0, popping, refl, λ e. cc)
  active (ready p ∷ rs) = inr (0, ready p, refl, λ e. cc)
  active (calling p f ∷ rs) = inr (0, calling p f, refl, λ e. cc)

  stop-threads_at :
      (t : System P F) (toc : ℕ) (ph : StopPhase)
      → t.stop ≡ ph
      → (step t (stop_steps toc)).scheduler.threads ≡ t.scheduler.threads
  unfolding step stop_step
  stop-threads_at t toc not_called e = ground arith
  stop-threads_at t toc depleting e = ground arith
  stop-threads_at t toc halted e = ground arith
  stop-threads_at t toc joining e = ground arith
  stop-threads_at t toc (returned s) e = ground arith

  stop-threads :
      (t : System P F) (toc : ℕ) → (step t (stop_steps toc)).scheduler.threads ≡ t.scheduler.threads
  stop-threads t toc = stop-threads_at t toc t.stop refl

  func-threads :
      (t : System P F) (f : F) → (step t (func_updated f)).scheduler.threads ≡ t.scheduler.threads
  unfolding step update_backend_infer_func
  func-threads t f = refl

  exit_within :
      (fuel : ℕ) (t : System P F) (status : Status)
      → t.scheduler.running ≡ false
      → t.scheduler.queue.broken ≡ true
      → ranks t.scheduler.threads ≤ fuel
      → (evs : List (Event P F)) × (all_exited (run t evs).scheduler.threads ≡ true)
        × (length evs ≤ fuel)
  unfolding run
  exit_within zero t status d b h = elim (active t.scheduler.threads) [
    | inl out ↦ ([], out, omega arith)
    | inr (i, r, g, ne) ↦ absurd (omega (arith, runner-rank t i status r d b g ne))
  ]
  exit_within (suc fuel) t status d b h = elim (active t.scheduler.threads) [
    | inl out ↦ ([], out, omega arith)
    | inr (i, r, g, ne) ↦
        let kept =
          runner_keeps t i status (get_elem? t.scheduler.threads i) t.scheduler.queue.buffer refl
            refl in
        let (evs, out, few) =
          exit_within fuel (step t (runner_steps i status)) status (kept.1 ∙ d) (kept.2 ∙ b)
            (omega (arith, runner-rank t i status r d b g ne)) in
        (runner_steps i status ∷ evs, out, omega arith)
  ]

  -- With the flag down and the queue broken, no event gives a
  -- runner more steps to make, and a step of a runner that is not out yet takes one away.
  pub step-ranks :
      (t : System P F) (ev : Event P F) (i : ℕ) (status : Status) (r : Runner P F)
      → t.scheduler.running ≡ false
      → t.scheduler.queue.broken ≡ true
      → get_elem? t.scheduler.threads i ≡ some r
      → r ≢ exited
      → (ranks (step t ev).scheduler.threads ≤ ranks t.scheduler.threads)
        × (ranks (step t (runner_steps i status)).scheduler.threads < ranks t.scheduler.threads)
  step-ranks t ev i status r d b g ne = (any ev, runner-rank t i status r d b g ne)
    where
      any : (ev : Event P F) → ranks (step t ev).scheduler.threads ≤ ranks t.scheduler.threads
      any (enqueue_tests p) = omega (arith, ap (λ s. ranks s.threads) (tests_keeps t p).1)
      any (enqueue_pushes i) =
          omega (arith, ap ranks (pushes_keeps t i (get_elem? t.pending i) refl).3)
      any (runner_steps i status) =
          runner-rank_le t i status (get_elem? t.scheduler.threads i) d b refl
      any (stop_steps toc) = omega (arith, ap ranks (stop-threads t toc))
      any (func_updated f) = omega (arith, ap ranks (func-threads t f))

  -- The runners can always leave: some schedule of at most three steps for each runner, whatever the
  -- calls in progress return, ends with every one of them out, so that Stop's joins return.
  pub runners_exit :
      (t : System P F) (status : Status)
      → t.scheduler.running ≡ false
      → t.scheduler.queue.broken ≡ true
      → (evs : List (Event P F)) × (all_exited (run t evs).scheduler.threads ≡ true)
        × (length evs ≤ 3 * length t.scheduler.threads)
  runners_exit t status d b =
      let (evs, out, few) = exit_within (ranks t.scheduler.threads) t status d b (omega arith) in
      (evs, out, omega (arith, ranks-le t.scheduler.threads))
