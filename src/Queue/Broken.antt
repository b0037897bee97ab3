-- ===== src/Queue/Broken.antt =====
-- When the callers of BlockingQueue (src/core/scheduler/simple_scheduler.h) wait, and what breakAll
-- leaves behind.
use model_inference_server.Common.{
  ◌≤◌, ◌<◌, ◌≡◌, refl, ◌≢◌, ap, ◌↔◌, ◌⊎◌, ◌∙◌, inl, inr, true, false, none, some, List, [], ◌∷◌,
  length, arith,
}
use model_inference_server.Queue.{BlockingQueue, push, pop, break_all}
use model_inference_server.Queue.Fifo.{History, Call, pushes, pops, breaks, step, run}

module _ {T : Type 0} (q : BlockingQueue T) where
  -- A push waits exactly while the queue is whole and full.
  pub push-eq-none_iff :
      (item : T) → (push q item ≡ none) ↔ ((q.broken ≡ false) × (q.capacity ≤ length q.buffer))
  unfolding push
  push-eq-none_iff item = ground arith

  pop_cases : (b : List T) → q.buffer ≡ b → (pop q ≡ none) ↔ ((q.broken ≡ false) × (b ≡ []))
  unfolding pop
  pop_cases [] e = ground arith
  pop_cases (x ∷ xs) e = ground arith

  -- A pop waits exactly while the queue is whole and empty.
  pub pop-eq-none_iff : (pop q ≡ none) ↔ ((q.broken ≡ false) × (q.buffer ≡ []))
  pop-eq-none_iff = pop_cases q.buffer refl

  -- Producers and consumers never wait at the same time, if the queue has room for one item.
  pub push_or_pop : (item : T) → 0 < q.capacity → (push q item ≢ none) ⊎ (pop q ≢ none)
  push_or_pop item room = elim_cases q.buffer refl
    where
      elim_cases : (b : List T) → q.buffer ≡ b → (push q item ≢ none) ⊎ (pop q ≢ none)
      elim_cases [] e = inl (λ h. omega (arith, (push-eq-none_iff item).0 h, ap length e))
      elim_cases (x ∷ xs) e = inr (λ h. ground (arith, pop-eq-none_iff.0 h))

-- With no capacity every push waits until the queue is broken.
pub push_zero_capacity :
    {T : Type 0} (q : BlockingQueue T) (item : T)
    → q.capacity ≡ 0
    → q.broken ≡ false
    → push q item ≡ none
push_zero_capacity q item e b = (push-eq-none_iff q item).1 (b, omega arith)

module _ {T : Type 0} where
  step_broken : (h : History T) (c : Call T) → h.queue.broken ≡ true → step h c ≡ h
  unfolding step push pop break_all
  step_broken h (pushes item) b = ground arith
  step_broken h pops b = ground arith
  step_broken h breaks b = ground arith

  -- A broken queue stays as it is, whatever is called: nothing more goes in, and what is still in
  -- the buffer never comes out.
  pub run_broken : (h : History T) (cs : List (Call T)) → h.queue.broken ≡ true → run h cs ≡ h
  unfolding run
  run_broken h [] b = refl
  run_broken h (c ∷ cs) b = ap (λ k. run k cs) (step_broken h c b) ∙ run_broken h cs b

-- No caller waits on a broken queue: a push returns with the queue unchanged, and a pop returns a
-- null pointer.
pub broken_never_waits :
    {T : Type 0} (q : BlockingQueue T) (item : T)
    → q.broken ≡ true
    → (push q item ≡ some q) × (pop q ≡ some (q, none))
unfolding push pop
broken_never_waits q item b = ground arith
