-- ===== src/Queue/Fifo.antt =====
-- BlockingQueue (src/core/scheduler/simple_scheduler.h) refines a first-in first-out queue of bounded
-- length, under any interleaving of its callers.
use mathlib.Core.List.{append_assoc}
use model_inference_server.Common.{
  ℕ, ◌≤◌, ◌≡◌, refl, Option, none, some, List, [], ◌∷◌, ◌++◌, length, length-append, arith,
  if◌then◌else◌,
}
use model_inference_server.Queue.{BlockingQueue, new_queue, push, pop, break_all}

-- A call that some thread makes on the queue.
pub data Call (T : Type 0) : Type 0 where
  pushes : T → Call T
  pops : Call T
  breaks : Call T

-- The queue with what its callers have seen: the items that went in and those that came out.
pub record History (T : Type 0) : Type 0 where
  pub queue : BlockingQueue T
  pub accepted : List T
  pub taken : List T

module _ {T : Type 0} where
  -- An item is accepted unless the queue was broken.
  after_push : History T → T → Option (BlockingQueue T) → History T
  after_push h item none = h
  after_push h item (some q) = record h {
    queue = q;
    accepted = if q.broken then h.accepted else h.accepted ++ item ∷ [];
  }

  after_pop : History T → Option (BlockingQueue T × Option T) → History T
  after_pop h none = h
  after_pop h (some (q, none)) = record h { queue = q }
  after_pop h (some (q, some item)) = record h { queue = q; taken = h.taken ++ item ∷ [] }

  -- One call; a call that has to wait changes nothing yet.
  unfoldable pub step : History T → Call T → History T
  unfolding after_push after_pop
  step h (pushes item) = after_push h item (push h.queue item)
  step h pops = after_pop h (pop h.queue)
  step h breaks = record h { queue = break_all h.queue }

  unfoldable pub run : History T → List (Call T) → History T
  run h [] = h
  run h (c ∷ cs) = run (step h c) cs

  pub start : ℕ → History T
  start capacity = record { queue = new_queue capacity; accepted = []; taken = [] }

  -- What holds between two calls.
  pub record Inv (capacity : ℕ) (h : History T) : Type 0 where
    pub fixed : h.queue.capacity ≡ capacity
    pub bounded : length h.queue.buffer ≤ capacity
    pub order : h.accepted ≡ h.taken ++ h.queue.buffer

  push-Inv : (n : ℕ) (h : History T) (item : T) → Inv n h → Inv n (step h (pushes item))
  unfolding step push
  push-Inv n h item v = ground (
    arith,
    length-append h.queue.buffer (item ∷ []),
    append_assoc h.taken h.queue.buffer (item ∷ []),
  )

  pop-Inv :
      (n : ℕ) (h : History T) (b : List T) → h.queue.buffer ≡ b → Inv n h → Inv n (step h pops)
  unfolding step pop
  pop-Inv n h [] e v = ground arith
  pop-Inv n h (x ∷ xs) e v = ground (arith, append_assoc h.taken (x ∷ []) xs)

  step-Inv : (n : ℕ) (h : History T) (c : Call T) → Inv n h → Inv n (step h c)
  step-Inv n h (pushes item) v = push-Inv n h item v
  step-Inv n h pops v = pop-Inv n h h.queue.buffer refl v
  step-Inv n h breaks v =
      unfold step break_all in record { fixed = v.fixed; bounded = v.bounded; order = v.order }

  run-Inv : (n : ℕ) (h : History T) (cs : List (Call T)) → Inv n h → Inv n (run h cs)
  unfolding run
  run-Inv n h [] v = v
  run-Inv n h (c ∷ cs) v = run-Inv n (step h c) cs (step-Inv n h c v)

  -- Whatever the calls and their order, from a new queue: the items that went in are the items that
  -- came out followed by those still in the buffer, each list in order, and the buffer never holds
  -- more than the capacity.
  pub run-start-Inv : (n : ℕ) (cs : List (Call T)) → Inv n (run (start n) cs)
  run-start-Inv n cs =
      run-Inv n (start n) cs
        (unfold start new_queue in record { fixed = refl; bounded = omega arith; order = refl })
