-- ===== src/Queue.antt =====
-- BlockingQueue of src/core/scheduler/simple_scheduler.h. A call that has to wait is none: the caller
-- sleeps on its condition variable until its test holds, and the queue is untouched. The queue's
-- mutex makes each call one step. Where the code returns a default T, a null pointer, `pop` has
-- none for the item. The overloads push(T &&) and pop(T &) do the same as the two below.
pub mod Fifo
pub mod Broken
use model_inference_server.Common.{
  ℕ, Bool, true, false, ◌||◌, Option, none, some, List, [], ◌∷◌, ◌++◌, length, ltb, if◌then◌else◌,
}

pub record BlockingQueue (T : Type 0) : Type 0 where
  pub buffer : List T
  pub broken : Bool
  pub capacity : ℕ

module _ {T : Type 0} where
  unfoldable pub new_queue : ℕ → BlockingQueue T
  new_queue capacity = record { buffer = []; broken = false; capacity = capacity }

  -- push_back, unless the queue is broken
  append_item : BlockingQueue T → T → BlockingQueue T
  append_item q item = if q.broken then q else record q { buffer = q.buffer ++ item ∷ [] }

  unfoldable pub push : BlockingQueue T → T → Option (BlockingQueue T)
  unfolding append_item
  push q item =
      if q.broken || ltb (length q.buffer) q.capacity then some (append_item q item) else none

  -- front and pop_front
  take_front : BlockingQueue T → List T → Option (BlockingQueue T × Option T)
  take_front q [] = none
  take_front q (item ∷ rest) = some (record q { buffer = rest }, some item)

  unfoldable pub pop : BlockingQueue T → Option (BlockingQueue T × Option T)
  unfolding take_front
  pop q = if q.broken then some (q, none) else take_front q q.buffer

  unfoldable pub size : BlockingQueue T → ℕ
  size q = length q.buffer

  unfoldable pub break_all : BlockingQueue T → BlockingQueue T
  break_all q = record q { broken = true }
