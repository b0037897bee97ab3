-- ===== src/Server/Places.antt =====
-- Where payloads are: in the queues of the schedulers (src/core/scheduler/simple_scheduler.cc) and with
-- their runners.
use model_inference_server.Common.{
  false, ℕ, zero, suc, ◌+◌, ◌≡◌, refl, Option, none, some, List, [], ◌∷◌, ◌++◌, arith, get_elem?,
  set, remove_at, String, count, occurs, count-append, nat_key, string_key, if◌then◌else◌,
}
use model_inference_server.Common.Dict
use model_inference_server.Common.Dict.{Dict}
use model_inference_server.Status.{Status, is_success}
use model_inference_server.Queue.{push, pop, break_all}
use model_inference_server.Scheduler.{
  SimpleScheduler, Runner, testing, popping, ready, calling, exited, Completion, StopPhase,
  completion, process_step, stop_step, enqueue,
}
use model_inference_server.Scheduler.Delivery.{held, held-set}
use model_inference_server.Manager.{ModelRunContext}
use model_inference_server.Server.{Server, moved, in_hands, payloads}

-- How often a scheduler has a payload.
abbrev pub in_scheduler : ℕ → SimpleScheduler ℕ ℕ → ℕ
in_scheduler a s = count a s.queue.buffer + held a s.threads

abbrev pub in_map : ℕ → Dict String (ModelRunContext ℕ) → ℕ
in_map a [] = 0
in_map a ((name, ctx) ∷ m) = in_scheduler a ctx.scheduler + in_map a m

abbrev pub in_retiring : ℕ → List (SimpleScheduler ℕ ℕ × StopPhase) → ℕ
in_retiring a [] = 0
in_retiring a ((s, phase) ∷ ss) = in_scheduler a s + in_retiring a ss

-- How often all of them have it.
abbrev pub places : ℕ → Server → ℕ
places a s = in_map a s.core.model_manager.model_map + in_retiring a s.retiring

abbrev pub completes : ℕ → Option (Completion ℕ) → ℕ
completes a none = 0
completes a (some c) = occurs a c.payload

module _ (a : ℕ) where
  pub in_map-put :
      (m : Dict String (ModelRunContext ℕ)) (name : String) (ctx ctx' : ModelRunContext ℕ)
      → Dict.find name m ≡ some ctx
      → in_map a (Dict.put name ctx' m) + in_scheduler a ctx.scheduler
        ≡ in_map a m + in_scheduler a ctx'.scheduler
  in_map-put [] name ctx ctx' h = absurd (cc h)
  in_map-put ((n, c) ∷ m) name ctx ctx' h = ground (arith, in_map-put m name ctx ctx')

  pub in_map-insert :
      (m : Dict String (ModelRunContext ℕ)) (name : String) (ctx : ModelRunContext ℕ)
      → Dict.find name m ≡ none
      → in_map a (Dict.insert name ctx m) ≡ in_map a m + in_scheduler a ctx.scheduler
  in_map-insert [] name ctx h = omega arith
  in_map-insert ((n, c) ∷ m) name ctx h = ground (arith, in_map-insert m name ctx)

  pub in_map-erase :
      (m : Dict String (ModelRunContext ℕ)) (name : String) (ctx : ModelRunContext ℕ)
      → Dict.find name m ≡ some ctx
      → in_map a (Dict.erase name m) + in_scheduler a ctx.scheduler ≡ in_map a m
  in_map-erase [] name ctx h = absurd (cc h)
  in_map-erase ((n, c) ∷ m) name ctx h = ground (arith, in_map-erase m name ctx)

  pub in_retiring-append :
      (ss ts : List (SimpleScheduler ℕ ℕ × StopPhase))
      → in_retiring a (ss ++ ts) ≡ in_retiring a ss + in_retiring a ts
  in_retiring-append [] ts = omega arith
  in_retiring-append ((s, phase) ∷ ss) ts = omega (arith, in_retiring-append ss ts)

  pub in_retiring-set :
      (ss : List (SimpleScheduler ℕ ℕ × StopPhase)) (j : ℕ) (s s' : SimpleScheduler ℕ ℕ)
      (phase phase' : StopPhase)
      → get_elem? ss j ≡ some (s, phase)
      → in_retiring a (set ss j (s', phase')) + in_scheduler a s
        ≡ in_retiring a ss + in_scheduler a s'
  in_retiring-set [] j s s' phase phase' h = absurd (cc h)
  in_retiring-set ((t, p) ∷ ss) zero s s' phase phase' h = ground arith
  in_retiring-set ((t, p) ∷ ss) (suc j) s s' phase phase' h =
      omega (arith, in_retiring-set ss j s s' phase phase' h)

  pub in_retiring-remove_at :
      (ss : List (SimpleScheduler ℕ ℕ × StopPhase)) (j : ℕ) (s : SimpleScheduler ℕ ℕ)
      (phase : StopPhase)
      → get_elem? ss j ≡ some (s, phase)
      → in_retiring a (remove_at ss j) + in_scheduler a s ≡ in_retiring a ss
  in_retiring-remove_at [] j s phase h = absurd (cc h)
  in_retiring-remove_at ((t, p) ∷ ss) zero s phase h = ground (arith, h)
  in_retiring-remove_at ((t, p) ∷ ss) (suc j) s phase h =
      omega (arith, in_retiring-remove_at ss j s phase h)

  count-in_hands : (rs : List (Runner ℕ ℕ)) → count a (in_hands rs) ≡ held a rs
  count-in_hands [] = refl
  count-in_hands (testing ∷ rs) = omega (arith, count-in_hands rs)
  count-in_hands (popping ∷ rs) = omega (arith, count-in_hands rs)
  count-in_hands (ready p ∷ rs) = omega (arith, count-in_hands rs)
  count-in_hands (calling p f ∷ rs) = omega (arith, count-in_hands rs)
  count-in_hands (exited ∷ rs) = omega (arith, count-in_hands rs)

  pub count-payloads : (s : SimpleScheduler ℕ ℕ) → count a (payloads s) ≡ in_scheduler a s
  count-payloads s =
      omega (arith, count-append a s.queue.buffer (in_hands s.threads), count-in_hands s.threads)

  -- A step of a runner moves its payload, and drops it only to complete it.
  pub in_scheduler-process_step :
      (s after : SimpleScheduler ℕ ℕ) (i : ℕ) (r r' : Runner ℕ ℕ) (status : Status)
      (c : Option (Completion ℕ)) (b : List ℕ)
      → get_elem? s.threads i ≡ some r
      → s.queue.buffer ≡ b
      → process_step s r status ≡ some (after, r', c)
      → in_scheduler a (moved after i r') + completes a c ≡ in_scheduler a s
  unfolding process_step pop completion
  in_scheduler-process_step s after i testing r' status c b h hb e =
      ground (arith, held-set a s.threads i testing r' h)
  in_scheduler-process_step s after i popping r' status c [] h hb e =
      ground (arith, held-set a s.threads i popping r' h)
  in_scheduler-process_step s after i popping r' status c (p ∷ ps) h hb e =
      ground (arith, held-set a s.threads i popping r' h)
  in_scheduler-process_step s after i (ready p) r' status c b h hb e =
      ground (arith, held-set a s.threads i (ready p) r' h)
  in_scheduler-process_step s after i (calling p f) r' status c b h hb e =
      ground (arith, held-set a s.threads i (calling p f) r' h)
  in_scheduler-process_step s after i exited r' status c b h hb e = absurd (cc e)

  pub in_scheduler-stop_step :
      (s after : SimpleScheduler ℕ ℕ) (phase phase' : StopPhase) (toc : ℕ)
      → stop_step s phase toc ≡ some (after, phase')
      → in_scheduler a after ≡ in_scheduler a s
  unfolding stop_step break_all
  in_scheduler-stop_step s after StopPhase.not_called phase' toc e = ground arith
  in_scheduler-stop_step s after StopPhase.depleting phase' toc e = ground arith
  in_scheduler-stop_step s after StopPhase.halted phase' toc e = ground arith
  in_scheduler-stop_step s after StopPhase.joining phase' toc e = ground arith
  in_scheduler-stop_step s after (StopPhase.returned status) phase' toc e = ground arith

  -- Enqueue adds the payload exactly with Success, if the queue is not broken.
  pub in_scheduler-enqueue :
      (s after : SimpleScheduler ℕ ℕ) (p : ℕ) (status : Status)
      → s.queue.broken ≡ false
      → enqueue s p ≡ some (after, status)
      → in_scheduler a after ≡ in_scheduler a s + (if is_success status then occurs a p else 0)
  unfolding enqueue push
  in_scheduler-enqueue s after p status o e =
      ground (arith, o, count-append a s.queue.buffer (p ∷ []))
