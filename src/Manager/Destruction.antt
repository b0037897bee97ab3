-- ===== src/Manager/Destruction.antt =====
-- ~ModelRunContext (src/core/model_manager/model_manager.h): the members are destroyed from the last to the
-- first, the backend's info and then the scheduler, whose destructor calls Stop
-- (src/core/scheduler/simple_scheduler.cc), while the scheduler's runners go on.
use model_inference_server.Common.{
  ℕ, ◌≡◌, refl, ap, subst, ◌∙◌, ◌⊎◌, inl, inr, none, some, Option, List, [], ◌∷◌, String, arith,
  get_elem?, set, nat_key, string_key, nat_eq_iff,
}
use model_inference_server.Common.Dict
use model_inference_server.Common.Dict.{find-erase}
use model_inference_server.Status.{Status}
use model_inference_server.Queue.{pop, break_all}
use model_inference_server.Scheduler.{
  SimpleScheduler, Runner, testing, popping, ready, calling, exited, Completion, StopPhase,
  not_called, depleting, halted, joining, returned, process_step, stop_step,
}
use model_inference_server.Manager.{ModelRunContext, ModelManager, release_backend}
use model_inference_server.Manager.Cycle.{destroy_context}
use model_inference_server.Manager.Ownership.{Sound}

pub data Member : Type 0 where
  scheduler_member : Member
  backend_info_member : Member

-- A destruction that has come to the members `left`, in the order of their destruction.
pub record Destruction (P : Type 0) : Type 0 where
  pub manager : ModelManager P
  pub scheduler : SimpleScheduler P ℕ
  pub phase : StopPhase
  pub backend : ℕ
  pub left : List Member

-- The thread that destroys the context goes one step, with the timer's reading; a runner goes one step.
pub data Event : Type 0 where
  destroys : ℕ → Event
  runner_steps : ℕ → Status → Event

-- The scheduler is destroyed once its Stop has returned.
abbrev pub then_left : StopPhase → List Member → List Member
then_left (returned status) rest = rest
then_left phase rest = scheduler_member ∷ rest

module _ {P : Type 0} where
  unfoldable pub begin : ModelManager P → ModelRunContext P → Destruction P
  begin m ctx = record {
    manager = m;
    scheduler = ctx.scheduler;
    phase = not_called;
    backend = ctx.backend_info.backend;
    left = backend_info_member ∷ scheduler_member ∷ [];
  }

  abbrev pub stopped :
      Destruction P → List Member → Option (SimpleScheduler P ℕ × StopPhase) → Destruction P
  stopped d rest none = d
  stopped d rest (some (s, phase)) = record d {
    scheduler = s;
    phase = phase;
    left = then_left phase rest;
  }

  abbrev pub destroy_next : Destruction P → ℕ → List Member → Destruction P
  destroy_next d toc [] = d
  destroy_next d toc (backend_info_member ∷ rest) = record d {
    manager = release_backend d.manager d.backend;
    left = rest;
  }
  destroy_next d toc (scheduler_member ∷ rest) = stopped d rest (stop_step d.scheduler d.phase toc)

  abbrev pub ran :
      Destruction P
      → ℕ
      → Option (SimpleScheduler P ℕ × Runner P ℕ × Option (Completion P))
      → Destruction P
  ran d i none = d
  ran d i (some (s, r, c)) = record d { scheduler = record s { threads = set s.threads i r } }

  abbrev pub runs_at : Destruction P → ℕ → Status → Option (Runner P ℕ) → Destruction P
  runs_at d i status none = d
  runs_at d i status (some r) = ran d i (process_step d.scheduler r status)

  unfoldable pub destroy_step : Destruction P → Event → Destruction P
  destroy_step d (destroys toc) = destroy_next d toc d.left
  destroy_step d (runner_steps i status) = runs_at d i status (get_elem? d.scheduler.threads i)

  unfoldable pub destroy_run : Destruction P → List Event → Destruction P
  unfolding destroy_step
  destroy_run d [] = d
  destroy_run d (ev ∷ evs) = destroy_run (destroy_step d ev) evs

  -- The first step is what the manager's operations see of the destruction.
  pub destroy_context-first :
      (m : ModelManager P) (ctx : ModelRunContext P) (toc : ℕ)
      → (destroy_step (begin m ctx) (destroys toc)).manager ≡ destroy_context m ctx
  unfolding destroy_step begin destroy_context
  destroy_context-first m ctx toc = refl

  stop_step-infer_func :
      (s s' : SimpleScheduler P ℕ) (phase phase' : StopPhase) (toc : ℕ)
      → stop_step s phase toc ≡ some (s', phase')
      → s'.infer_func ≡ s.infer_func
  unfolding stop_step break_all
  stop_step-infer_func s s' not_called phase' toc e = ground (arith, e)
  stop_step-infer_func s s' depleting phase' toc e = ground (arith, e)
  stop_step-infer_func s s' halted phase' toc e = ground (arith, e)
  stop_step-infer_func s s' joining phase' toc e = ground (arith, e)
  stop_step-infer_func s s' (returned status) phase' toc e = absurd (cc e)

  process_step-infer_func :
      (s s' : SimpleScheduler P ℕ) (r r' : Runner P ℕ) (status : Status) (c : Option (Completion P))
      (b : List P)
      → s.queue.buffer ≡ b
      → process_step s r status ≡ some (s', r', c)
      → s'.infer_func ≡ s.infer_func
  unfolding process_step pop
  process_step-infer_func s s' testing r' status c b h e = ground (arith, e)
  process_step-infer_func s s' popping r' status c [] h e = ground (arith, e, h)
  process_step-infer_func s s' popping r' status c (p ∷ ps) h e = ground (arith, e, h)
  process_step-infer_func s s' (ready p) r' status c b h e = ground (arith, e)
  process_step-infer_func s s' (calling p f) r' status c b h e = ground (arith, e)
  process_step-infer_func s s' exited r' status c b h e = absurd (cc e)

  -- Before the first step of the destroying thread, and after it.
  abbrev Untouched : ModelManager P → Destruction P → Type 0
  Untouched m d =
      (d.phase ≡ not_called)
      × (d.manager ≡ m)
      × (d.left ≡ backend_info_member ∷ scheduler_member ∷ [])

  abbrev Gone : Destruction P → Type 0
  Gone d =
      (Dict.find d.backend d.manager.heap ≡ none)
      × ((d.left ≡ scheduler_member ∷ []) ⊎ (d.left ≡ []))

  abbrev Stage : ModelManager P → Destruction P → Type 0
  Stage m d = (d.scheduler.infer_func ≡ d.backend) × (Untouched m d ⊎ Gone d)

  stopped-Stage :
      (m : ModelManager P) (d : Destruction P) (toc : ℕ)
      (o : Option (SimpleScheduler P ℕ × StopPhase))
      → stop_step d.scheduler d.phase toc ≡ o
      → d.scheduler.infer_func ≡ d.backend
      → Dict.find d.backend d.manager.heap ≡ none
      → d.left ≡ scheduler_member ∷ []
      → Stage m (stopped d [] o)
  stopped-Stage m d toc none e f g l = (f, inr (g, inl l))
  stopped-Stage m d toc (some (s, returned status)) e f g l =
      (stop_step-infer_func d.scheduler s d.phase (returned status) toc e ∙ f, inr (g, inr refl))
  stopped-Stage m d toc (some (s, not_called)) e f g l =
      (stop_step-infer_func d.scheduler s d.phase not_called toc e ∙ f, inr (g, inl refl))
  stopped-Stage m d toc (some (s, depleting)) e f g l =
      (stop_step-infer_func d.scheduler s d.phase depleting toc e ∙ f, inr (g, inl refl))
  stopped-Stage m d toc (some (s, halted)) e f g l =
      (stop_step-infer_func d.scheduler s d.phase halted toc e ∙ f, inr (g, inl refl))
  stopped-Stage m d toc (some (s, joining)) e f g l =
      (stop_step-infer_func d.scheduler s d.phase joining toc e ∙ f, inr (g, inl refl))

  ran-Stage :
      (m : ModelManager P) (d : Destruction P) (i : ℕ) (r : Runner P ℕ) (status : Status)
      (o : Option (SimpleScheduler P ℕ × Runner P ℕ × Option (Completion P)))
      → process_step d.scheduler r status ≡ o
      → Stage m d
      → Stage m (ran d i o)
  ran-Stage m d i r status none e v = v
  ran-Stage m d i r status (some (s, r', c)) e (f, st) =
      (process_step-infer_func d.scheduler s r r' status c d.scheduler.queue.buffer refl e ∙ f, st)

  runs_at-Stage :
      (m : ModelManager P) (d : Destruction P) (i : ℕ) (status : Status) (o : Option (Runner P ℕ))
      → Stage m d
      → Stage m (runs_at d i status o)
  runs_at-Stage m d i status none v = v
  runs_at-Stage m d i status (some r) v =
      ran-Stage m d i r status (process_step d.scheduler r status) refl v

  next-Stage :
      (m : ModelManager P) (d : Destruction P) (toc : ℕ) (left : List Member)
      → d.left ≡ left
      → Sound m
      → Stage m d
      → Stage m (destroy_next d toc left)
  next-Stage m d toc [] e v st = st
  next-Stage m d toc (backend_info_member ∷ rest) e v (f, inl (ph, em, l)) = (
    f,
    inr (
      rw em (
          find-erase d.backend d.backend m.heap v.heap_ok
          ∙ ground (arith, nat_eq_iff d.backend d.backend)),
      inl (cc (e, l)),
    ),
  )
  next-Stage m d toc (backend_info_member ∷ rest) e v (f, inr (g, inl l)) = absurd (cc (e, l))
  next-Stage m d toc (backend_info_member ∷ rest) e v (f, inr (g, inr l)) = absurd (cc (e, l))
  next-Stage m d toc (scheduler_member ∷ rest) e v (f, inl (ph, em, l)) = absurd (cc (e, l))
  next-Stage m d toc (scheduler_member ∷ rest) e v (f, inr (g, inl l)) =
      let none_left : [] ≡ rest = cc (e, l) in
      subst (λ r. Stage m (stopped d r (stop_step d.scheduler d.phase toc))) none_left
        (stopped-Stage m d toc (stop_step d.scheduler d.phase toc) refl f g l)
  next-Stage m d toc (scheduler_member ∷ rest) e v (f, inr (g, inr l)) = absurd (cc (e, l))

  step-Stage :
      (m : ModelManager P) (d : Destruction P) (ev : Event)
      → Sound m
      → Stage m d
      → Stage m (destroy_step d ev)
  unfolding destroy_step
  step-Stage m d (runner_steps i status) v st =
      runs_at-Stage m d i status (get_elem? d.scheduler.threads i) st
  step-Stage m d (destroys toc) v st = next-Stage m d toc d.left refl v st

  run-Stage :
      (m : ModelManager P) (d : Destruction P) (evs : List Event)
      → Sound m
      → Stage m d
      → Stage m (destroy_run d evs)
  unfolding destroy_run
  run-Stage m d [] v st = st
  run-Stage m d (ev ∷ evs) v st = run-Stage m (destroy_step d ev) evs v (step-Stage m d ev v st)

  cases_of :
      (m : ModelManager P) (d : Destruction P)
      → Stage m d
      → ((d.phase ≡ not_called) × (d.manager ≡ m))
        ⊎ (Dict.find d.scheduler.infer_func d.manager.heap ≡ none)
  cases_of m d (f, inl (ph, em, l)) = inl (ph, em)
  cases_of m d (f, inr (g, l)) = inr (ap (λ a. Dict.find a d.manager.heap) f ∙ g)

  -- However far the destruction of a loaded model's context has come, while the runners go on: either
  -- nothing was destroyed and the scheduler's Stop was not called, or the backend to which the
  -- scheduler's function is bound is gone. So it is gone when Stop begins to wait for the payloads that
  -- are queued, and whenever a runner takes the function from then on.
  pub destruction_dangles :
      (m : ModelManager P) (name : String) (ctx : ModelRunContext P) (evs : List Event)
      → Sound m
      → Dict.find name m.model_map ≡ some ctx
      → let d = destroy_run (begin m ctx) evs in
        ((d.phase ≡ not_called) × (d.manager ≡ m))
        ⊎ (Dict.find d.scheduler.infer_func d.manager.heap ≡ none)
  unfolding begin
  destruction_dangles m name ctx evs v h =
      cases_of m (destroy_run (begin m ctx) evs)
        (run-Stage m (begin m ctx) evs v ((v.owned name ctx h).bound, inl (refl, refl, refl)))
