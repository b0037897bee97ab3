-- ===== src/Server/Onward.antt =====
-- What a runner of a loaded model (src/core/scheduler/simple_scheduler.cc) does next, in the server put
-- together.
use model_inference_server.Common.{
  ℕ, zero, suc, ◌≤◌, ◌≡◌, refl, ap, ◌≢◌, Option, none, some, List, [], ◌∷◌, arith, get_elem?, set,
  String, nat_key, string_key, nat_eq_iff,
}
use mathlib.Core.Option.{get_or}
use model_inference_server.Common.Dict
use model_inference_server.Common.Dict.{Dict, find-put}
use model_inference_server.Outcome.{Outcome, returns, throws}
use model_inference_server.Status.{Status, success}
use model_inference_server.Proto.{InferResponse, InferRequest}
use model_inference_server.Payload.{InferencePayload}
use model_inference_server.InferContext.{GrpcInferRequestContext}
use model_inference_server.Queue.{pop}
use model_inference_server.Scheduler.{
  SimpleScheduler, Runner, testing, popping, ready, calling, exited, Completion, completion,
  process_step,
}
use model_inference_server.Manager.{ModelRunContext}
use model_inference_server.Handler.{HandlerState, times}
use model_inference_server.Server.{
  Server, with_map, moved, delivered, deliver_to, deliver, Reach, goes, runner_steps,
}
use model_inference_server.Server.Opened.{IsOpen, exits, exits-cons, AllOpen-find}
use model_inference_server.Server.Steps.{Reach-Inv}
use model_inference_server.Server.Delivery.{of_model}
use model_inference_server.Server.Answers.{completion_refuses}
use model_inference_server.Server.Lost.{Later, now, after}

-- Completing a payload does not depend on the models that are loaded.
delivered-with_map :
    (s s' : Server) (m : Dict String (ModelRunContext ℕ)) (tag : ℕ)
    (r : (GrpcInferRequestContext ℕ × InferResponse) × Outcome ℕ)
    → delivered s tag r ≡ some s'
    → delivered (with_map s m) tag r ≡ some (with_map s' m)
delivered-with_map s s' m tag ((ctx, response), throws e) h = absurd (cc h)
delivered-with_map s s' m tag ((ctx, response), returns state) h =
    ap (λ o. some (with_map (get_or o s) m)) h

deliver_to-with_map :
    (s s' : Server) (m : Dict String (ModelRunContext ℕ)) (c : Completion ℕ)
    (payload : InferencePayload ℕ) (ctx : Option (GrpcInferRequestContext ℕ))
    (state : Option (HandlerState InferRequest InferResponse))
    → deliver_to s c payload ctx state ≡ some s'
    → deliver_to (with_map s m) c payload ctx state ≡ some (with_map s' m)
deliver_to-with_map s s' m c payload none state h = absurd (cc h)
deliver_to-with_map s s' m c payload (some ctx) none h = absurd (cc h)
deliver_to-with_map s s' m c payload (some ctx) (some state) h =
    delivered-with_map s s' m c.payload _ h

deliver-with_map :
    (s s' : Server) (m : Dict String (ModelRunContext ℕ)) (c : Completion ℕ)
    (payload : InferencePayload ℕ)
    → deliver s c payload ≡ some s'
    → deliver (with_map s m) c payload ≡ some (with_map s' m)
unfolding deliver
deliver-with_map s s' m c payload h = deliver_to-with_map s s' m c payload _ _ h

get_elem?-set :
    (rs : List (Runner ℕ ℕ)) (i : ℕ) (r r' : Runner ℕ ℕ)
    → get_elem? rs i ≡ some r
    → get_elem? (set rs i r') i ≡ some r'
get_elem?-set [] i r r' h = absurd (cc h)
get_elem?-set (x ∷ xs) zero r r' h = refl
get_elem?-set (x ∷ xs) (suc i) r r' h = get_elem?-set xs i r r' h

pub exits-at : (rs : List (Runner ℕ ℕ)) (i : ℕ) → get_elem? rs i ≡ some exited → 1 ≤ exits rs
exits-at [] i h = absurd (cc h)
exits-at (testing ∷ rs) zero h = absurd (cc h)
exits-at (popping ∷ rs) zero h = absurd (cc h)
exits-at (ready p ∷ rs) zero h = absurd (cc h)
exits-at (calling p f ∷ rs) zero h = absurd (cc h)
exits-at (exited ∷ rs) zero h = omega arith
exits-at (r ∷ rs) (suc i) h = omega (arith, exits-cons r rs, exits-at rs i h)

pub Later-trans : {s s' s'' : Server} → Later s s' → Later s' s'' → Later s s''
Later-trans l now = l
Later-trans l (after t t' m st) = after t t' (Later-trans l m) st

-- A state that can be reached, in which the i-th runner of the model stands at `r` before that queue.
pub record At (s : Server) (name : String) (i : ℕ) (r : Runner ℕ ℕ) (buffer : List ℕ) : Type 0 where
  pub reach : Reach s
  pub model : ModelRunContext ℕ
  pub found : Dict.find name s.core.model_manager.model_map ≡ some model
  pub runner : get_elem? model.scheduler.threads i ≡ some r
  pub queued : model.scheduler.queue.buffer ≡ buffer

abbrev pub Onward : Server → String → ℕ → Runner ℕ ℕ → List ℕ → Type 0
Onward s name i r buffer = (s' : Server) × Later s s' × At s' name i r buffer

module _ (name : String) (i : ℕ) where
  find-put_same :
      (m : Dict String (ModelRunContext ℕ)) (model : ModelRunContext ℕ)
      → Dict.find name (Dict.put name model m) ≡ some model
  find-put_same m model = ground (arith, find-put name name model m, string_key.same_iff name name)

  pub opened :
      (s : Server) (r : Runner ℕ ℕ) (b : List ℕ) (a : At s name i r b) → IsOpen a.model.scheduler
  opened s r b a =
      AllOpen-find s.core.model_manager.model_map name a.model (Reach-Inv a.reach).opened a.found

  -- A step that completes nothing.
  moves :
      (s : Server) (r r' : Runner ℕ ℕ) (b b' : List ℕ) (a : At s name i r b)
      (after : SimpleScheduler ℕ ℕ) (payload : InferencePayload ℕ)
      → process_step a.model.scheduler r success ≡ some (after, r', none)
      → after.queue.buffer ≡ b'
      → after.threads ≡ a.model.scheduler.threads
      → Onward s name i r' b'
  moves s r r' b b' a sched payload e q t =
      let model' = record a.model { scheduler = moved sched i r' } in
      let m = Dict.put name model' s.core.model_manager.model_map in
      let st =
        runner_steps s (with_map s m) name a.model i r success sched r' none payload a.found
          a.runner e refl in
      (
        with_map s m,
        after s (with_map s m) now st,
        record {
          reach = goes s (with_map s m) a.reach st;
          model = model';
          found = find-put_same s.core.model_manager.model_map model';
          runner = get_elem?-set sched.threads i r r' (rw t a.runner);
          queued = q;
        },
      )

  pub tests :
      (s : Server) (b : List ℕ) (payload : InferencePayload ℕ)
      → At s name i testing b
      → Onward s name i popping b
  unfolding process_step
  tests s b payload a =
      let (open_queue, running, none_left) = opened s testing b a in
      moves s testing popping b b a a.model.scheduler payload (rw running refl) a.queued refl

  pub pops :
      (s : Server) (p : ℕ) (b : List ℕ) (payload : InferencePayload ℕ)
      → At s name i popping (p ∷ b)
      → Onward s name i (ready p) b
  unfolding process_step pop
  pops s p b payload a =
      let (open_queue, running, none_left) = opened s popping (p ∷ b) a in
      let sched = a.model.scheduler in
      moves s popping (ready p) (p ∷ b) b a
        (record sched { queue = record sched.queue { buffer = b } }) payload
        (rw (open_queue, a.queued) refl) refl refl

  pub takes :
      (s : Server) (p : ℕ) (b : List ℕ) (payload : InferencePayload ℕ)
      → At s name i (ready p) b
      → (f : ℕ) × Onward s name i (calling p f) b
  unfolding process_step
  takes s p b payload a =
      let f = a.model.scheduler.infer_func in
      (f, moves s (ready p) (calling p f) b b a a.model.scheduler payload refl a.queued refl)

  module _ (status : Status) (bad : status ≢ success) (payload : InferencePayload ℕ) where
    -- The call ends with the status, and the RPC is answered.
    pub calls :
        (s : Server) (p f : ℕ) (b : List ℕ)
        → At s name i (calling p f) b
        → (s' : Server) × Later s s' × At s' name i testing b × (1 ≤ times p s'.handler.finished)
    unfolding process_step completion
    calls s p f b a =
        let sched = a.model.scheduler in
        let model' = record a.model { scheduler = moved sched i testing } in
        let m = Dict.put name model' s.core.model_manager.model_map in
        let c = completion p status in
        let (done, e, logged) =
          completion_refuses s sched sched i (calling p f) testing status c payload a.reach
            (of_model name a.model a.found refl) a.runner refl bad in
        let s' = with_map done m in
        let st =
          runner_steps s s' name a.model i (calling p f) status sched testing (some c) payload
            a.found a.runner refl (deliver-with_map s done m c payload e) in
        (
          s',
          after s s' now st,
          record {
            reach = goes s s' a.reach st;
            model = model';
            found = find-put_same s.core.model_manager.model_map model';
            runner = get_elem?-set sched.threads i (calling p f) testing a.runner;
            queued = a.queued;
          },
          rw logged (ground (arith, nat_eq_iff p p)),
        )
