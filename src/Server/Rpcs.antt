-- ===== src/Server/Rpcs.antt =====
-- The RPCs of the infer handler (src/core/server/grpc_server.cc) in the server put together.
use model_inference_server.Common.{
  ℕ, ◌≤◌, ◌≡◌, refl, ◌⊎◌, ◌∙◌, sym, some, none, get_elem?, count, nat_key, ap, subst, Option, true,
}
use model_inference_server.Common.Dict
use model_inference_server.Outcome.{Outcome, returns, throws}
use model_inference_server.Config.{ServerConfig}
use model_inference_server.Proto.{InferRequest, InferResponse}
use model_inference_server.Payload.{InferencePayload}
use model_inference_server.InferContext.{GrpcInferRequestContext, on_infer_completed}
use model_inference_server.InferContext.Callback.{on_infer_completed-returns}
use model_inference_server.InferContext.Delivery.{new_context-IsFresh}
use model_inference_server.Scheduler.{Completion, SimpleScheduler, Runner, process_step}
use model_inference_server.Status.{Status}
use model_inference_server.Manager.{World}
use model_inference_server.Core.{InferenceCore, new_core}
use model_inference_server.Core
use model_inference_server.Handler
use model_inference_server.Handler.{
  HandlerState, Handler, start, process, next, acted, completed, handle_events, times,
}
use model_inference_server.Handler.Rpc.{pending, ended, Orderly, InProcess}
use model_inference_server.Handler.Once.{settled}
use model_inference_server.Handler.Listening.{
  Listening, step-Listening, handle_events-Listening, queued,
}
use model_inference_server.Server.{
  Server, blank, started, delivered, deliver, finished, Step, handler_next, take_action,
  runner_steps, retiring_runner_steps, retiring_stops, retiring_ends, reloads, manager_stops, Reach,
  here, goes,
}
use model_inference_server.Server.Invariant.{Bound}
use model_inference_server.Server.Delivery.{Has, of_model, of_retiring, completion-Waits}
use model_inference_server.Server.Steps.{Reach-Inv, acting-InProcess}

-- In every state that a server can come to, for every address of an RPC's state: a state that waits for
-- its request has one operation in the completion queue and was not answered; one that is in PROCESS
-- has none and was not answered; one in FINISH has one and was answered once. An address with no state
-- has no operation in the queue, so that Next never returns a state that was deleted, and was answered
-- at most once.
pub Reach-rpc_cases :
    (s : Server) (tag : ℕ)
    → Reach s
    → ((Dict.find tag s.handler.states ≡ none)
        × (count tag s.handler.queue ≡ 0)
        × (times tag s.handler.finished ≤ 1))
      ⊎ ((state : HandlerState InferRequest InferResponse) × (Dict.find tag s.handler.states
            ≡ some state)
          × (count tag s.handler.queue ≡ pending state.step)
          × (times tag s.handler.finished ≡ ended state.step))
Reach-rpc_cases s tag r =
    settled s.handler tag (Dict.find tag s.handler.states) refl ((Reach-Inv r).orderly.fits tag)

-- A step in which the completion queue does not shut down: an operation for which a state waits for its
-- request comes back with `ok`.
abbrev pub IsUp : {s s' : Server} → Step s s' → Type 0
IsUp (handler_next s i rpc_ok request) =
    (tag : ℕ) (state : HandlerState InferRequest InferResponse)
    → get_elem? s.handler.queue i ≡ some tag
    → Dict.find tag s.handler.states ≡ some state
    → state.step ≡ start
    → rpc_ok ≡ true
IsUp (take_action s tag state core ctx action q found e) = Unit
IsUp (runner_steps s s' name model i r status after r' c payload h ht hp e) = Unit
IsUp (retiring_runner_steps s s' j sched phase i r status after r' c payload h ht hp e) = Unit
IsUp (retiring_stops s j sched phase toc after phase' h e) = Unit
IsUp (retiring_ends s j sched status h) = Unit
IsUp (reloads s w u e) = Unit
IsUp (manager_stops s) = Unit

-- What a server comes to before its completion queue shuts down.
pub data ReachUp : Server → Type 0 where
  starts :
      (w : World) (cfg : Option ServerConfig) (core : InferenceCore ℕ)
      → new_core w cfg ≡ returns core
      → ReachUp (started (Core.start core).0)
  steps : (s s' : Server) → ReachUp s → (st : Step s s') → IsUp st → ReachUp s'

Reach-of : {s : Server} → ReachUp s → Reach s
Reach-of (starts w cfg core e) = here w cfg core e
Reach-of (steps s s' r st up) = goes s s' (Reach-of r) st

module _ (s s' : Server) where
  delivered-Listening :
      (tag : ℕ) (r : (GrpcInferRequestContext ℕ × InferResponse) × Outcome ℕ)
      → InProcess s.handler tag
      → ((k : ℕ) → r.1 ≡ returns k → k ≡ tag)
      → Orderly s.handler
      → Listening s.handler
      → delivered s tag r ≡ some s'
      → Listening s'.handler
  delivered-Listening tag ((ctx, response), throws e) p bound v l h = absurd (cc h)
  delivered-Listening tag ((ctx, response), returns k) p bound v l h =
      let same : record s {
        contexts = Dict.put tag ctx s.contexts;
        handler = Handler.step blank s.handler (completed k response);
      }
          ≡ s' =
        cc h in
      subst (λ (t : Server). Listening t.handler) same
        (step-Listening blank s.handler (completed k response) tt
          (subst (InProcess s.handler) (sym (bound k refl)) p) v l)

  deliver-Listening :
      (c : Completion ℕ) (payload : InferencePayload ℕ)
      (b : Bound c.payload s.handler.states s.contexts)
      → b.state.step ≡ process
      → Orderly s.handler
      → Listening s.handler
      → deliver s c payload ≡ some s'
      → Listening s'.handler
  unfolding deliver
  deliver-Listening c payload b p v l h =
      let run = record b.ctx { infer_payload = payload } in
      let callee = (new_context-IsFresh b.state.request c.payload b.ctx b.made).callee in
      delivered-Listening c.payload (on_infer_completed run b.state.response c.status c.message)
        (b.state, b.found, p)
        (λ k r.
          sym (on_infer_completed-returns run b.state.response c.status c.message k r) ∙ callee)
        v l (rw (b.at, b.found) at h)

  finished-Listening :
      (c : Option (Completion ℕ)) (payload : InferencePayload ℕ)
      → ((d : Completion ℕ)
          → c ≡ some d
          → (b : Bound d.payload s.handler.states s.contexts) × (b.state.step ≡ process))
      → Orderly s.handler
      → Listening s.handler
      → finished s c payload ≡ some s'
      → Listening s'.handler
  finished-Listening none payload w v l h =
      let same : s ≡ s' = cc h in subst (λ (t : Server). Listening t.handler) same l
  finished-Listening (some c) payload w v l h =
      let (b, p) = w c refl in deliver-Listening c payload b p v l h

-- The context of a payload whose call ends, in PROCESS.
ready_for :
    (s : Server) (sched after : SimpleScheduler ℕ ℕ) (i : ℕ) (r r' : Runner ℕ ℕ) (status : Status)
    (c : Option (Completion ℕ))
    → Reach s
    → Has s sched
    → get_elem? sched.threads i ≡ some r
    → process_step sched r status ≡ some (after, r', c)
    → (d : Completion ℕ) → c ≡ some d
    → (b : Bound d.payload s.handler.states s.contexts) × (b.state.step ≡ process)
ready_for s sched after i r r' status c reach has h p d e =
    let w =
      completion-Waits s sched after i r r' status d reach has h
        (p ∙ ap (λ o. some (after, r', o)) e) in
    (w.ready.bound, w.ready.in_process)

Step-Listening :
    {s s' : Server} (st : Step s s')
    → IsUp st
    → Reach s
    → Listening s.handler
    → Listening s'.handler
Step-Listening (handler_next s i rpc_ok request) up r l =
    step-Listening blank s.handler (next i rpc_ok request) up tt (Reach-Inv r).orderly l
Step-Listening (take_action s tag state core ctx action q found e) up r l =
    let v = Reach-Inv r in
    step-Listening blank s.handler (acted action) tt (acting-InProcess s v) v.orderly l
Step-Listening (runner_steps s s' name model i r status after r' c payload h ht hp e) up reach l =
    finished-Listening _ s' c payload
      (ready_for s model.scheduler after i r r' status c reach (of_model name model h refl) ht hp)
      (Reach-Inv reach).orderly l e
Step-Listening (retiring_runner_steps s s' j sched phase i r status after r' c payload h ht hp e) up
      reach l =
    finished-Listening _ s' c payload
      (ready_for s sched after i r r' status c reach (of_retiring j phase h) ht hp)
      (Reach-Inv reach).orderly l e
Step-Listening (retiring_stops s j sched phase toc after phase' h e) up r l = l
Step-Listening (retiring_ends s j sched status h) up r l = l
Step-Listening (reloads s w u e) up r l = l
Step-Listening (manager_stops s) up r l = l

ReachUp-Listening : {s : Server} → ReachUp s → Listening s.handler
ReachUp-Listening (starts w cfg core e) = handle_events-Listening blank
ReachUp-Listening (steps s s' r st up) = Step-Listening st up (Reach-of r) (ReachUp-Listening r)

-- As long as the completion queue does not shut down, whatever else happens, clients that time out
-- included, a state of the infer handler waits for the next request, with its operation in the queue:
-- the handler does not stop to accept.
pub keeps_listening :
    (s : Server)
    → ReachUp s
    → (tag : ℕ) × (state : HandlerState InferRequest InferResponse) × (Dict.find tag
          s.handler.states
        ≡ some state)
      × (state.step ≡ start)
      × (count tag s.handler.queue ≡ 1)
keeps_listening s r =
    let l = ReachUp-Listening r in
    (l.tag, l.state, l.at, l.waits, queued l (Reach-Inv (Reach-of r)).orderly)
