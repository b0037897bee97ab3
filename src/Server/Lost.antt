-- ===== src/Server/Lost.antt =====
-- Payloads that are still with a scheduler when it is destroyed
-- (src/core/scheduler/simple_scheduler.cc, src/core/model_manager/model_manager.cc), and their RPCs
-- (src/core/server/grpc_server.cc).
use model_inference_server.Common.{
  ℕ, ◌+◌, ◌≤◌, ◌≡◌, ◌⊎◌, ap, inl, inr, false, Option, none, some, Keys-cases, count, count-append,
  arith, nat_key,
}
use model_inference_server.Common.Dict
use model_inference_server.Outcome.{Outcome, returns, throws}
use model_inference_server.Proto.{InferRequest, InferResponse}
use model_inference_server.Payload.{InferencePayload}
use model_inference_server.InferContext.{GrpcInferRequestContext}
use model_inference_server.Scheduler.{Completion}
use model_inference_server.Handler.{HandlerState, process, is_acting}
use model_inference_server.Server.{
  Server, delivered, deliver_to, deliver, finished, payloads, Step, handler_next, take_action,
  runner_steps, retiring_runner_steps, retiring_stops, retiring_ends, reloads, manager_stops, Reach,
  goes,
}
use model_inference_server.Server.Places.{places}
use model_inference_server.Server.Room.{room_bound}
use model_inference_server.Server.Steps.{Reach-Inv}
use model_inference_server.Server.Delivery.{Waits, Waits-of}

-- In every state that a server can come to, an RPC that is in PROCESS and past its TakeAction has its
-- payload in exactly one place: in the queue of a scheduler or with a runner, or among those that were
-- with a scheduler when it was destroyed.
pub process-places :
    (s : Server) (tag : ℕ) (state : HandlerState InferRequest InferResponse)
    → Reach s
    → Dict.find tag s.handler.states ≡ some state
    → state.step ≡ process
    → is_acting tag s.handler.acting ≡ false
    → ((places tag s ≡ 1) × (count tag s.lost ≡ 0)) ⊎ ((places tag s ≡ 0) × (count tag s.lost ≡ 1))
process-places s tag state r found p idle =
    let total : places tag s + count tag s.lost ≡ 1 =
      ground (arith, (Reach-Inv r).placed tag, found, p, idle) in
    elim (Keys-cases (places tag s) 1) [
      | inl e ↦ inl (e, omega (arith, e, total))
      | inr ne ↦ inr (omega (arith, ne, total), omega (arith, ne, total))
    ]

delivered-lost :
    (s s' : Server) (tag : ℕ) (r : (GrpcInferRequestContext ℕ × InferResponse) × Outcome ℕ)
    → delivered s tag r ≡ some s'
    → s'.lost ≡ s.lost
delivered-lost s s' tag ((ctx, response), throws e) h = absurd (cc h)
delivered-lost s s' tag ((ctx, response), returns state) h = ground (arith, h)

deliver_to-lost :
    (s s' : Server) (c : Completion ℕ) (payload : InferencePayload ℕ)
    (ctx : Option (GrpcInferRequestContext ℕ))
    (state : Option (HandlerState InferRequest InferResponse))
    → deliver_to s c payload ctx state ≡ some s'
    → s'.lost ≡ s.lost
deliver_to-lost s s' c payload none state h = absurd (cc h)
deliver_to-lost s s' c payload (some ctx) none h = absurd (cc h)
deliver_to-lost s s' c payload (some ctx) (some state) h = delivered-lost s s' c.payload _ h

finished-lost :
    (s s' : Server) (c : Option (Completion ℕ)) (payload : InferencePayload ℕ)
    → finished s c payload ≡ some s'
    → s'.lost ≡ s.lost
unfolding deliver
finished-lost s s' none payload h = ground (arith, h)
finished-lost s s' (some c) payload h = deliver_to-lost s s' c payload _ _ h

module _ (a : ℕ) where
  Step-lost : {s s' : Server} → Step s s' → count a s.lost ≤ count a s'.lost
  Step-lost (handler_next s i rpc_ok request) = omega arith
  Step-lost (take_action s tag state core ctx action q found e) = omega arith
  Step-lost (runner_steps s s' name model i r status after r' c payload h ht hp e) =
      omega (arith, ap (count a) (finished-lost _ s' c payload e))
  Step-lost (retiring_runner_steps s s' j sched phase i r status after r' c payload h ht hp e) =
      omega (arith, ap (count a) (finished-lost _ s' c payload e))
  Step-lost (retiring_stops s j sched phase toc after phase' h e) = omega arith
  Step-lost (retiring_ends s j sched status h) =
      omega (arith, count-append a s.lost (payloads sched))
  Step-lost (reloads s w u e) = omega arith
  Step-lost (manager_stops s) = omega arith

-- What a state comes to, in any number of steps.
pub data Later (s : Server) : Server → Type 0 where
  now : Later s s
  after : (s' s'' : Server) → Later s s' → Step s' s'' → Later s s''

Reach-Later : {s s' : Server} → Reach s → Later s s' → Reach s'
Reach-Later r now = r
Reach-Later r (after s' s'' l st) = goes s' s'' (Reach-Later r l) st

Later-lost : (a : ℕ) {s s' : Server} → Later s s' → count a s.lost ≤ count a s'.lost
Later-lost a now = omega arith
Later-lost a (after s' s'' l st) = omega (arith, Later-lost a l, Step-lost a st)

-- A payload that was with a scheduler of the server when that was destroyed is lost for good: whatever
-- the threads do afterwards, no scheduler has it, and its RPC waits in PROCESS, past its TakeAction,
-- is not answered and has no operation on the completion queue.
pub lost_for_good :
    (s s' : Server) (tag : ℕ)
    → Reach s
    → 1 ≤ count tag s.lost
    → Later s s'
    → (places tag s' ≡ 0) × Waits s' tag
lost_for_good s s' tag r le l =
    let v = Reach-Inv (Reach-Later r l) in
    let still = Later-lost tag l in
    (
      omega (arith, le, still, v.placed tag, room_bound s'.handler tag),
      Waits-of s' tag v (omega (arith, le, still)),
    )
