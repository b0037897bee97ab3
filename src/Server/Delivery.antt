-- ===== src/Server/Delivery.antt =====
-- Completions meet the RPCs that they are for, in the server put together
-- (src/core/server/grpc_server.cc, src/core/scheduler/simple_scheduler.cc).
use model_inference_server.Common.{
  ℕ, ◌+◌, ◌≤◌, ◌≡◌, refl, some, arith, count, get_elem?, String, nat_key, string_key, nat_eq_iff,
}
use model_inference_server.Common.Dict
use model_inference_server.Status.{Status}
use model_inference_server.Scheduler.{SimpleScheduler, Runner, Completion, StopPhase, process_step}
use model_inference_server.Manager.{ModelRunContext}
use model_inference_server.Proto.{InferRequest, InferResponse}
use model_inference_server.Handler.{Handler, HandlerState, process, times}
use model_inference_server.Handler.Rpc.{Orderly, pending, ended}
use model_inference_server.Server.{Server, Reach, moved}
use model_inference_server.Server.Places.{
  places, in_map-put, in_retiring-set, in_scheduler-process_step,
}
use model_inference_server.Server.Room.{room_bound}
use model_inference_server.Server.Invariant.{Inv, Lands, lands_at}
use model_inference_server.Server.Steps.{Reach-Inv}

-- An RPC that waits for its payload: it was not answered, and no operation is started for it.
pub record Waits (s : Server) (tag : ℕ) : Type 0 where
  pub ready : Lands s tag
  pub unanswered : times tag s.handler.finished ≡ 0
  pub quiet : count tag s.handler.queue ≡ 0

unanswered-process :
    (h : Handler InferRequest InferResponse) (tag : ℕ)
    (state : HandlerState InferRequest InferResponse)
    → Orderly h
    → Dict.find tag h.states ≡ some state
    → state.step ≡ process
    → (times tag h.finished ≡ 0) × (count tag h.queue ≡ 0)
unfolding pending ended
unanswered-process h tag state v e p = ground (arith, v.fits tag, e, p)

pub Waits-of : (s : Server) (tag : ℕ) → Inv s → 1 ≤ places tag s + count tag s.lost → Waits s tag
Waits-of s tag v le =
    let l = lands_at s tag (omega (arith, le, v.placed tag)) (v.bound tag) in
    let (none_yet, quiet) =
      unanswered-process s.handler tag l.bound.state v.orderly l.bound.found l.in_process in
    record { ready = l; unanswered = none_yet; quiet = quiet }

-- In every state that a server can come to: a payload that is in the queue of a scheduler or with a
-- runner is there once and nowhere else, and its RPC waits for it. That RPC's state is there, in
-- PROCESS and past its TakeAction, with the context whose completion function is bound to it; it was
-- not answered, and no operation of it is on the completion queue.
pub Reach-Waits :
    (s : Server) (tag : ℕ) → Reach s → 1 ≤ places tag s → (places tag s ≡ 1) × Waits s tag
Reach-Waits s tag r le =
    let v = Reach-Inv r in
    (
      omega (arith, le, v.placed tag, room_bound s.handler tag),
      Waits-of s tag v (omega (arith, le)),
    )

-- A scheduler that the server has: of a loaded model, or of one that retires.
pub data Has (s : Server) (sched : SimpleScheduler ℕ ℕ) : Type 0 where
  of_model :
      (name : String) (model : ModelRunContext ℕ)
      → Dict.find name s.core.model_manager.model_map ≡ some model
      → model.scheduler ≡ sched
      → Has s sched
  of_retiring :
      (j : ℕ) (phase : StopPhase) → get_elem? s.retiring j ≡ some (sched, phase) → Has s sched

Has-places :
    (s : Server) (sched after : SimpleScheduler ℕ ℕ) (i : ℕ) (r r' : Runner ℕ ℕ) (status : Status)
    (c : Completion ℕ)
    → Has s sched
    → get_elem? sched.threads i ≡ some r
    → process_step sched r status ≡ some (after, r', some c)
    → 1 ≤ places c.payload s
Has-places s sched after i r r' status c (of_model name model e same) h p =
    let ctx' = record model { scheduler = moved after i r' } in
    ground (
      arith,
      same,
      in_map-put c.payload s.core.model_manager.model_map name model ctx' e,
      in_scheduler-process_step c.payload sched after i r r' status (some c) sched.queue.buffer h
          refl p,
      nat_eq_iff c.payload c.payload,
    )
Has-places s sched after i r r' status c (of_retiring j phase e) h p = ground (
  arith,
  in_retiring-set c.payload s.retiring j sched (moved after i r') phase phase e,
  in_scheduler-process_step c.payload sched after i r r' status (some c) sched.queue.buffer h refl
      p,
  nat_eq_iff c.payload c.payload,
)

-- When a runner of any scheduler of the server ends a call, the RPC of its payload waits for it: the
-- completion uses no context or state that was destroyed, and none that was answered.
pub completion-Waits :
    (s : Server) (sched after : SimpleScheduler ℕ ℕ) (i : ℕ) (r r' : Runner ℕ ℕ) (status : Status)
    (c : Completion ℕ)
    → Reach s
    → Has s sched
    → get_elem? sched.threads i ≡ some r
    → process_step sched r status ≡ some (after, r', some c)
    → Waits s c.payload
completion-Waits s sched after i r r' status c reach has h p =
    Waits-of s c.payload (Reach-Inv reach)
      (omega (arith, Has-places s sched after i r r' status c has h p))
