-- ===== src/Server/Invariant.antt =====
-- What holds of the server (src/core/server/grpc_server.cc, src/core/scheduler/simple_scheduler.cc) in
-- every state: a payload is in at most one place, and only while its RPC waits for it.
use model_inference_server.Common.{
  ℕ, ◌+◌, ◌≤◌, ◌≡◌, refl, sym, ◌∙◌, subst, ◌⊎◌, inl, inr, Option, none, some, false, Keys-cases,
  arith, occurs, count, nat_key, nat_eq_iff,
}
use model_inference_server.Common.Dict
use model_inference_server.Common.Dict.{Dict, find-put}
use model_inference_server.Outcome.{Outcome, returns, throws}
use model_inference_server.Proto.{InferRequest, InferResponse, empty_infer_response}
use model_inference_server.Payload.{InferencePayload}
use model_inference_server.InferContext.{GrpcInferRequestContext, new_context, on_infer_completed}
use model_inference_server.InferContext.Callback.{on_infer_completed-returns}
use model_inference_server.InferContext.Delivery.{new_context-IsFresh}
use model_inference_server.Scheduler.{Completion}
use model_inference_server.Handler
use model_inference_server.Handler.{HandlerState, Handler, process, completed, is_acting}
use model_inference_server.Handler.Rpc.{Orderly}
use model_inference_server.Handler.Once.{step-Orderly}
use model_inference_server.Server.{Server, blank, delivered, deliver, finished}
use model_inference_server.Server.Opened.{AllOpen}
use model_inference_server.Server.Places.{places, completes}
use model_inference_server.Server.Room.{
  room, Acting, Clear, room-completed, completed-Clear, room-state, room_bound,
}

-- A state and its context, which was made of the state's request, with the response still cleared.
pub record Bound (a : ℕ) (states : Dict ℕ (HandlerState InferRequest InferResponse))
    (contexts : Dict ℕ (GrpcInferRequestContext ℕ)) : Type 0 where
  pub state : HandlerState InferRequest InferResponse
  pub found : Dict.find a states ≡ some state
  pub cleared : state.response ≡ empty_infer_response
  pub ctx : GrpcInferRequestContext ℕ
  pub at : Dict.find a contexts ≡ some ctx
  pub made : new_context state.request a ≡ returns ctx

-- The same, where neither has changed.
pub Bound-same :
    (a : ℕ) (states states' : Dict ℕ (HandlerState InferRequest InferResponse))
    (contexts contexts' : Dict ℕ (GrpcInferRequestContext ℕ))
    → Dict.find a states' ≡ Dict.find a states
    → Dict.find a contexts' ≡ Dict.find a contexts
    → Bound a states contexts
    → Bound a states' contexts'
Bound-same a states states' contexts contexts' es ec b = record {
  state = b.state;
  found = es ∙ b.found;
  cleared = b.cleared;
  ctx = b.ctx;
  at = ec ∙ b.at;
  made = b.made;
}

-- The invariant, with `more` payloads of each address about to be completed.
pub record Held (s : Server) (more : ℕ → ℕ) : Type 0 where
  pub orderly : Orderly s.handler
  pub acting : Acting s.handler
  pub clear : Clear s.handler
  pub placed : (a : ℕ) → places a s + count a s.lost + more a ≡ room a s.handler
  pub opened : AllOpen s.core.model_manager.model_map
  pub bound : (a : ℕ) → (room a s.handler ≡ 0) ⊎ Bound a s.handler.states s.contexts

abbrev pub Inv : Server → Type 0
Inv s = Held s (λ a. 0)

-- What a completion of a payload finds: the RPC's state in PROCESS, past its TakeAction, and its
-- context.
pub record Lands (s : Server) (tag : ℕ) : Type 0 where
  pub idle : is_acting tag s.handler.acting ≡ false
  pub bound : Bound tag s.handler.states s.contexts
  pub in_process : bound.state.step ≡ process

pub lands_at :
    (s : Server) (tag : ℕ)
    → 1 ≤ room tag s.handler
    → (room tag s.handler ≡ 0) ⊎ Bound tag s.handler.states s.contexts
    → Lands s tag
lands_at s tag le (inl z) = absurd (omega (arith, z, le))
lands_at s tag le (inr b) =
    let (idle, state, found, proc) = room-state s.handler tag le in
    record {
      idle = idle;
      bound = b;
      in_process =
          let same : state ≡ b.state = cc (found, b.found) in
          subst (λ (t : HandlerState InferRequest InferResponse). t.step ≡ process) same proc;
    }

module _ (s : Server) (tag : ℕ) (v : Held s (λ a. occurs a tag)) where
  lands : Lands s tag
  lands = lands_at s tag (ground (arith, v.placed tag, nat_eq_iff tag tag)) (v.bound tag)

  -- OnCompleted of the state to which the context is bound.
  completed-Inv :
      (ctx : GrpcInferRequestContext ℕ) (response : InferResponse)
      → Inv (record s {
        contexts = Dict.put tag ctx s.contexts;
        handler = Handler.step blank s.handler (completed tag response);
      })
  completed-Inv ctx response =
      let l = lands in
      let b = l.bound in
      let room_after = room-completed s.handler tag b.state b.found l.in_process response in
      record {
        orderly =
            step-Orderly blank s.handler (completed tag response) (b.state, b.found, l.in_process)
              v.orderly;
        acting = λ t q.
            let (_, same, cases) = room_after t l.idle in
            elim cases [
              | inl e ↦ absurd (ground (arith, e, q, same, l.idle, nat_eq_iff t tag))
              | inr e ↦ rw e (v.acting t (sym same ∙ q))
            ];
        clear = completed-Clear s.handler tag b.state b.found l.in_process response l.idle v.clear;
        placed = λ a. omega (arith, v.placed a, (room_after a l.idle).0);
        opened = v.opened;
        bound = λ a. elim (Keys-cases tag a) [
          | inl e ↦
              inl (
                ground
                  (arith, e, (room_after a l.idle).0, room_bound s.handler a, nat_eq_iff a tag))
          | inr ne ↦ elim (v.bound a) [
            | inl z ↦ inl (omega (arith, z, (room_after a l.idle).0))
            | inr was ↦ elim ((room_after a l.idle).2) [
              | inl e ↦ absurd (ne e)
              | inr same ↦ inr (
                  Bound-same a s.handler.states _ s.contexts _ same
                    (ground (arith, find-put tag a ctx s.contexts, nat_eq_iff tag a, ne)) was)
            ]
          ]
        ];
      }

  delivered-Inv :
      (s' : Server) (r : (GrpcInferRequestContext ℕ × InferResponse) × Outcome ℕ)
      → ((k : ℕ) → r.1 ≡ returns k → k ≡ tag)
      → delivered s tag r ≡ some s'
      → Inv s'
  delivered-Inv s' ((ctx, response), throws e) bound h = absurd (cc h)
  delivered-Inv s' ((ctx, response), returns k) bound h =
      let same : record s {
        contexts = Dict.put tag ctx s.contexts;
        handler = Handler.step blank s.handler (completed tag response);
      }
          ≡ s' =
        subst
          (λ t.
            record s {
              contexts = Dict.put tag ctx s.contexts;
              handler = Handler.step blank s.handler (completed t response);
            }
            ≡ s')
          (bound k refl) (cc h) in
      subst Inv same (completed-Inv ctx response)

-- A completion that returns.
pub deliver-Inv :
    (s s' : Server) (c : Completion ℕ) (payload : InferencePayload ℕ)
    → Held s (λ a. occurs a c.payload)
    → deliver s c payload ≡ some s'
    → Inv s'
unfolding deliver
deliver-Inv s s' c payload v h =
    let b = (lands s c.payload v).bound in
    let run = record b.ctx { infer_payload = payload } in
    let done = on_infer_completed run b.state.response c.status c.message in
    let callee = (new_context-IsFresh b.state.request c.payload b.ctx b.made).callee in
    delivered-Inv s c.payload v s' done
      (λ k r. sym (on_infer_completed-returns run b.state.response c.status c.message k r) ∙ callee)
      (rw (b.at, b.found) at h)

-- With the completion that a runner's step may come with.
pub finished-Inv :
    (s s' : Server) (c : Option (Completion ℕ)) (payload : InferencePayload ℕ)
    → Held s (λ a. completes a c)
    → finished s c payload ≡ some s'
    → Inv s'
finished-Inv s s' none payload v e = subst Inv (cc e) v
finished-Inv s s' (some c) payload v e = deliver-Inv s s' c payload v e
