-- ===== src/Server/Answers.antt =====
-- From the outputs of a backend to the answer of the RPC that asked for them, in the server put together
-- (src/core/server/grpc_server.cc, src/core/server/grpc_infer_request_context.cc,
-- src/core/scheduler/simple_scheduler.cc).
use model_inference_server.Common.{
  ℕ, ◌≡◌, refl, ap, ◌∙◌, sym, ◌≢◌, some, List, [], ◌∷◌, ◌++◌, map, arith, get_elem?, nat_key,
}
use model_inference_server.Common.Dict
use model_inference_server.Outcome.{Outcome, returns, throws}
use model_inference_server.Status.{Status}
use model_inference_server.Proto.{InferResponse, RequestStatusCode, empty_infer_response}
use model_inference_server.Payload.{InferencePayload}
use model_inference_server.InferContext.{GrpcInferRequestContext, on_infer_completed, set_status}
use model_inference_server.InferContext.Delivery.{
  NamedOutput, described, register_from, on_infer_completed_delivers, on_infer_completed_fails,
  new_context-IsFresh,
}
use model_inference_server.Queue.{pop}
use model_inference_server.Scheduler.{
  SimpleScheduler, Runner, testing, popping, ready, calling, exited, Completion, completion,
  process_step,
}
use model_inference_server.Handler
use model_inference_server.Handler.{completed}
use model_inference_server.Server.{Server, Reach, blank, delivered, deliver}
use model_inference_server.Server.Room.{completed-finished}
use model_inference_server.Server.Delivery.{Has, Waits, completion-Waits}

delivered-returns :
    (s : Server) (tag k : ℕ) (r : (GrpcInferRequestContext ℕ × InferResponse) × Outcome ℕ)
    → r.1 ≡ returns k
    → delivered s tag r
      ≡ some (record s {
        contexts = Dict.put tag r.0.0 s.contexts;
        handler = Handler.step blank s.handler (completed k r.0.1);
      })
delivered-returns s tag k ((ctx, response), throws e) h = absurd (cc h)
delivered-returns s tag k ((ctx, response), returns j) h =
    let same : j ≡ k = cc h in
    ap
      (λ t. some (record s {
        contexts = Dict.put tag ctx s.contexts;
        handler = Handler.step blank s.handler (completed t response);
      }))
      same

-- The completion of an RPC that waits, with a run of OnInferCompleted that returns.
deliver-Waits :
    (s : Server) (c : Completion ℕ) (payload : InferencePayload ℕ) (w : Waits s c.payload)
    → let b = w.ready.bound in
      let done =
        on_infer_completed
          (record b.ctx { infer_payload = payload })
          b.state.response
          c.status
          c.message in
      done.1 ≡ returns c.payload
      → (s' : Server) × (deliver s c payload ≡ some s')
        × (s'.handler.finished ≡ (c.payload, done.0.1) ∷ s.handler.finished)
unfolding deliver
deliver-Waits s c payload w e =
    let b = w.ready.bound in
    let done =
      on_infer_completed (record b.ctx { infer_payload = payload }) b.state.response c.status
        c.message in
    (
      record s {
        contexts = Dict.put c.payload done.0.0 s.contexts;
        handler = Handler.step blank s.handler (completed c.payload done.0.1);
      },
      rw (b.at, b.found) (delivered-returns s c.payload c.payload done e),
      completed-finished s.handler c.payload b.state b.found w.ready.in_process done.0.1
          w.ready.idle,
    )

completes-with :
    (sched after : SimpleScheduler ℕ ℕ) (r r' : Runner ℕ ℕ) (status : Status) (c : Completion ℕ)
    (b : List ℕ)
    → sched.queue.buffer ≡ b
    → process_step sched r status ≡ some (after, r', some c)
    → c ≡ completion c.payload status
unfolding process_step pop completion
completes-with sched after testing r' status c b hb e = absurd (ground (arith, e))
completes-with sched after popping r' status c [] hb e = absurd (ground (arith, e))
completes-with sched after popping r' status c (p ∷ ps) hb e = absurd (ground (arith, e))
completes-with sched after (ready p) r' status c b hb e = absurd (ground (arith, e))
completes-with sched after (calling p f) r' status c b hb e = ground (arith, e)
completes-with sched after exited r' status c b hb e = absurd (ground (arith, e))

success_of :
    (sched after : SimpleScheduler ℕ ℕ) (r r' : Runner ℕ ℕ) (status : Status) (c : Completion ℕ)
    → process_step sched r status ≡ some (after, r', some c)
    → c.status ≡ status
unfolding completion
success_of sched after r r' status c e =
    ap (λ (t : Completion ℕ). t.status)
      (completes-with sched after r r' status c sched.queue.buffer refl e)

-- From the backend to the RPC: a runner of any scheduler of the server ends a call with Success, and
-- the backend has registered at least one output, under 0, 1, 2, …, with the payload that the RPC's
-- context holds. Then the completion returns, and adds one answer to those that were given: to the RPC
-- of that payload, with SUCCESS, the outputs' bytes in the order of registration, and nothing else,
-- and a header that describes each.
pub completion_delivers :
    (s : Server) (sched after : SimpleScheduler ℕ ℕ) (i : ℕ) (r r' : Runner ℕ ℕ) (c : Completion ℕ)
    (os : List NamedOutput)
    → Reach s
    → Has s sched
    → get_elem? sched.threads i ≡ some r
    → process_step sched r Status.success ≡ some (after, r', some c)
    → os ≢ []
    → (ctx : GrpcInferRequestContext ℕ) × (Dict.find c.payload s.contexts ≡ some ctx)
      × (s' : Server) × (deliver s c (register_from 0 os ctx.infer_payload) ≡ some s')
      × (response : InferResponse) × (s'.handler.finished
          ≡ (c.payload, response) ∷ s.handler.finished)
      × (response.raw_output ≡ map (λ o. o.content) os)
      × (response.meta_data.output ≡ map described os)
      × (response.request_status.code ≡ RequestStatusCode.success)
completion_delivers s sched after i r r' c os reach has h p ne =
    let w = completion-Waits s sched after i r r' Status.success c reach has h p in
    let b = w.ready.bound in
    let payload = register_from 0 os b.ctx.infer_payload in
    let run = record b.ctx { infer_payload = payload } in
    let ok = success_of sched after r r' Status.success c p in
    let (raw, header, code, _, done) =
      on_infer_completed_delivers b.state.request c.payload b.ctx os b.state.response c.message
        b.made ne in
    let (s', e, logged) =
      deliver-Waits s c payload w
        (ap (λ st. (on_infer_completed run b.state.response st c.message).1) ok ∙ done) in
    (
      b.ctx,
      b.at,
      s',
      e,
      (on_infer_completed run b.state.response Status.success c.message).0.1,
      logged
          ∙ ap
              (λ st.
                (c.payload, (on_infer_completed run b.state.response st c.message).0.1)
                ∷ s.handler.finished)
              ok,
      raw ∙ ap (λ (t : InferResponse). t.raw_output ++ map (λ o. o.content) os) b.cleared,
      header,
      code,
    )

-- In every state that a server can come to: if a runner of any of its schedulers ends a call with a
-- status other than Success, the completion returns, whatever payload the backend left, and adds one
-- answer to those that were given: to the RPC of that payload, with INTERNAL, the message of the
-- completion and nothing else.
pub completion_refuses :
    (s : Server) (sched after : SimpleScheduler ℕ ℕ) (i : ℕ) (r r' : Runner ℕ ℕ) (status : Status)
    (c : Completion ℕ) (payload : InferencePayload ℕ)
    → Reach s
    → Has s sched
    → get_elem? sched.threads i ≡ some r
    → process_step sched r status ≡ some (after, r', some c)
    → status ≢ Status.success
    → (s' : Server) × (deliver s c payload ≡ some s')
      × (s'.handler.finished
          ≡ (c.payload, set_status RequestStatusCode.internal c.message empty_infer_response)
            ∷ s.handler.finished)
completion_refuses s sched after i r r' status c payload reach has h p ne =
    let w = completion-Waits s sched after i r r' status c reach has h p in
    let b = w.ready.bound in
    let run = record b.ctx { infer_payload = payload } in
    let bad : c.status ≢ Status.success =
      λ e. ne (sym (success_of sched after r r' status c p) ∙ e) in
    let fails = on_infer_completed_fails run b.state.response c.status c.message bad in
    let callee = (new_context-IsFresh b.state.request c.payload b.ctx b.made).callee in
    let (s', e, logged) = deliver-Waits s c payload w (ap (λ t. t.1) fails ∙ ap returns callee) in
    (s', e, logged ∙ ap (λ t. (c.payload, t.0.1) ∷ s.handler.finished) fails)
