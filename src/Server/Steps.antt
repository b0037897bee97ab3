-- ===== src/Server/Steps.antt =====
-- Every step of the server (src/core/server/grpc_server.cc, src/core/scheduler/simple_scheduler.cc,
-- src/core/model_manager/model_manager.cc) keeps its invariant.
use model_inference_server.Common.{
  ℕ, ◌+◌, ◌≡◌, ◌≢◌, refl, sym, ap, ◌∙◌, subst, inl, inr, Option, some, List, Bool, Keys-cases,
  Option-cases, arith, false, ◌++◌, count, count-append, nat_key, string_key, nat_eq_iff,
}
use model_inference_server.Common.Dict
use model_inference_server.Common.Dict.{Dict, find-put}
use model_inference_server.Proto.{InferRequest, InferResponse}
use model_inference_server.InferContext.{GrpcInferRequestContext, new_context}
use model_inference_server.Outcome.{returns}
use model_inference_server.Scheduler.{SimpleScheduler, StopPhase, returned}
use model_inference_server.Manager.Cycle.{add_model, update_model, each, stop_manager}
use model_inference_server.Core.{InferenceCore}
use model_inference_server.Handler
use model_inference_server.Handler.{
  HandlerState, Handler, next, acted, process, Action, answers, defers, handle_events,
}
use model_inference_server.Handler.Actions.{infer_take_action}
use model_inference_server.Handler.Rpc.{InProcess}
use model_inference_server.Handler.Once.{step-Orderly, handle_events-Orderly}
use model_inference_server.Server.{
  Server, blank, started, set_context, retired, all_retired, moved, Step, handler_next, take_action,
  runner_steps, retiring_runner_steps, retiring_stops, retiring_ends, reloads, manager_stops, Reach,
  here, goes, payloads,
}
use model_inference_server.Server.Places.{
  in_map, places, completes, in_map-put, in_retiring-set, in_retiring-append, in_retiring-remove_at,
  in_scheduler-process_step, in_scheduler-stop_step, in_retiring, count-payloads,
}
use model_inference_server.Server.Loading.{
  in_map-apply_update, in_retiring-all_retired, in_map-stop_manager,
}
use model_inference_server.Server.Calls.{handed, in_map-infer_take_action}
use model_inference_server.Manager.{ModelManager}
use model_inference_server.Manager.Requests.{cleared}
use model_inference_server.Server.Opened.{
  AllOpen, AllOpen-find, AllOpen-put, moved-IsOpen, apply_update-AllOpen,
}
use model_inference_server.Server.Room.{next-SameRoom, room-acted, acted-Clear}
use model_inference_server.Server.Startup.{new_core-IsVacant}
use model_inference_server.Server.Invariant.{Bound-same, Held, Inv, finished-Inv}

next-Inv :
    (s : Server) (i : ℕ) (rpc_ok : Bool) (request : InferRequest)
    → Inv s
    → Inv (record s { handler = Handler.step blank s.handler (next i rpc_ok request) })
next-Inv s i rpc_ok request v =
    let (same, acting, clear) =
      next-SameRoom s.handler i rpc_ok request v.orderly v.acting v.clear in
    record {
      orderly = step-Orderly blank s.handler (next i rpc_ok request) tt v.orderly;
      acting = acting;
      clear = clear;
      placed = λ a. omega (arith, v.placed a, (same a).0);
      opened = v.opened;
      bound = λ a. elim (v.bound a) [
        | inl z ↦ inl ((same a).0 ∙ z)
        | inr b ↦ elim ((same a).1) [
          | inl z ↦ inl ((same a).0 ∙ z)
          | inr e ↦ inr (Bound-same a s.handler.states _ s.contexts _ e refl b)
        ]
      ];
    }

handed-other : (a tag : ℕ) (action : Action InferResponse) → tag ≢ a → handed a tag action ≡ 0
handed-other a tag (answers response) ne = refl
handed-other a tag defers ne = ground (arith, nat_eq_iff a tag)

pub acting-InProcess :
    (s : Server) → Inv s → (tag : ℕ) → s.handler.acting ≡ some tag → InProcess s.handler tag
acting-InProcess s v tag q = elim (Option-cases (Dict.find tag s.handler.states)) [
  | inl e ↦ absurd (ground (arith, e, v.acting tag q))
  | inr (state, e) ↦ (state, e, ground (arith, e, v.acting tag q))
]

-- The state of a TakeAction is in PROCESS.
acting-process :
    (s : Server) (tag : ℕ) (state : HandlerState InferRequest InferResponse)
    → Inv s
    → s.handler.acting ≡ some tag
    → Dict.find tag s.handler.states ≡ some state
    → state.step ≡ process
acting-process s tag state v q found = ground (arith, found, v.acting tag q)

take_action-Inv :
    (s : Server) (tag : ℕ) (state : HandlerState InferRequest InferResponse)
    (core : InferenceCore ℕ) (ctx : Option (GrpcInferRequestContext ℕ))
    (action : Action InferResponse)
    → s.handler.acting ≡ some tag
    → Dict.find tag s.handler.states ≡ some state
    → infer_take_action s.core tag state.request state.response ≡ some (core, ctx, action)
    → Inv s
    → Inv (record s {
      core = core;
      handler = Handler.step blank s.handler (acted action);
      contexts = set_context tag ctx s.contexts;
    })
take_action-Inv s tag state core ctx action q found e v =
    let proc = acting-process s tag state v q found in
    let called = λ (a : ℕ).
      in_map-infer_take_action a tag s.core core state.request state.response ctx action v.opened
        e in
    let after = λ (a : ℕ). room-acted s.handler tag state found proc action a q in
    let (_, opened, made, is_made, new) = called tag in
    record {
      orderly = step-Orderly blank s.handler (acted action) (acting-InProcess s v) v.orderly;
      acting = λ t h. absurd (cc (h, (after tag).1));
      clear = acted-Clear s.handler tag state found proc action q v.clear;
      placed = λ a. omega (arith, v.placed a, (called a).0, (after a).0);
      opened = opened;
      bound = λ a. elim ((after a).2) [
        | inl z ↦ inl z
        | inr kept ↦ elim (Keys-cases tag a) [
          | inl same ↦ inr (record {
            state = state;
            found = kept ∙ ap (λ t. Dict.find t s.handler.states) (sym same) ∙ found;
            cleared = elim (v.clear tag state found) [
              | inl done ↦ absurd (cc (proc, done))
              | inr blank ↦ blank
            ];
            ctx = made;
            at =
                rw is_made (ground (arith, same, find-put tag a made s.contexts, nat_eq_iff tag a));
            made = subst (λ t. new_context state.request t ≡ returns made) same new;
          })
          | inr other ↦ elim (v.bound a) [
            | inl z ↦ inl (omega (arith, z, (after a).0, handed-other a tag action other))
            | inr was ↦ inr (
                Bound-same a s.handler.states _ s.contexts _ kept
                  (rw is_made
                    (ground (arith, find-put tag a made s.contexts, nat_eq_iff tag a, other)))
                  was)
          ]
        ]
      ];
    }

-- A step that changes only where payloads are, and completes `more`.
placed-Held :
    (s : Server) (core : InferenceCore ℕ) (retiring : List (SimpleScheduler ℕ ℕ × StopPhase))
    (lost : List ℕ) (more : ℕ → ℕ)
    → Inv s
    → AllOpen core.model_manager.model_map
    → ((a : ℕ)
        → in_map a core.model_manager.model_map + in_retiring a retiring + count a lost + more a
          ≡ places a s + count a s.lost)
    → Held (record s { core = core; retiring = retiring; lost = lost }) more
placed-Held s core retiring lost more v opened same = record {
  orderly = v.orderly;
  acting = v.acting;
  clear = v.clear;
  placed = λ a. omega (arith, v.placed a, same a);
  opened = opened;
  bound = v.bound;
}

stop_manager-AllOpen : (m : ModelManager ℕ) → AllOpen (stop_manager m).0.model_map
stop_manager-AllOpen m =
    let stopping = record m { running = false; updating = false } in
    unfold stop_manager in subst AllOpen (sym (cleared stopping m.model_map).0) tt

pub Step-Inv : {s s' : Server} → Step s s' → Inv s → Inv s'
Step-Inv (handler_next s i rpc_ok request) v = next-Inv s i rpc_ok request v
Step-Inv (take_action s tag state core ctx action q found e) v =
    take_action-Inv s tag state core ctx action q found e v
Step-Inv (runner_steps s s' name model i r status after r' c payload h ht hp e) v =
    let m = s.core.model_manager.model_map in
    let model' = record model { scheduler = moved after i r' } in
    finished-Inv _ s' c payload
      (placed-Held s _ s.retiring s.lost (λ a. completes a c) v
        (AllOpen-put m name model' v.opened (
          moved-IsOpen model.scheduler after i r r' status c model.scheduler.queue.buffer ht refl hp
            (AllOpen-find m name model v.opened h)))
        (λ a. omega (
          arith,
          in_map-put a m name model model' h,
          in_scheduler-process_step a model.scheduler after i r r' status c
              model.scheduler.queue.buffer ht refl hp,
        )))
      e
Step-Inv (retiring_runner_steps s s' j sched phase i r status after r' c payload h ht hp e) v =
    finished-Inv _ s' c payload
      (placed-Held s s.core _ s.lost (λ a. completes a c) v v.opened
        (λ a. omega (
          arith,
          in_retiring-set a s.retiring j sched (moved after i r') phase phase h,
          in_scheduler-process_step a sched after i r r' status c sched.queue.buffer ht refl hp,
        )))
      e
Step-Inv (retiring_stops s j sched phase toc after phase' h e) v =
    placed-Held s s.core _ s.lost (λ a. 0) v v.opened
      (λ a. omega (
        arith,
        in_retiring-set a s.retiring j sched after phase phase' h,
        in_scheduler-stop_step a sched after phase phase' toc e,
      ))
Step-Inv (retiring_ends s j sched status h) v =
    placed-Held s s.core _ (s.lost ++ payloads sched) (λ a. 0) v v.opened
      (λ a. omega (
        arith,
        in_retiring-remove_at a s.retiring j sched (returned status) h,
        count-append a s.lost (payloads sched),
        count-payloads a sched,
      ))
Step-Inv (reloads s w u e) v =
    placed-Held s _ _ s.lost (λ a. 0) v (apply_update-AllOpen w s.core.model_manager u v.opened)
      (λ a. omega (
        arith,
        in_map-apply_update a w s.core.model_manager u,
        in_retiring-append a s.retiring (
            retired
              (each (update_model w) (each (add_model w) s.core.model_manager u.added) u.updated)
              u.deleted),
      ))
Step-Inv (manager_stops s) v =
    placed-Held s _ _ s.lost (λ a. 0) v (stop_manager-AllOpen s.core.model_manager)
      (λ a. omega (
        arith,
        in_map-stop_manager a s.core.model_manager,
        in_retiring-append a s.retiring (all_retired s.core.model_manager.model_map),
        in_retiring-all_retired a s.core.model_manager.model_map,
      ))

started-Inv :
    (core : InferenceCore ℕ)
    → ((a : ℕ) → in_map a core.model_manager.model_map ≡ 0)
    → AllOpen core.model_manager.model_map
    → Inv (started core)
unfolding handle_events
started-Inv core vacant opened = record {
  orderly = handle_events-Orderly blank;
  acting = λ t q. absurd (cc q);
  clear = λ a state e. ground (arith, e);
  placed = λ a. ground (arith, vacant a);
  opened = opened;
  bound = λ a. inl (ground arith);
}

pub Reach-Inv : {s : Server} → Reach s → Inv s
Reach-Inv (here w cfg core e) =
    started-Inv _ (λ a. (new_core-IsVacant a w cfg core e).0) (new_core-IsVacant 0 w cfg core e).1
Reach-Inv (goes s s' r st) = Step-Inv st (Reach-Inv r)
