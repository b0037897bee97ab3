-- ===== src/Examples/Rpcs.antt =====
-- One inference request, from the infer handler's view (src/core/server/grpc_server.cc).
use model_inference_server.Common.{ℕ, ◌≤◌, ◌≡◌, ◌⊎◌, refl, some, none, true, count, nat_key}
use model_inference_server.Common.Dict
use model_inference_server.Proto.{InferRequest, InferResponse}
use model_inference_server.Handler.{start, HandlerState, times}
use model_inference_server.Handler.Rpc.{pending, ended}
use model_inference_server.Server.{handler_next, take_action}
use model_inference_server.Server.Rpcs.{Reach-rpc_cases, ReachUp, starts, steps, keeps_listening}
use model_inference_server.Examples.Manager.{world, server_cfg}
use model_inference_server.Examples.Server.{core, core-made}
use model_inference_server.Examples.Serving.{
  s0, s1, s2, asked, taken, request, first_taken, Reach-s2,
}

Reach-rpc_cases_example :
    ((Dict.find {K = ℕ} 0 s2.handler.states ≡ none)
      × (count {A = ℕ} 0 s2.handler.queue ≡ 0)
      × (times 0 s2.handler.finished ≤ 1))
    ⊎ ((state : HandlerState InferRequest InferResponse) × (Dict.find 0 s2.handler.states
          ≡ some state)
        × (count 0 s2.handler.queue ≡ pending state.step)
        × (times 0 s2.handler.finished ≡ ended state.step))
Reach-rpc_cases_example = Reach-rpc_cases s2 0 Reach-s2

ReachUp-s2 : ReachUp s2
ReachUp-s2 =
    let (acting, found, result) = first_taken in
    steps s1 s2
      (steps s0 s1 (starts world (some server_cfg) core core-made) (handler_next s0 0 true request)
        (λ tag state q f w. refl))
      (take_action s1 0 asked taken.0 taken.1 taken.2 acting found result) tt

keeps_listening_example :
    (tag : ℕ) × (state : HandlerState InferRequest InferResponse) × (Dict.find tag s2.handler.states
      ≡ some state)
    × (state.step ≡ start)
    × (count tag s2.handler.queue ≡ 1)
keeps_listening_example = keeps_listening s2 ReachUp-s2
