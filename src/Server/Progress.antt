-- ===== src/Server/Progress.antt =====
-- The server put together (src/core/scheduler/simple_scheduler.cc, src/core/server/grpc_server.cc) can go on
-- until a payload is answered.
use model_inference_server.Common.{
  ℕ, ◌+◌, suc, ◌≤◌, ◌≡◌, refl, subst, inl, inr, ◌≢◌, some, List, [], ◌∷◌, count, occurs,
  Option-cases, arith, get_elem?, Keys-cases, String, nat_key, string_key, nat_eq_iff,
}
use model_inference_server.Common.Dict
use model_inference_server.Common.Dict.{Dict, find-put}
use model_inference_server.Status.{Status, success}
use model_inference_server.Proto.{InferResponse, InferRequest}
use model_inference_server.Payload.{InferencePayload}
use model_inference_server.Scheduler.{Runner, testing, popping, ready, calling, exited}
use model_inference_server.Scheduler.Delivery.{has, held}
use model_inference_server.Manager.{ModelRunContext}
use model_inference_server.Handler.{Handler, times}
use model_inference_server.Server.{Server, Reach}
use model_inference_server.Server.Steps.{Reach-Inv}
use model_inference_server.Server.Places.{in_scheduler}
use model_inference_server.Handler.Rpc.{Orderly, ended}
use model_inference_server.Server.Lost.{Later}
use model_inference_server.Server.Onward.{
  Later-trans, At, exits-at, opened, tests, pops, takes, calls,
}

-- A payload that is with a runner is with the one at some place.
held-at :
    (a : ℕ) (rs : List (Runner ℕ ℕ))
    → 1 ≤ held a rs
    → (j : ℕ) × (r : Runner ℕ ℕ) × (get_elem? rs j ≡ some r) × (1 ≤ has a r)
held-at a [] le = absurd (omega (arith, le))
held-at a (r ∷ rs) le = elim (Keys-cases (has a r) 0) [
  | inr ne ↦ (0, r, refl, omega (arith, ne))
  | inl e ↦ let (j, r', at, has_it) = held-at a rs (omega (arith, le, e)) in (suc j, r', at, has_it)
]

once :
    (h : Handler InferRequest InferResponse) (tag : ℕ)
    → Orderly h
    → 1 ≤ times tag h.finished
    → times tag h.finished ≡ 1
unfolding ended
once h tag v le = elim (Option-cases (Dict.find tag h.states)) [
  | inl e ↦ ground (arith, v.fits tag, e, le)
  | inr (state, e) ↦ ground (arith, v.fits tag, e, le)
]

abbrev Answered : Server → ℕ → Type 0
Answered s tag = (s' : Server) × Reach s' × Later s s' × (1 ≤ times tag s'.handler.finished)

module _ (name : String) (i : ℕ) (status : Status) (bad : status ≢ success)
    (payload : InferencePayload ℕ) where
  -- A runner that pops takes what is in the queue, one payload after the other.
  answers_next :
      (s : Server) (tag p : ℕ) (b : List ℕ)
      → ((t : Server) → At t name i testing b → 1 ≤ count tag b → Answered t tag)
      → At s name i popping (p ∷ b)
      → 1 ≤ count tag (p ∷ b)
      → Answered s tag
  answers_next s tag p b rest a le =
      let (s1, l1, a1) = pops name i s p b payload a in
      let (f, (s2, l2, a2)) = takes name i s1 p b payload a1 in
      let (s3, l3, a3, done) = calls name i status bad payload s2 p f b a2 in
      let l = Later-trans l1 (Later-trans l2 l3) in
      elim (Keys-cases p tag) [
        | inl e ↦ (s3, a3.reach, l, subst (λ t. 1 ≤ times t s3.handler.finished) e done)
        | inr ne ↦
            let (s4, r4, l4, fin) = rest s3 a3 (ground (arith, le, ne, nat_eq_iff tag p)) in
            (s4, r4, Later-trans l l4, fin)
      ]

  answers_queued :
      (s : Server) (tag : ℕ) (b : List ℕ) → At s name i testing b → 1 ≤ count tag b → Answered s tag
  answers_queued s tag [] a le = absurd (omega (arith, le))
  answers_queued s tag (p ∷ b) a le =
      let (s1, l1, a1) = tests name i s (p ∷ b) payload a in
      let (s2, r2, l2, fin) =
        answers_next s1 tag p b (λ t a' le'. answers_queued t tag b a' le') a1 le in
      (s2, r2, Later-trans l1 l2, fin)

  onward : (s s' : Server) (tag : ℕ) → Later s s' → Answered s' tag → Answered s tag
  onward s s' tag l (s2, r2, l2, fin) = (s2, r2, Later-trans l l2, fin)

  answers_call :
      (s : Server) (tag p f : ℕ) (b : List ℕ)
      → At s name i (calling p f) b
      → 1 ≤ occurs tag p + count tag b
      → Answered s tag
  answers_call s tag p f b a le =
      let (s1, l1, a1, done) = calls name i status bad payload s p f b a in
      elim (Keys-cases p tag) [
        | inl e ↦ (s1, a1.reach, l1, subst (λ t. 1 ≤ times t s1.handler.finished) e done)
        | inr ne ↦
            onward s s1 tag l1
              (answers_queued s1 tag b a1 (ground (arith, le, ne, nat_eq_iff tag p)))
      ]

  -- From wherever the runner stands.
  answers_from :
      (s : Server) (tag : ℕ) (r : Runner ℕ ℕ) (b : List ℕ)
      → At s name i r b
      → 1 ≤ has tag r + count tag b
      → Answered s tag
  answers_from s tag testing b a le = answers_queued s tag b a (omega (arith, le))
  answers_from s tag popping [] a le = absurd (omega (arith, le))
  answers_from s tag popping (p ∷ b) a le =
      answers_next s tag p b (λ t a' le'. answers_queued t tag b a' le') a (omega (arith, le))
  answers_from s tag (ready p) b a le =
      let (f, (s1, l1, a1)) = takes name i s p b payload a in
      onward s s1 tag l1 (answers_call s1 tag p f b a1 le)
  answers_from s tag (calling p f) b a le = answers_call s tag p f b a le
  answers_from s tag exited b a le =
      let (open_queue, running, none_left) = opened name i s exited b a in
      absurd (omega (arith, exits-at a.model.scheduler.threads i a.runner, none_left))

-- The server does not get stuck: from every state that it can come to, and for each payload that is in
-- the queue of a loaded model which has a runner, or with one of the model's runners, there are steps
-- after which its RPC was answered, once; even if each call of the backend returns `status`, which is
-- not Success, and leaves `payload`.
pub can_be_answered :
    (s : Server) (name : String) (model : ModelRunContext ℕ) (i : ℕ) (r : Runner ℕ ℕ) (tag : ℕ)
    (status : Status) (payload : InferencePayload ℕ)
    → Reach s
    → Dict.find name s.core.model_manager.model_map ≡ some model
    → get_elem? model.scheduler.threads i ≡ some r
    → 1 ≤ in_scheduler tag model.scheduler
    → status ≢ success
    → (s' : Server) × Later s s' × (times tag s'.handler.finished ≡ 1)
can_be_answered s name model i r tag status payload reach found runner le bad =
    let at = λ (j : ℕ) (r' : Runner ℕ ℕ) (h : get_elem? model.scheduler.threads j ≡ some r').
      let a : At s name j r' model.scheduler.queue.buffer = record {
        reach = reach;
        model = model;
        found = found;
        runner = h;
        queued = refl;
      } in
      a in
    let got : Answered s tag = elim (Keys-cases (count tag model.scheduler.queue.buffer) 0) [
      | inr ne ↦
          answers_from name i status bad payload s tag r _ (at i r runner) (omega (arith, ne))
      | inl e ↦
          let (j, r', h, has_it) = held-at tag model.scheduler.threads (omega (arith, le, e)) in
          answers_from name j status bad payload s tag r' _ (at j r' h) (omega (arith, has_it))
    ] in
    let (s', r', l, fin) = got in (s', l, once s'.handler tag (Reach-Inv r').orderly fin)
