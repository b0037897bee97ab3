-- ===== src/Server/Room.antt =====
-- Which states of the InferHandler (src/core/server/grpc_server.cc) wait for the completion of their
-- payload: those in PROCESS that TakeAction has left.
use model_inference_server.Common.{
  ℕ, ◌+◌, ◌≤◌, ◌≡◌, ◌⊎◌, refl, inl, inr, Keys-cases, Bool, true, false, Bool-cases, Option, none,
  some, Option-cases, arith, occurs, ◌∷◌, get_elem?, remove_at, nat_key, nat_eq_iff, if◌then◌else◌,
}
use model_inference_server.Common.Dict
use model_inference_server.Common.Dict.{find-put, find-erase}
use model_inference_server.Proto.{InferRequest, InferResponse, empty_infer_response}
use model_inference_server.Handler
use model_inference_server.Handler.{
  CallStep, start, process, finish, HandlerState, Handler, next, acted, completed, answers, defers,
  Action, is_acting, start_new_request, state_release, on_completed, process_state, process_found,
  next_at, next_when,
}
use model_inference_server.Handler.Rpc.{Orderly, unused}
use model_inference_server.Server.{blank}
use model_inference_server.Server.Calls.{handed}

abbrev pub expecting : CallStep → ℕ
expecting process = 1
expecting _ = 0

abbrev pub waits_at : Option (HandlerState InferRequest InferResponse) → ℕ
waits_at none = 0
waits_at (some state) = expecting state.step

abbrev pub room : ℕ → Handler InferRequest InferResponse → ℕ
room a h = if is_acting a h.acting then 0 else waits_at (Dict.find a h.states)

-- A state that TakeAction is called with is in PROCESS.
abbrev pub Acting : Handler InferRequest InferResponse → Type 0
Acting h = (tag : ℕ) → h.acting ≡ some tag → waits_at (Dict.find tag h.states) ≡ 1

-- The response of a state that was not answered is as it was cleared.
abbrev pub Clear : Handler InferRequest InferResponse → Type 0
Clear h =
    (a : ℕ) (state : HandlerState InferRequest InferResponse)
    → Dict.find a h.states ≡ some state
    → (state.step ≡ finish) ⊎ (state.response ≡ empty_infer_response)

-- A step after which the same states wait, as they were.
abbrev pub SameRoom :
    Handler InferRequest InferResponse → Handler InferRequest InferResponse → Type 0
SameRoom h h' =
    ((a : ℕ)
      → (room a h' ≡ room a h) × ((room a h ≡ 0) ⊎ (Dict.find a h'.states ≡ Dict.find a h.states)))
    × Acting h'
    × Clear h'

module _ (h : Handler InferRequest InferResponse) (v : Orderly h) (clear : Clear h)
    (idle : h.acting ≡ none) where
  begin-SameRoom :
      (tag : ℕ) (state : HandlerState InferRequest InferResponse) (request : InferRequest) (i : ℕ)
      → Dict.find tag h.states ≡ some state
      → state.step ≡ start
      → SameRoom h (
          process_state blank tag true request state start
            (record h { queue = remove_at h.queue i }))
  unfolding process_state start_new_request
  begin-SameRoom tag state request i e st =
      let begun = record state { step = CallStep.process; request = request } in
      let states = (h.next_address, blank) ∷ h.states in
      let free =
        unused h h.next_address (Dict.find h.next_address h.states) refl (v.fits h.next_address)
          (omega arith) in
      (
        (λ a. (
          ground (
            arith,
            e,
            st,
            idle,
            free,
            find-put tag a begun states,
            nat_eq_iff tag a,
            nat_eq_iff h.next_address a,
          ),
          ground (
            arith,
            e,
            st,
            idle,
            free,
            find-put tag a begun states,
            nat_eq_iff tag a,
            nat_eq_iff h.next_address a,
          ),
        )),
        (λ t q. ground (arith, q, find-put tag t begun states, nat_eq_iff tag t)),
        λ a s q. ground (
          arith,
          q,
          e,
          st,
          clear tag state e,
          clear a s,
          find-put tag a begun states,
          nat_eq_iff tag a,
          nat_eq_iff h.next_address a,
        ),
      )

  release-SameRoom :
      (tag : ℕ) (state : HandlerState InferRequest InferResponse) (i : ℕ)
      → Dict.find tag h.states ≡ some state
      → expecting state.step ≡ 0
      → SameRoom h (state_release tag (record h { queue = remove_at h.queue i }))
  unfolding state_release
  release-SameRoom tag state i e st = (
    (λ a. (
      ground (arith, e, st, idle, find-erase tag a h.states v.ok, nat_eq_iff tag a),
      ground (arith, e, st, idle, find-erase tag a h.states v.ok, nat_eq_iff tag a),
    )),
    (λ t q. absurd (cc (q, idle))),
    λ a s q. ground (arith, q, clear a s, find-erase tag a h.states v.ok, nat_eq_iff tag a),
  )

  process_state-SameRoom :
      (tag : ℕ) (rpc_ok : Bool) (request : InferRequest)
      (state : HandlerState InferRequest InferResponse) (s : CallStep) (i : ℕ)
      → Dict.find tag h.states ≡ some state
      → state.step ≡ s
      → SameRoom h (
          process_state blank tag rpc_ok request state s (record h { queue = remove_at h.queue i }))
  unfolding process_state
  process_state-SameRoom tag true request state start i e st =
      begin-SameRoom tag state request i e st
  process_state-SameRoom tag false request state start i e st =
      release-SameRoom tag state i e (rw st refl)
  process_state-SameRoom tag rpc_ok request state process i e st =
      ((λ a. (refl, inr refl)), (λ t q. absurd (cc (q, idle))), clear)
  process_state-SameRoom tag rpc_ok request state finish i e st =
      release-SameRoom tag state i e (rw st refl)

  next_at-SameRoom :
      (i : ℕ) (rpc_ok : Bool) (request : InferRequest) (o : Option ℕ)
      → SameRoom h (next_at blank i rpc_ok request o h)
  next_at-SameRoom i rpc_ok request none =
      ((λ a. (refl, inr refl)), (λ t q. absurd (cc (q, idle))), clear)
  next_at-SameRoom i rpc_ok request (some tag) = found (Dict.find tag h.states) refl
    where
      found :
          (o : Option (HandlerState InferRequest InferResponse))
          → Dict.find tag h.states ≡ o
          → SameRoom h
              (process_found blank tag rpc_ok request o (record h { queue = remove_at h.queue i }))
      found none e = ((λ a. (refl, inr refl)), (λ t q. absurd (cc (q, idle))), clear)
      found (some state) e = process_state-SameRoom tag rpc_ok request state state.step i e refl

-- Next, and Process, change no state that waits.
pub next-SameRoom :
    (h : Handler InferRequest InferResponse) (i : ℕ) (rpc_ok : Bool) (request : InferRequest)
    → Orderly h
    → Acting h
    → Clear h
    → SameRoom h (Handler.step blank h (next i rpc_ok request))
unfolding Handler.step
next-SameRoom h i rpc_ok request v acting clear = idles h.acting refl
  where
    idles : (o : Option ℕ) → h.acting ≡ o → SameRoom h (next_when blank i rpc_ok request o h)
    idles none e = next_at-SameRoom h v clear e i rpc_ok request (get_elem? h.queue i)
    idles (some tag) e = ((λ a. (refl, inr refl)), acting, clear)

module _ (h : Handler InferRequest InferResponse) (tag : ℕ)
    (state : HandlerState InferRequest InferResponse) (found : Dict.find tag h.states ≡ some state)
    (proc : state.step ≡ process) where
  -- TakeAction returns.
  pub room-acted :
      (action : Action InferResponse) (a : ℕ)
      → h.acting ≡ some tag
      → let h' = Handler.step blank h (acted action) in
        (room a h' ≡ room a h + handed a tag action)
        × (h'.acting ≡ none)
        × ((room a h' ≡ 0) ⊎ (Dict.find a h'.states ≡ Dict.find a h.states))
  unfolding Handler.step on_completed
  room-acted defers a q = (
    ground (arith, q, found, proc, nat_eq_iff tag a, nat_eq_iff a tag),
    ground arith,
    inr (ground arith),
  )
  room-acted (answers response) a q =
      let done = record state { step = CallStep.finish; response = response } in
      (
        ground (arith, q, found, proc, nat_eq_iff tag a, find-put tag a done h.states),
        ground (arith, q, found, proc),
        ground (arith, q, found, proc, nat_eq_iff tag a, find-put tag a done h.states),
      )

  pub acted-Clear :
      (action : Action InferResponse)
      → h.acting ≡ some tag
      → Clear h
      → Clear (Handler.step blank h (acted action))
  unfolding Handler.step on_completed
  acted-Clear defers q clear a s e = ground (arith, clear a s, e, q)
  acted-Clear (answers response) q clear a s e =
      let done = record state { step = CallStep.finish; response = response } in
      ground (arith, clear a s, e, q, found, proc, nat_eq_iff tag a, find-put tag a done h.states)

  pub completed-Clear :
      (response : InferResponse)
      → is_acting tag h.acting ≡ false
      → Clear h
      → Clear (Handler.step blank h (completed tag response))
  unfolding Handler.step on_completed
  completed-Clear response q clear a s e =
      let done = record state { step = CallStep.finish; response = response } in
      ground (arith, clear a s, e, q, found, proc, nat_eq_iff tag a, find-put tag a done h.states)

  pub completed-finished :
      (response : InferResponse)
      → is_acting tag h.acting ≡ false
      → (Handler.step blank h (completed tag response)).finished ≡ (tag, response) ∷ h.finished
  unfolding Handler.step on_completed
  completed-finished response q = ground (arith, q, found, proc)

  -- OnCompleted of a state that waits.
  pub room-completed :
      (response : InferResponse) (a : ℕ)
      → is_acting tag h.acting ≡ false
      → (room a (Handler.step blank h (completed tag response)) + occurs a tag ≡ room a h)
        × ((Handler.step blank h (completed tag response)).acting ≡ h.acting)
        × ((tag ≡ a)
            ⊎ (Dict.find a (Handler.step blank h (completed tag response)).states
                ≡ Dict.find a h.states))
  unfolding Handler.step on_completed
  room-completed response a q =
      let done = record state { step = CallStep.finish; response = response } in
      (
        ground (
          arith,
          q,
          found,
          proc,
          nat_eq_iff tag a,
          nat_eq_iff a tag,
          find-put tag a done h.states,
        ),
        ground (arith, q, found, proc),
        elim (Keys-cases tag a) [
          | inl same ↦ inl same
          | inr other ↦
              inr (ground (arith, q, found, proc, nat_eq_iff tag a, find-put tag a done h.states))
        ],
      )

-- A state that waits.
pub room-state :
    (h : Handler InferRequest InferResponse) (a : ℕ)
    → 1 ≤ room a h
    → (is_acting a h.acting ≡ false)
      × (state : HandlerState InferRequest InferResponse) × (Dict.find a h.states ≡ some state)
      × (state.step ≡ process)
room-state h a le = elim (Bool-cases (is_acting a h.acting)) [
  | inl busy ↦ absurd (ground (arith, busy, le))
  | inr idle ↦ elim (Option-cases (Dict.find a h.states)) [
    | inl e ↦ absurd (ground (arith, idle, e, le))
    | inr (state, e) ↦ (idle, state, e, ground (arith, idle, e, le))
  ]
]

pub room_bound : (h : Handler InferRequest InferResponse) (a : ℕ) → room a h ≤ 1
room_bound h a = ground arith
