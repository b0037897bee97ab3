-- ===== src/Handler/Once.antt =====
-- How often the state of an RPC is answered and released (src/core/server/grpc_server.cc), from event to event.
use model_inference_server.Common.{
  ℕ, ◌≤◌, ◌≡◌, refl, ◌⊎◌, inl, inr, Bool, Option, none, some, arith, get_elem?, remove_at, count,
  count-remove_at, nat_key, nat_eq_iff,
}
use model_inference_server.Common.Dict
use model_inference_server.Common.Dict.{
  Dict, IsDict, find-put, find-erase, put-IsDict, erase-IsDict,
}
use model_inference_server.Handler.{
  HandlerState, Handler, Action, answers, defers, Event, next, acted, completed, times,
  process_found, next_at, next_when, acted_on, step, handle_events,
}
use model_inference_server.Handler.Rpc.{
  Orderly, Fits, pending, ended, start_new_request-Orderly, complete_at-Orderly, acting-Orderly,
  process_state-Orderly, InProcess,
}

module _ {Request Response : Type 0} where
  next_at-Orderly :
      (blank : HandlerState Request Response) (i : ℕ) (ok : Bool) (request : Request) (o : Option ℕ)
      (h : Handler Request Response)
      → Orderly h
      → get_elem? h.queue i ≡ o
      → Orderly (next_at blank i ok request o h)
  next_at-Orderly blank i ok request none h v q = v
  next_at-Orderly blank i ok request (some tag) h v q = found (Dict.find tag h.states) refl
    where
      found :
          (o : Option (HandlerState Request Response))
          → Dict.find tag h.states ≡ o
          → Orderly
              (process_found blank tag ok request o (record h { queue = remove_at h.queue i }))
      found none e =
          absurd
            (ground (arith, e, v.fits tag, nat_eq_iff tag tag, count-remove_at tag tag h.queue i q))
      found (some state) e =
          process_state-Orderly blank tag ok request state state.step h i v q e refl

  next_when-Orderly :
      (blank : HandlerState Request Response) (i : ℕ) (ok : Bool) (request : Request) (o : Option ℕ)
      (h : Handler Request Response)
      → Orderly h
      → Orderly (next_when blank i ok request o h)
  next_when-Orderly blank i ok request none h v =
      next_at-Orderly blank i ok request (get_elem? h.queue i) h v refl
  next_when-Orderly blank i ok request (some a) h v = v

  -- An event completes a state only in PROCESS.
  abbrev pub Proper : Handler Request Response → Event Request Response → Type 0
  Proper h (next i ok request) = Unit
  Proper h (acted action) = (tag : ℕ) → h.acting ≡ some tag → InProcess h tag
  Proper h (completed tag response) = InProcess h tag

  acted_on-Orderly :
      (action : Action Response) (o : Option ℕ) (h : Handler Request Response)
      → ((tag : ℕ) → o ≡ some tag → InProcess h tag)
      → Orderly h
      → Orderly (acted_on action o h)
  acted_on-Orderly action none h p v = v
  acted_on-Orderly (answers response) (some tag) h p v =
      complete_at-Orderly tag response (record h { acting = none }) (acting-Orderly none v)
        (p tag refl)
  acted_on-Orderly defers (some tag) h p v = acting-Orderly none v

  pub step-Orderly :
      (blank : HandlerState Request Response) (h : Handler Request Response)
      (ev : Event Request Response)
      → Proper h ev
      → Orderly h
      → Orderly (step blank h ev)
  unfolding step
  step-Orderly blank h (next i ok request) p v = next_when-Orderly blank i ok request h.acting h v
  step-Orderly blank h (acted action) p v = acted_on-Orderly action h.acting h p v
  step-Orderly blank h (completed tag response) p v = complete_at-Orderly tag response h v p

  pub handle_events-Orderly :
      (blank : HandlerState Request Response) → Orderly (handle_events blank)
  unfolding handle_events
  handle_events-Orderly blank =
      start_new_request-Orderly blank _
        (record { ok = tt; fits = λ a. (refl, omega arith, omega arith, inr (refl, refl)) })

  -- What is known of an address: no state, no operation in the queue, and at most one answer; or a
  -- state, whose step says whether it has an operation in the queue, and was answered.
  abbrev pub RpcCases : Handler Request Response → ℕ → Type 0
  RpcCases h tag =
      ((Dict.find tag h.states ≡ none) × (count tag h.queue ≡ 0) × (times tag h.finished ≤ 1))
      ⊎ ((state : HandlerState Request Response) × (Dict.find tag h.states ≡ some state)
          × (count tag h.queue ≡ pending state.step)
          × (times tag h.finished ≡ ended state.step))

  pub settled :
      (h : Handler Request Response) (tag : ℕ) (o : Option (HandlerState Request Response))
      → Dict.find tag h.states ≡ o
      → Fits h tag o
      → RpcCases h tag
  settled h tag none e f = inl (e, omega (arith, f), omega (arith, f))
  settled h tag (some state) e f = inr (state, e, omega (arith, f), omega (arith, f))
