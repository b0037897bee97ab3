-- ===== src/Handler/Listening.antt =====
-- A Handler (src/core/server/grpc_server.cc) keeps a request outstanding until its queue shuts
-- down.
use model_inference_server.Common.{
  ℕ, ◌<◌, ◌≡◌, refl, ◌≢◌, ◌∙◌, Bool, true, false, Option, none, some, List, ◌∷◌, arith, get_elem?,
  remove_at, count, nat_key, nat_eq_iff,
}
use model_inference_server.Common.Dict
use model_inference_server.Common.Dict.{
  Dict, IsDict, find-put, find-erase, put-IsDict, erase-IsDict,
}
use model_inference_server.Handler.{
  CallStep, start, process, finish, HandlerState, Handler, Action, answers, defers, Event, next,
  acted, completed, start_new_request, state_release, on_completed, process_state, process_found,
  next_at, next_when, complete_at, acted_on, begin_action, step, handle_events,
}
use model_inference_server.Handler.Rpc.{pending, Orderly, InProcess}
use model_inference_server.Handler.Once.{Proper}

module _ {Request Response : Type 0} where
  -- Some state waits for a request.
  pub record Listening (h : Handler Request Response) : Type 0 where
    pub tag : ℕ
    pub state : HandlerState Request Response
    pub at : Dict.find tag h.states ≡ some state
    pub waits : state.step ≡ start

  -- An operation for which a state waits for its request comes back with `ok`: else the queue shuts
  -- down.
  abbrev pub StillUp : Handler Request Response → Event Request Response → Type 0
  StillUp h (next i ok request) =
      (tag : ℕ) (state : HandlerState Request Response)
      → get_elem? h.queue i ≡ some tag
      → Dict.find tag h.states ≡ some state
      → state.step ≡ start
      → ok ≡ true
  StillUp h _ = Unit

  new_request-Listening :
      (blank : HandlerState Request Response) (h : Handler Request Response)
      → Listening (start_new_request blank h)
  unfolding start_new_request
  new_request-Listening blank h = record {
    tag = h.next_address;
    state = record blank { step = CallStep.start };
    at = ground (arith, nat_eq_iff h.next_address h.next_address);
    waits = refl;
  }

  put-Listening :
      {h : Handler Request Response} (l : Listening h) (tag : ℕ)
      (state : HandlerState Request Response) (old : HandlerState Request Response)
      → Dict.find tag h.states ≡ some old
      → old.step ≢ start
      → (q : List ℕ) (f : List (ℕ × Response)) (o : Option ℕ)
      → Listening
          (record h { states = Dict.put tag state h.states; queue = q; finished = f; acting = o })
  put-Listening {h} l tag state old e ne q f o = record {
    tag = l.tag;
    state = l.state;
    at = find-put tag l.tag state h.states ∙ ground (arith, l.at, l.waits, nat_eq_iff tag l.tag);
    waits = l.waits;
  }

  begun-Listening :
      (blank : HandlerState Request Response) (tag : ℕ) (state : HandlerState Request Response)
      (request : Request) (h : Handler Request Response) (q : List ℕ)
      → tag < h.next_address
      → Listening
          (begin_action tag state request (start_new_request blank (record h { queue = q })))
  unfolding start_new_request
  begun-Listening blank tag state request h q lt =
      let begun = record state { step = CallStep.process; request = request } in
      let waiting = record blank { step = CallStep.start } in
      record {
        tag = h.next_address;
        state = waiting;
        at =
            find-put tag h.next_address begun ((h.next_address, waiting) ∷ h.states)
            ∙ ground
                (arith, nat_eq_iff tag h.next_address, nat_eq_iff h.next_address h.next_address);
        waits = refl;
      }

  known :
      (h : Handler Request Response) (tag : ℕ) (state : HandlerState Request Response)
      → Orderly h
      → Dict.find tag h.states ≡ some state
      → tag < h.next_address
  known h tag state v e = ground (arith, e, v.fits tag)

  processed-Listening :
      (blank : HandlerState Request Response) (tag : ℕ) (ok : Bool) (request : Request)
      (state : HandlerState Request Response) (s : CallStep) (h : Handler Request Response)
      (q : List ℕ)
      → (s ≡ start → ok ≡ true)
      → Orderly h
      → Listening h
      → Dict.find tag h.states ≡ some state
      → state.step ≡ s
      → Listening (process_state blank tag ok request state s (record h { queue = q }))
  unfolding process_state state_release
  processed-Listening blank tag true request state start h q up v l e st =
      begun-Listening blank tag state request h q (known h tag state v e)
  processed-Listening blank tag false request state start h q up v l e st = absurd (cc (up refl))
  processed-Listening blank tag ok request state process h q up v l e st = record {
    tag = l.tag;
    state = l.state;
    at = l.at;
    waits = l.waits;
  }
  processed-Listening blank tag ok request state finish h q up v l e st = record {
    tag = l.tag;
    state = l.state;
    at = find-erase tag l.tag h.states v.ok ∙ ground (arith, l.at, l.waits, nat_eq_iff tag l.tag);
    waits = l.waits;
  }

  next-Listening :
      (blank : HandlerState Request Response) (i : ℕ) (ok : Bool) (request : Request) (o : Option ℕ)
      (h : Handler Request Response)
      → StillUp h (next i ok request)
      → Orderly h
      → Listening h
      → get_elem? h.queue i ≡ o
      → Listening (next_at blank i ok request o h)
  next-Listening blank i ok request none h up v l q = l
  next-Listening blank i ok request (some tag) h up v l q = found (Dict.find tag h.states) refl
    where
      found :
          (o : Option (HandlerState Request Response))
          → Dict.find tag h.states ≡ o
          → Listening
              (process_found blank tag ok request o (record h { queue = remove_at h.queue i }))
      found none e = record { tag = l.tag; state = l.state; at = l.at; waits = l.waits }
      found (some state) e =
          processed-Listening blank tag ok request state state.step h (remove_at h.queue i)
            (up tag state q e) v l e refl

  next_when-Listening :
      (blank : HandlerState Request Response) (i : ℕ) (ok : Bool) (request : Request) (o : Option ℕ)
      (h : Handler Request Response)
      → StillUp h (next i ok request)
      → Orderly h
      → Listening h
      → Listening (next_when blank i ok request o h)
  next_when-Listening blank i ok request none h up v l =
      next-Listening blank i ok request (get_elem? h.queue i) h up v l refl
  next_when-Listening blank i ok request (some a) h up v l = l

  complete_at-Listening :
      (tag : ℕ) (response : Response) (h : Handler Request Response)
      → Listening h
      → InProcess h tag
      → Listening (complete_at tag response (Dict.find tag h.states) h)
  unfolding on_completed
  complete_at-Listening tag response h l (state, e, st) =
      rw e (put-Listening l tag _ state e (λ z. cc (z, st)) _ _ h.acting)

  idle-Listening :
      {h : Handler Request Response} (l : Listening h) → Listening (record h { acting = none })
  idle-Listening l = record { tag = l.tag; state = l.state; at = l.at; waits = l.waits }

  acted-Listening :
      (action : Action Response) (o : Option ℕ) (h : Handler Request Response)
      → ((tag : ℕ) → o ≡ some tag → InProcess h tag)
      → Listening h
      → Listening (acted_on action o h)
  acted-Listening action none h p l = l
  acted-Listening (answers response) (some tag) h p l =
      complete_at-Listening tag response (record h { acting = none }) (idle-Listening l)
        (p tag refl)
  acted-Listening defers (some tag) h p l = idle-Listening l

  pub step-Listening :
      (blank : HandlerState Request Response) (h : Handler Request Response)
      (ev : Event Request Response)
      → StillUp h ev
      → Proper h ev
      → Orderly h
      → Listening h
      → Listening (step blank h ev)
  unfolding step
  step-Listening blank h (next i ok request) up p v l =
      next_when-Listening blank i ok request h.acting h up v l
  step-Listening blank h (acted action) up p v l = acted-Listening action h.acting h p l
  step-Listening blank h (completed tag response) up p v l =
      complete_at-Listening tag response h l p

  pub queued :
      {h : Handler Request Response} (l : Listening h) → Orderly h → count l.tag h.queue ≡ 1
  unfolding pending
  queued {h} l v = ground (arith, l.at, l.waits, v.fits l.tag)

  pub handle_events-Listening :
      (blank : HandlerState Request Response) → Listening (handle_events blank)
  unfolding handle_events
  handle_events-Listening blank = new_request-Listening blank _
