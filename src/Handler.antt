-- ===== src/Handler.antt =====
-- src/core/server/grpc_server.{h,cc}: Handler, with its HandlerState, and the event loop of its
-- thread. States are allocated with `new` and stand on an explicit heap; a tag is the address of one.
-- The completion queue is gRPC's: `queue` holds the tags of the operations started on it, each of
-- which Next returns once, in any order, with the flag and the request that the library filled in.
pub mod Rpc
pub mod Once
pub mod Listening
pub mod Actions
use model_inference_server.Common.{
  ℕ, suc, ◌+◌, Bool, true, false, Option, none, some, List, [], ◌∷◌, ◌++◌, get_elem?, remove_at,
  occurs, if◌then◌else◌, nat_key, nat_eq,
}
use model_inference_server.Common.Dict
use model_inference_server.Common.Dict.{Dict}

pub data CallStep : Type 0 where
  start : CallStep
  process : CallStep
  finish : CallStep

pub record HandlerState (Request Response : Type 0) : Type 0 where
  pub step : CallStep
  pub request : Request
  pub response : Response

-- `finished` is the log of the calls of responder_->Finish, the newest first. `acting` is the state
-- that the thread is in TakeAction of; it is in Next if there is none.
pub record Handler (Request Response : Type 0) : Type 0 where
  pub states : Dict ℕ (HandlerState Request Response)
  pub next_address : ℕ
  pub queue : List ℕ
  pub finished : List (ℕ × Response)
  pub acting : Option ℕ

-- What a TakeAction does with its state: it calls OnCompleted with a response, or leaves that to a
-- callback that it handed over.
pub data Action (Response : Type 0) : Type 0 where
  answers : Response → Action Response
  defers : Action Response

-- Next returns an operation, with `ok` and the request; TakeAction returns; a callback that was
-- handed over runs OnCompleted.
pub data Event (Request Response : Type 0) : Type 0 where
  next : ℕ → Bool → Request → Event Request Response
  acted : Action Response → Event Request Response
  completed : ℕ → Response → Event Request Response

abbrev pub is_acting : ℕ → Option ℕ → Bool
is_acting tag none = false
is_acting tag (some a) = nat_eq a tag

-- How often Finish was called for a state.
abbrev pub times : {Response : Type 0} → ℕ → List (ℕ × Response) → ℕ
times a [] = 0
times a ((tag, response) ∷ rest) = occurs a tag + times a rest

module _ {Request Response : Type 0} where
  -- StateNew, and RequestInfer, RequestStatus or RequestHealth with the state as the tag. `blank`
  -- holds the cleared messages.
  unfoldable pub start_new_request :
      HandlerState Request Response → Handler Request Response → Handler Request Response
  start_new_request blank h = record h {
    states = (h.next_address, record blank { step = CallStep.start }) ∷ h.states;
    next_address = suc h.next_address;
    queue = h.next_address ∷ h.queue;
  }

  -- StateRelease
  unfoldable pub state_release : ℕ → Handler Request Response → Handler Request Response
  state_release tag h = record h { states = Dict.erase tag h.states }

  -- HandlerState::OnCompleted of a state with its response filled in.
  unfoldable pub on_completed :
      ℕ
      → HandlerState Request Response
      → Response
      → Handler Request Response
      → Handler Request Response
  on_completed tag state response h = record h {
    states = Dict.put tag (record state { step = CallStep.finish; response = response }) h.states;
    queue = tag ∷ h.queue;
    finished = (tag, response) ∷ h.finished;
  }

  -- step_ = PROCESS, and the call of TakeAction begins.
  abbrev pub begin_action :
      ℕ
      → HandlerState Request Response
      → Request
      → Handler Request Response
      → Handler Request Response
  begin_action tag state request h = record h {
    states = Dict.put tag (record state { step = CallStep.process; request = request }) h.states;
    acting = some tag;
  }

  -- Process, by the step of the state. With START and no `ok` the queue shuts down.
  unfoldable pub process_state :
      HandlerState Request Response
      → ℕ
      → Bool
      → Request
      → HandlerState Request Response
      → CallStep
      → Handler Request Response
      → Handler Request Response
  unfolding start_new_request state_release
  process_state blank tag rpc_ok request state start h =
      if rpc_ok
      then begin_action tag state request (start_new_request blank h)
      else state_release tag h
  process_state blank tag rpc_ok request state process h = h
  process_state blank tag rpc_ok request state finish h = state_release tag h

  abbrev pub process_found :
      HandlerState Request Response
      → ℕ
      → Bool
      → Request
      → Option (HandlerState Request Response)
      → Handler Request Response
      → Handler Request Response
  process_found blank tag rpc_ok request none h = h
  process_found blank tag rpc_ok request (some state) h =
      process_state blank tag rpc_ok request state state.step h

  -- Next returned the operation at a position of the queue, if there is one.
  abbrev pub next_at :
      HandlerState Request Response
      → ℕ
      → Bool
      → Request
      → Option ℕ
      → Handler Request Response
      → Handler Request Response
  next_at blank i rpc_ok request none h = h
  next_at blank i rpc_ok request (some tag) h =
      process_found blank tag rpc_ok request (Dict.find tag h.states)
        (record h { queue = remove_at h.queue i })

  -- The thread takes the next operation when it is in no TakeAction.
  abbrev pub next_when :
      HandlerState Request Response
      → ℕ
      → Bool
      → Request
      → Option ℕ
      → Handler Request Response
      → Handler Request Response
  next_when blank i rpc_ok request (some _) h = h
  next_when blank i rpc_ok request none h = next_at blank i rpc_ok request (get_elem? h.queue i) h

  -- OnCompleted of the state at an address, whatever its step is; nothing where the state is gone, and
  -- C++ would use freed memory.
  abbrev pub complete_at :
      ℕ
      → Response
      → Option (HandlerState Request Response)
      → Handler Request Response
      → Handler Request Response
  complete_at tag response none h = h
  complete_at tag response (some state) h = on_completed tag state response h

  -- TakeAction returns.
  abbrev pub acted_on :
      Action Response → Option ℕ → Handler Request Response → Handler Request Response
  acted_on action none h = h
  acted_on (answers response) (some tag) h =
      complete_at tag response (Dict.find tag h.states) (record h { acting = none })
  acted_on defers (some tag) h = record h { acting = none }

  -- One event. Nothing here keeps a callback from a state that was completed before, or that waits for
  -- its request.
  unfoldable pub step :
      HandlerState Request Response
      → Handler Request Response
      → Event Request Response
      → Handler Request Response
  step blank h (next i rpc_ok request) = next_when blank i rpc_ok request h.acting h
  step blank h (acted action) = acted_on action h.acting h
  step blank h (completed tag response) = complete_at tag response (Dict.find tag h.states) h

  -- HandleEvents: the first request, before the loop.
  unfoldable pub handle_events : HandlerState Request Response → Handler Request Response
  unfolding start_new_request
  handle_events blank =
      start_new_request blank
        (record { states = []; next_address = 0; queue = []; finished = []; acting = none })
