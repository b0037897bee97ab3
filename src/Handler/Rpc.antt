-- ===== src/Handler/Rpc.antt =====
-- The states of a Handler (src/core/server/grpc_server.cc): what each of its operations keeps of them.
use model_inference_server.Common.{
  ℕ, suc, ◌≤◌, ◌<◌, ◌≡◌, refl, ◌⊎◌, inl, inr, Bool, true, false, Bool-cases, Option, none, some,
  arith, get_elem?, remove_at, count, count-remove_at, nat_key, nat_eq, nat_eq_iff,
}
use model_inference_server.Common.Dict
use model_inference_server.Common.Dict.{
  Dict, IsDict, find-put, find-erase, put-IsDict, erase-IsDict,
}
use model_inference_server.Handler.{
  CallStep, start, process, finish, HandlerState, Handler, times, start_new_request, state_release,
  on_completed, process_state, complete_at, begin_action,
}

-- The operations that a state in this step has started and Next has not returned.
unfoldable pub pending : CallStep → ℕ
pending start = 1
pending process = 0
pending finish = 1

-- How often Finish was called for it.
unfoldable pub ended : CallStep → ℕ
ended start = 0
ended process = 0
ended finish = 1

module _ {Request Response : Type 0} where
  -- The same for what stands at an address: where a state was released, Finish may have been called
  -- before that.
  abbrev pub pending_at : Option (HandlerState Request Response) → ℕ
  pending_at none = 0
  pending_at (some state) = pending state.step

  abbrev pub least : Option (HandlerState Request Response) → ℕ
  least none = 0
  least (some state) = ended state.step

  abbrev pub most : Option (HandlerState Request Response) → ℕ
  most none = 1
  most (some state) = ended state.step

  abbrev pub live : Option (HandlerState Request Response) → ℕ
  live none = 0
  live (some state) = 1

  abbrev pub Fits : Handler Request Response → ℕ → Option (HandlerState Request Response) → Type 0
  Fits h a o =
      (count a h.queue ≡ pending_at o)
      × (least o ≤ times a h.finished)
      × (times a h.finished ≤ most o)
      × ((a < h.next_address) ⊎ ((live o ≡ 0) × (times a h.finished ≡ 0)))

  pub record Orderly (h : Handler Request Response) : Type 0 where
    pub ok : IsDict h.states
    pub fits : (a : ℕ) → Fits h a (Dict.find a h.states)

  pub unused :
      (h : Handler Request Response) (a : ℕ) (o : Option (HandlerState Request Response))
      → Dict.find a h.states ≡ o
      → Fits h a o
      → h.next_address ≤ a
      → Dict.find a h.states ≡ none
  unused h a none e v le = e
  unused h a (some state) e v le = absurd (omega (arith, v))

  pub start_new_request-Orderly :
      (blank : HandlerState Request Response) (h : Handler Request Response)
      → Orderly h
      → Orderly (start_new_request blank h)
  unfolding start_new_request pending ended
  start_new_request-Orderly blank h v =
      let free =
        unused h h.next_address (Dict.find h.next_address h.states) refl (v.fits h.next_address)
          (omega arith) in
      record {
        ok = (free, v.ok);
        fits = λ a. elim (Bool-cases (nat_eq h.next_address a)) [
          | inl same ↦
              let at_a =
                unused h a (Dict.find a h.states) refl (v.fits a)
                  (ground (arith, nat_eq_iff h.next_address a)) in
              ground (arith, v.fits a, at_a, nat_eq_iff h.next_address a)
          | inr other ↦ ground (arith, v.fits a, nat_eq_iff h.next_address a)
        ];
      }

  state_release-Orderly :
      (tag : ℕ) (state : HandlerState Request Response) (h : Handler Request Response) (i : ℕ)
      → Orderly h
      → get_elem? h.queue i ≡ some tag
      → Dict.find tag h.states ≡ some state
      → Orderly (state_release tag (record h { queue = remove_at h.queue i }))
  unfolding state_release pending ended
  state_release-Orderly tag state h i v q e = record {
    ok = erase-IsDict tag h.states v.ok;
    fits = λ a. ground (
      arith,
      v.fits a,
      nat_eq_iff tag a,
      nat_eq_iff a tag,
      find-erase tag a h.states v.ok,
      count-remove_at a tag h.queue i q,
    );
  }

  begin_action-Orderly :
      (tag : ℕ) (state : HandlerState Request Response) (request : Request)
      (h : Handler Request Response) (i : ℕ)
      → Orderly h
      → get_elem? h.queue i ≡ some tag
      → Dict.find tag h.states ≡ some state
      → state.step ≡ start
      → Orderly (begin_action tag state request (record h { queue = remove_at h.queue i }))
  unfolding pending ended
  begin_action-Orderly tag state request h i v q e st =
      let begun = record state { step = CallStep.process; request = request } in
      record {
        ok = put-IsDict tag begun h.states v.ok;
        fits = λ a. ground (
          arith,
          v.fits a,
          nat_eq_iff tag a,
          nat_eq_iff a tag,
          find-put tag a begun h.states,
          count-remove_at a tag h.queue i q,
        );
      }

  on_completed-Orderly :
      (tag : ℕ) (state : HandlerState Request Response) (response : Response)
      (h : Handler Request Response)
      → Orderly h
      → Dict.find tag h.states ≡ some state
      → state.step ≡ process
      → Orderly (on_completed tag state response h)
  unfolding on_completed pending ended
  on_completed-Orderly tag state response h v e st =
      let done = record state { step = CallStep.finish; response = response } in
      record {
        ok = put-IsDict tag done h.states v.ok;
        fits = λ a.
            ground
              (arith, v.fits a, nat_eq_iff tag a, nat_eq_iff a tag, find-put tag a done h.states);
      }

  pub acting-Orderly :
      (o : Option ℕ) {h : Handler Request Response} (v : Orderly h)
      → Orderly (record h { acting = o })
  acting-Orderly o v = record { ok = v.ok; fits = v.fits }

  -- There is a state at the address, and it is in PROCESS.
  abbrev pub InProcess : Handler Request Response → ℕ → Type 0
  InProcess h tag =
      (state : HandlerState Request Response) × (Dict.find tag h.states ≡ some state)
      × (state.step ≡ process)

  pub complete_at-Orderly :
      (tag : ℕ) (response : Response) (h : Handler Request Response)
      → Orderly h
      → InProcess h tag
      → Orderly (complete_at tag response (Dict.find tag h.states) h)
  complete_at-Orderly tag response h v (state, e, st) =
      rw e (on_completed-Orderly tag state response h v e st)

  pub process_state-Orderly :
      (blank : HandlerState Request Response) (tag : ℕ) (ok : Bool) (request : Request)
      (state : HandlerState Request Response) (s : CallStep) (h : Handler Request Response) (i : ℕ)
      → Orderly h
      → get_elem? h.queue i ≡ some tag
      → Dict.find tag h.states ≡ some state
      → state.step ≡ s
      → Orderly
          (process_state blank tag ok request state s (record h { queue = remove_at h.queue i }))
  unfolding process_state start_new_request pending
  process_state-Orderly blank tag true request state start h i v q e st =
      begin_action-Orderly tag state request (start_new_request blank h) (suc i)
        (start_new_request-Orderly blank h v) q
        (ground (arith, e, v.fits tag, nat_eq_iff h.next_address tag)) st
  process_state-Orderly blank tag false request state start h i v q e st =
      state_release-Orderly tag state h i v q e
  process_state-Orderly blank tag ok request state process h i v q e st =
      absurd
        (ground (arith, e, st, v.fits tag, nat_eq_iff tag tag, count-remove_at tag tag h.queue i q))
  process_state-Orderly blank tag ok request state finish h i v q e st =
      state_release-Orderly tag state h i v q e
