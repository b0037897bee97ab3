-- ===== src/Manager/Requests.antt =====
-- What the server asks of a ModelManager (src/core/model_manager/model_manager.cc): InferAsync,
-- GetModelStatus and Stop.
use model_inference_server.Common.{
  ℕ, ◌≡◌, refl, ◌∙◌, ◌⊎◌, inl, inr, false, Option, none, some, Option-cases, Bool-cases, String, [],
  ◌∷◌, ℤ, arith, string_key, nat_key, int_key, str_eq, str_eq_iff, nat_eq_iff, if◌then◌else◌,
}
use model_inference_server.Common.Dict
use model_inference_server.Common.Dict.{Dict, IsDict, find-put, find-erase, erase-IsDict}
use model_inference_server.Status.{Status, failed_infer_no_backend_found}
use model_inference_server.Proto.{ModelStatus, ModelReadyState}
use model_inference_server.Scheduler.{SimpleScheduler, enqueue}
use model_inference_server.Manager.{ModelRunContext, ModelManager}
use model_inference_server.Manager.Cycle.{
  infer_async, get_model_status, status_of, stop_manager, clear_contexts, destroy_context,
}
use model_inference_server.Manager.Ownership.{Sound}

abbrev or_else : Option ModelStatus → Option ModelStatus → Option ModelStatus
or_else none o = o
or_else (some s) o = some s

module _ {P : Type 0} where
  -- The state after a payload was given to the scheduler of one model.
  pub record Routed (m m' : ModelManager P) (name : String) (ctx : ModelRunContext P)
      (s : SimpleScheduler P ℕ) : Type 0 where
    pub entries :
        (n : String)
        → Dict.find n m'.model_map
          ≡ (if str_eq name n then some (record ctx { scheduler = s }) else Dict.find n m.model_map)
    pub same_heap : m'.heap ≡ m.heap

  abbrev pub InferCase : ModelManager P → String → ℤ → P → ModelRunContext P → Type 0
  InferCase m name version payload ctx =
      ((enqueue ctx.scheduler payload ≡ none) × (infer_async m name version payload ≡ none))
      ⊎ ((s : SimpleScheduler P ℕ) × (status : Status) × (m' : ModelManager P) × (enqueue
              ctx.scheduler payload
            ≡ some (s, status))
          × (infer_async m name version payload ≡ some (m', status))
          × Routed m m' name ctx s)

  enqueued :
      (m : ModelManager P) (name : String) (version : ℤ) (payload : P) (ctx : ModelRunContext P)
      → Dict.find name m.model_map ≡ some ctx
      → (o : Option (SimpleScheduler P ℕ × Status)) → enqueue ctx.scheduler payload ≡ o
      → InferCase m name version payload ctx
  enqueued m name version payload ctx h none e = inl (e, unfold infer_async in rw (h, e) refl)
  enqueued m name version payload ctx h (some (s, status)) e =
      let next = record ctx { scheduler = s } in
      inr (
        s,
        status,
        record m { model_map = Dict.put name next m.model_map },
        e,
        unfold infer_async in rw (h, e) refl,
        record { entries = λ n. find-put name n next m.model_map; same_heap = refl },
      )

  -- InferAsync fails with Failed_Infer_No_Backend_Found, and changes nothing, exactly for a name that
  -- is not in the map. For any other it does what Enqueue of that model's scheduler does: it waits if
  -- Enqueue waits, and else returns Enqueue's status, with every other model and every backend left
  -- as they were. The version plays no part.
  pub infer_async_cases :
      (m : ModelManager P) (name : String) (version : ℤ) (payload : P)
      → ((Dict.find name m.model_map ≡ none)
          × (infer_async m name version payload ≡ some (m, failed_infer_no_backend_found)))
        ⊎ ((ctx : ModelRunContext P) × (Dict.find name m.model_map ≡ some ctx)
            × InferCase m name version payload ctx)
  infer_async_cases m name version payload = elim (Option-cases (Dict.find name m.model_map)) [
    | inl e ↦ inl (e, unfold infer_async in rw e refl)
    | inr (ctx, e) ↦
        inr (ctx, e, enqueued m name version payload ctx e (enqueue ctx.scheduler payload) refl)
  ]

  -- What GetModelStatus reports of an entry.
  abbrev pub reported : Option (ModelRunContext P) → Option ModelStatus
  reported none = none
  reported (some ctx) = some ((ctx.backend_info.model_version, ModelReadyState.model_ready) ∷ [])

  find-status_of :
      (name : String) (d : Dict String (ModelRunContext P)) (out : Dict String ModelStatus)
      → IsDict d
      → Dict.find name (status_of d out)
        ≡ or_else (reported (Dict.find name d)) (Dict.find name out)
  unfolding status_of
  find-status_of name [] out ok = refl
  find-status_of name ((n, ctx) ∷ rest) out ok =
      let status : ModelStatus =
        (ctx.backend_info.model_version, ModelReadyState.model_ready) ∷ [] in
      find-status_of name rest (Dict.put n status out) ok.1
      ∙ ground (arith, find-put n name status out, str_eq_iff n name)

  -- GetModelStatus reports exactly the models of the map, each with the version that is loaded, and
  -- as MODEL_READY.
  pub find-get_model_status :
      (m : ModelManager P) (name : String)
      → IsDict m.model_map
      → Dict.find name (get_model_status m) ≡ reported (Dict.find name m.model_map)
  find-get_model_status m name ok =
      unfold get_model_status in find-status_of name m.model_map [] ok ∙ ground arith

  stays-gone :
      (m : ModelManager P) (d : Dict String (ModelRunContext P)) (a : ℕ)
      → IsDict m.heap
      → Dict.find a m.heap ≡ none
      → Dict.find a (clear_contexts m d).heap ≡ none
  unfolding clear_contexts destroy_context
  stays-gone m [] a ok h = h
  stays-gone m ((n, ctx) ∷ rest) a ok h =
      stays-gone (destroy_context m ctx) rest a (erase-IsDict ctx.backend_info.backend m.heap ok)
        (find-erase ctx.backend_info.backend a m.heap ok ∙ ground arith)

  clear-frees :
      (m : ModelManager P) (d : Dict String (ModelRunContext P)) (name : String)
      (ctx : ModelRunContext P)
      → IsDict m.heap
      → Dict.find name d ≡ some ctx
      → Dict.find ctx.backend_info.backend (clear_contexts m d).heap ≡ none
  unfolding clear_contexts destroy_context
  clear-frees m [] name ctx ok h = absurd (cc)
  clear-frees m ((n, c) ∷ rest) name ctx ok h =
      let a = c.backend_info.backend in
      let ok' : IsDict (destroy_context m c).heap = erase-IsDict a m.heap ok in
      elim (Bool-cases (str_eq n name)) [
        | inl same ↦ stays-gone (destroy_context m c) rest ctx.backend_info.backend ok' (
            find-erase a ctx.backend_info.backend m.heap ok
            ∙ ground (arith, nat_eq_iff a ctx.backend_info.backend))
        | inr other ↦ clear-frees (destroy_context m c) rest name ctx ok' (ground arith)
      ]

  pub cleared :
      (m : ModelManager P) (d : Dict String (ModelRunContext P))
      → ((clear_contexts m d).model_map ≡ []) × ((clear_contexts m d).running ≡ m.running)
  unfolding clear_contexts destroy_context
  cleared m [] = (refl, refl)
  cleared m ((n, ctx) ∷ rest) = cleared (destroy_context m ctx) rest

  -- Stop empties the map and lowers the flag, and the backend of every model that was loaded is
  -- destroyed.
  pub stop_manager_releases :
      (m : ModelManager P) (name : String) (ctx : ModelRunContext P)
      → Sound m
      → Dict.find name m.model_map ≡ some ctx
      → ((stop_manager m).0.model_map ≡ [])
        × ((stop_manager m).0.running ≡ false)
        × (Dict.find ctx.backend_info.backend (stop_manager m).0.heap ≡ none)
  stop_manager_releases m name ctx v h =
      let stopping = record m { running = false; updating = false } in
      unfold stop_manager in
      (
        (cleared stopping m.model_map).0,
        (cleared stopping m.model_map).1,
        clear-frees stopping m.model_map name ctx v.heap_ok h,
      )
