-- ===== src/Server/Opened.antt =====
-- The schedulers of the models that are loaded (src/core/model_manager/model_manager.cc) run, with a queue
-- that is not broken: only a scheduler whose context was destroyed is stopped.
use model_inference_server.Common.{
  ◌≡◌, ◌+◌, ap, zero, suc, refl, false, true, get_elem?, ◌^◌, ◌%◌, to_signed, set, replicate,
  pos_part, inl, inr, some, none, Option, Option-cases, List, [], ◌∷◌, arith, String, ℕ, string_key,
  subst,
}
use mathlib.Core.Option.{get_or}
use model_inference_server.Common.Dict
use model_inference_server.Common.Dict.{Dict}
use model_inference_server.Status.{Status}
use model_inference_server.Queue.{push, pop, new_queue}
use model_inference_server.Scheduler.{
  SimpleScheduler, Runner, testing, popping, ready, calling, exited, Completion, process_step,
  enqueue, start, new_scheduler, update_backend_infer_func,
}
use model_inference_server.Manager.{
  World, BackendInfo, ModelRunContext, ModelManager, ModelLoadInfo, StateUpdate, allocate,
}
use model_inference_server.Manager.Cycle.{
  new_context, instance_num, add_model, update_model, delete_model, destroy_context, each,
  apply_update, stored,
}
use model_inference_server.Server.{moved}
use model_inference_server.Manager.Load.{load_model_cases}
use model_inference_server.Manager.Reload.{renewed, update_model-loaded}

-- How many runners have left their loops.
abbrev pub exits : List (Runner ℕ ℕ) → ℕ
exits [] = 0
exits (exited ∷ rs) = 1 + exits rs
exits (testing ∷ rs) = exits rs
exits (popping ∷ rs) = exits rs
exits (ready p ∷ rs) = exits rs
exits (calling p f ∷ rs) = exits rs

abbrev pub left : Runner ℕ ℕ → ℕ
left r = exits (r ∷ [])

pub exits-cons : (x : Runner ℕ ℕ) (xs : List (Runner ℕ ℕ)) → exits (x ∷ xs) ≡ left x + exits xs
exits-cons testing xs = omega arith
exits-cons popping xs = omega arith
exits-cons (ready p) xs = omega arith
exits-cons (calling p f) xs = omega arith
exits-cons exited xs = omega arith

exits-set :
    (rs : List (Runner ℕ ℕ)) (i : ℕ) (r r' : Runner ℕ ℕ)
    → get_elem? rs i ≡ some r
    → exits (set rs i r') + left r ≡ exits rs + left r'
exits-set [] i r r' h = absurd (cc h)
exits-set (x ∷ xs) zero r r' h =
    omega (arith, exits-cons x xs, exits-cons r' xs, ap (λ o. left (get_or o r)) h)
exits-set (x ∷ xs) (suc i) r r' h =
    omega (arith, exits-cons x xs, exits-cons x (set xs i r'), exits-set xs i r r' h)

exits-spawned : (n : ℕ) → exits (replicate n testing) ≡ 0
exits-spawned zero = refl
exits-spawned (suc n) = exits-spawned n

-- A queue that takes payloads, and runners that go on.
abbrev pub IsOpen : SimpleScheduler ℕ ℕ → Type 0
IsOpen s = (s.queue.broken ≡ false) × (s.running ≡ true) × (exits s.threads ≡ 0)

abbrev pub AllOpen : Dict String (ModelRunContext ℕ) → Type 0
AllOpen [] = Unit
AllOpen ((name, ctx) ∷ m) = IsOpen ctx.scheduler × AllOpen m

pub AllOpen-find :
    (m : Dict String (ModelRunContext ℕ)) (name : String) (ctx : ModelRunContext ℕ)
    → AllOpen m
    → Dict.find name m ≡ some ctx
    → IsOpen ctx.scheduler
AllOpen-find [] name ctx v h = absurd (cc h)
AllOpen-find ((n, c) ∷ m) name ctx v h = ground (arith, v, AllOpen-find m name ctx v.1)

pub AllOpen-put :
    (m : Dict String (ModelRunContext ℕ)) (name : String) (ctx : ModelRunContext ℕ)
    → AllOpen m
    → IsOpen ctx.scheduler
    → AllOpen (Dict.put name ctx m)
AllOpen-put [] name ctx v o = (o, tt)
AllOpen-put ((n, c) ∷ m) name ctx v o = ground (arith, v, o, AllOpen-put m name ctx v.1 o)

AllOpen-insert :
    (m : Dict String (ModelRunContext ℕ)) (name : String) (ctx : ModelRunContext ℕ)
    → AllOpen m
    → IsOpen ctx.scheduler
    → AllOpen (Dict.insert name ctx m)
AllOpen-insert [] name ctx v o = (o, tt)
AllOpen-insert ((n, c) ∷ m) name ctx v o = ground (arith, v, o, AllOpen-insert m name ctx v.1 o)

AllOpen-erase :
    (m : Dict String (ModelRunContext ℕ)) (name : String) → AllOpen m → AllOpen (Dict.erase name m)
AllOpen-erase [] name v = tt
AllOpen-erase ((n, c) ∷ m) name v = ground (arith, v, AllOpen-erase m name v.1)

pub moved-IsOpen :
    (s after : SimpleScheduler ℕ ℕ) (i : ℕ) (r r' : Runner ℕ ℕ) (status : Status)
    (c : Option (Completion ℕ)) (b : List ℕ)
    → get_elem? s.threads i ≡ some r
    → s.queue.buffer ≡ b
    → process_step s r status ≡ some (after, r', c)
    → IsOpen s
    → IsOpen (moved after i r')
unfolding process_step pop
moved-IsOpen s after i testing r' status c b h hb e o =
    ground (arith, e, o, exits-set s.threads i testing r' h)
moved-IsOpen s after i popping r' status c [] h hb e o =
    ground (arith, e, o, exits-set s.threads i popping r' h)
moved-IsOpen s after i popping r' status c (p ∷ ps) h hb e o =
    ground (arith, e, o, exits-set s.threads i popping r' h)
moved-IsOpen s after i (ready p) r' status c b h hb e o =
    ground (arith, e, o, exits-set s.threads i (ready p) r' h)
moved-IsOpen s after i (calling p f) r' status c b h hb e o =
    ground (arith, e, o, exits-set s.threads i (calling p f) r' h)
moved-IsOpen s after i exited r' status c b h hb e o = absurd (cc e)

enqueue-IsOpen :
    (s after : SimpleScheduler ℕ ℕ) (p : ℕ) (status : Status)
    → enqueue s p ≡ some (after, status)
    → IsOpen s
    → IsOpen after
unfolding enqueue push
enqueue-IsOpen s after p status e o = ground (arith, e, o)

new_context-IsOpen : (m : ModelManager ℕ) (bi : BackendInfo) → IsOpen (new_context m bi).scheduler
unfolding new_context new_scheduler start new_queue
new_context-IsOpen m bi =
    (refl, refl, exits-spawned (pos_part (to_signed 31 (instance_num m bi.backend % 2 ^ 32))))

renewed-IsOpen :
    (ctx : ModelRunContext ℕ) (bi : BackendInfo)
    → IsOpen ctx.scheduler
    → IsOpen (renewed ctx bi).scheduler
unfolding update_backend_infer_func
renewed-IsOpen ctx bi o = o

add_model-AllOpen :
    (w : World) (m : ModelManager ℕ) (i : ModelLoadInfo)
    → AllOpen m.model_map
    → AllOpen (add_model w m i).model_map
add_model-AllOpen w m i v = elim (load_model_cases w m i) [
  | inr (_, e) ↦ unfold add_model in rw e v
  | inl (_, l) ↦ elim (Option-cases (Dict.find i.model_name m.model_map)) [
    | inr (ctx, e) ↦ unfold add_model in rw (l.result, e) v
    | inl free ↦
        unfold add_model in
        rw (l.result, free)
          (AllOpen-insert m.model_map i.model_name (new_context (allocate m l.b) l.bi) v
            (new_context-IsOpen (allocate m l.b) l.bi))
  ]
]

update_model-AllOpen :
    (w : World) (m : ModelManager ℕ) (i : ModelLoadInfo)
    → AllOpen m.model_map
    → AllOpen (update_model w m i).model_map
update_model-AllOpen w m i v = elim (load_model_cases w m i) [
  | inr (_, e) ↦ unfold update_model in rw e v
  | inl (_, l) ↦ elim (Option-cases (Dict.find i.model_name m.model_map)) [
    | inl gone ↦ unfold update_model in rw (l.result, gone) v
    | inr (ctx, e) ↦ rw (update_model-loaded w m i l ctx e) (
        AllOpen-put m.model_map i.model_name (renewed ctx l.bi) v
          (renewed-IsOpen ctx l.bi (AllOpen-find m.model_map i.model_name ctx v e)))
  ]
]

delete_model-AllOpen :
    (m : ModelManager ℕ) (name : String)
    → AllOpen m.model_map
    → AllOpen (delete_model m name).model_map
delete_model-AllOpen m name v = elim (Option-cases (Dict.find name m.model_map)) [
  | inl e ↦ unfold delete_model in rw e v
  | inr (ctx, e) ↦ unfold delete_model destroy_context in rw e (AllOpen-erase m.model_map name v)
]

each-AllOpen :
    {A : Type 0} (f : ModelManager ℕ → A → ModelManager ℕ)
    → ((m : ModelManager ℕ) (a : A) → AllOpen m.model_map → AllOpen (f m a).model_map)
    → (m : ModelManager ℕ) (xs : List A) → AllOpen m.model_map
    → AllOpen (each f m xs).model_map
each-AllOpen f step m [] v = v
each-AllOpen f step m (x ∷ xs) v = each-AllOpen f step (f m x) xs (step m x v)

pub apply_update-AllOpen :
    (w : World) (m : ModelManager ℕ) (u : StateUpdate)
    → AllOpen m.model_map
    → AllOpen (apply_update w m u).model_map
unfolding apply_update
apply_update-AllOpen w m u v = each-AllOpen delete_model delete_model-AllOpen _ u.deleted (
    each-AllOpen (update_model w) (update_model-AllOpen w) _ u.updated
      (each-AllOpen (add_model w) (add_model-AllOpen w) m u.added v))

pub stored-AllOpen :
    (m m' : ModelManager ℕ) (name : String) (tag : ℕ) (ctx : ModelRunContext ℕ) (status : Status)
    (o : Option (SimpleScheduler ℕ ℕ × Status))
    → AllOpen m.model_map
    → Dict.find name m.model_map ≡ some ctx
    → enqueue ctx.scheduler tag ≡ o
    → stored m name ctx o ≡ some (m', status)
    → AllOpen m'.model_map
stored-AllOpen m m' name tag ctx status none v h eo e = absurd (cc e)
stored-AllOpen m m' name tag ctx status (some (s, st)) v h eo e =
    let next = record ctx { scheduler = s } in
    let same : record m { model_map = Dict.put name next m.model_map } ≡ m' = cc e in
    subst (λ (t : ModelManager ℕ). AllOpen t.model_map) same
      (AllOpen-put m.model_map name next v
        (enqueue-IsOpen ctx.scheduler s tag st eo (AllOpen-find m.model_map name ctx v h)))
