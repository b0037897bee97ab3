-- ===== src/Backend/Concurrent.antt =====
-- Calls of ModelBackend::Run from several threads (src/core/backend/backend_common.cc), and what
-- WaitInferComplete waits for. The counter is atomic: a call is what it does up to the context's Run,
-- and what it does after it.
use model_inference_server.Common.{
  ℕ, suc, ◌+◌, ◌^◌, ◌%◌, ◌≤◌, ◌≡◌, ◌∙◌, ap, ◌⊎◌, ◌↔◌, false, arith, ℤ, pos, to_signed,
}
use model_inference_server.Status.{Status}
use model_inference_server.Backend.{
  ModelBackend, BackendContext, entered, refused, run_begin, run_end, still_running, increment,
  decrement,
}

-- A backend, with the calls that are in a context's Run and those that were refused.
pub record Calls : Type 0 where
  pub backend : ModelBackend
  pub in_flight : ℕ
  pub turned_away : ℕ

-- One step of one call. A call that reads beyond the contexts is undefined, and has none.
pub data Step : Calls → Calls → Type 0 where
  enters :
      (s : Calls) (idx : ℤ) (c : BackendContext)
      → (run_begin s.backend idx).1 ≡ entered c
      → Step s (record s { backend = (run_begin s.backend idx).0; in_flight = suc s.in_flight })
  is_refused :
      (s : Calls) (idx : ℤ) (status : Status)
      → (run_begin s.backend idx).1 ≡ refused status
      → Step s (record s { backend = (run_begin s.backend idx).0; turned_away = suc s.turned_away })
  leaves :
      (s : Calls) (n : ℕ)
      → s.in_flight ≡ suc n
      → Step s (record s { backend = run_end s.backend; in_flight = n })

-- What comes of a backend that counts no call.
pub data Reach : Calls → Type 0 where
  here :
      (b : ModelBackend)
      → b.running_inference_process ≡ pos 0
      → Reach (record { backend = b; in_flight = 0; turned_away = 0 })
  goes : (s s' : Calls) → Reach s → Step s s' → Reach s'

abbrev Counted : Calls → Type 0
Counted s =
    s.backend.running_inference_process ≡ to_signed 31 ((s.in_flight + s.turned_away) % 2 ^ 32)

increment-to_signed :
    (z : ℤ) (n : ℕ) → z ≡ to_signed 31 (n % 2 ^ 32) → increment z ≡ to_signed 31 (suc n % 2 ^ 32)
increment-to_signed z n e = ground (arith, e)

decrement-to_signed :
    (z : ℤ) (n : ℕ) → z ≡ to_signed 31 (suc n % 2 ^ 32) → decrement z ≡ to_signed 31 (n % 2 ^ 32)
decrement-to_signed z n e = ground (arith, e)

Step-Counted : {s s' : Calls} → Step s s' → Counted s → Counted s'
unfolding run_begin run_end
Step-Counted (enters s idx c e) v =
    increment-to_signed s.backend.running_inference_process (s.in_flight + s.turned_away) v
    ∙ ap (λ n. to_signed 31 (n % 2 ^ 32)) (omega arith)
Step-Counted (is_refused s idx status e) v =
    increment-to_signed s.backend.running_inference_process (s.in_flight + s.turned_away) v
    ∙ ap (λ n. to_signed 31 (n % 2 ^ 32)) (omega arith)
Step-Counted (leaves s n e) v =
    decrement-to_signed s.backend.running_inference_process (n + s.turned_away)
      (v ∙ ap (λ k. to_signed 31 (k % 2 ^ 32)) (omega (arith, e)))

Reach-Counted : {s : Calls} → Reach s → Counted s
Reach-Counted (here b e) = ground (arith, e)
Reach-Counted (goes s s' r st) = Step-Counted st (Reach-Counted r)

-- Under any interleaving of calls: of the calls that are in a context's Run and those that were ever
-- refused, WaitInferComplete counts the number modulo 2 ^ 32. It ends exactly if this is 0, or is
-- 2 ^ 31 or more.
pub wait_ends_iff :
    (s : Calls)
    → Reach s
    → (still_running s.backend ≡ false) ↔ (
        ((s.in_flight + s.turned_away) % 2 ^ 32 ≡ 0)
        ⊎ (2 ^ 31 ≤ (s.in_flight + s.turned_away) % 2 ^ 32))
unfolding still_running
wait_ends_iff s r = ground (arith, Reach-Counted r)
