-- ===== src/Backend/Running.antt =====
-- ModelBackend::Run (src/core/backend/backend_common.cc): its index and its count of running calls.
use model_inference_server.Common.{
  ℕ, ◌<◌, ◌≡◌, ◌↔◌, none, some, length, get_elem?, get_elem?-eq-none_iff, arith, ℤ, pos, negsuc,
  Option-cases, inl, inr,
}
use model_inference_server.Status.{Status}
use model_inference_server.Backend.{ModelBackend, BackendContext, run}

run-entered :
    (b : ModelBackend) (i : ℕ) (context_run : BackendContext → Status) (c : BackendContext)
    → i < length b.contexts
    → get_elem? b.contexts i ≡ some c
    → b.running_inference_process ≡ pos 0
    → run b (pos i) context_run ≡ some (b, context_run c)
unfolding run
run-entered b i context_run c h g e = ground (arith, h, g, e)

-- With no other call, a call with the index of a context runs that context, returns what it returns, and leaves the
-- backend, its count of running calls too, as it was.
pub run_in_range :
    (b : ModelBackend) (i : ℕ) (context_run : BackendContext → Status)
    → i < length b.contexts
    → b.running_inference_process ≡ pos 0
    → (c : BackendContext) × (get_elem? b.contexts i ≡ some c)
      × (run b (pos i) context_run ≡ some (b, context_run c))
run_in_range b i context_run h idle = elim (Option-cases (get_elem? b.contexts i)) [
  | inl e ↦ absurd (omega (arith, (get_elem?-eq-none_iff b.contexts i).0 e))
  | inr (c, e) ↦ (c, e, run-entered b i context_run c h e idle)
]

-- The guard lets the index pass that is one past the last context: exactly there the call reads
-- beyond the end of the contexts, and the code has no defined result.
pub run_undefined_iff :
    (b : ModelBackend) (idx : ℤ) (context_run : BackendContext → Status)
    → (run b idx context_run ≡ none) ↔ (idx ≡ pos (length b.contexts))
unfolding run
run_undefined_iff b (pos i) context_run = ground (arith, get_elem?-eq-none_iff b.contexts i)
run_undefined_iff b (negsuc i) context_run = ground arith
