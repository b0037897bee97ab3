-- ===== src/Payload/Outputs.antt =====
-- What InferencePayload (src/core/inference_payload.cc) keeps of the outputs that a backend registers.
use model_inference_server.Common.{
  ℕ, ◌≡◌, ◌≢◌, ◌↔◌, ◌⊎◌, get_elem?-eq-none_iff, String, none, List, length, take, arith, ℤ, pos,
  negsuc, ◌≤ℤ◌, to_unsigned, nat_key, nat_eq_iff,
}
use model_inference_server.Common.Dict.{find-put}
use model_inference_server.Outcome.{returns, throws, invalid_argument}
use model_inference_server.Proto.{Bytes}
use model_inference_server.Payload.{
  InferencePayload, register_infer_output, get_output_buffer, get_input_memory,
}

module _ {K : Type 0} (p : InferencePayload K) where
  -- A buffer that was registered is read back whole, at the index it was registered under, and
  -- reading it changes nothing.
  pub get_output_buffer-register_self :
      (name : String) (idx : ℤ) (content : Bytes) (n : ℕ) (shape : List ℤ)
      → get_output_buffer (register_infer_output p name idx content (pos n) shape).0 idx
        ≡ ((register_infer_output p name idx content (pos n) shape).0, returns (take n content))
  unfolding get_output_buffer register_infer_output
  get_output_buffer-register_self name idx content n shape = ground (
    arith,
    find-put (to_unsigned 64 idx) (to_unsigned 64 idx) (take n content) p.output_buffer_map,
    nat_eq_iff (to_unsigned 64 idx) (to_unsigned 64 idx),
  )

  -- The other buffers stay as they were.
  pub get_output_buffer-register_ne :
      (name : String) (idx j : ℤ) (content : Bytes) (n : ℕ) (shape : List ℤ)
      → j ≤ℤ p.max_output_index
      → to_unsigned 64 idx ≢ to_unsigned 64 j
      → (get_output_buffer (register_infer_output p name idx content (pos n) shape).0 j).1
        ≡ (get_output_buffer p j).1
  unfolding get_output_buffer register_infer_output
  get_output_buffer-register_ne name idx j content n shape below apart = ground (
    arith,
    find-put (to_unsigned 64 idx) (to_unsigned 64 j) (take n content) p.output_buffer_map,
    nat_eq_iff (to_unsigned 64 idx) (to_unsigned 64 j),
  )

  -- A read fails exactly above the highest registered index.
  pub get_output_buffer-throws :
      (idx : ℤ)
      → ((get_output_buffer p idx).1 ≡ throws invalid_argument) ↔ (¬ (idx ≤ℤ p.max_output_index))
  unfolding get_output_buffer
  get_output_buffer-throws idx = ground arith

  -- An input is refused exactly below zero and from the number of inputs on.
  pub get_input_memory-eq-none_iff :
      (idx : ℤ)
      → (get_input_memory p idx ≡ none)
        ↔ ((¬ (pos 0 ≤ℤ idx)) ⊎ (pos (length p.inputs_memory) ≤ℤ idx))
  unfolding get_input_memory
  get_input_memory-eq-none_iff (pos n) = ground (arith, get_elem?-eq-none_iff p.inputs_memory n)
  get_input_memory-eq-none_iff (negsuc n) = ground arith
