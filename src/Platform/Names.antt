-- ===== src/Platform/Names.antt =====
-- The two conversions of PlatformHelper (src/core/basic_data.h) undo one another.
use model_inference_server.Common.{◌≡◌, refl, ◌≢◌, ◌↔◌, String, str_eq_iff, arith}
use model_inference_server.Platform.{
  Platform, platform_unknown, c_str, k_py_torch_lib_torch_platform,
  k_tensorflow_saved_model_platform, k_tree_lite_platform, k_tensor_rt_platform,
  k_open_vino_platform, k_onnx_runtime_platform, k_light_gbm_platform, k_demo_platform,
  convert_string_to_platform_type, convert_platform_type_to_string,
}

-- Every platform, the unknown one included, is read back from the name written for it.
pub convert-round_trip :
    (p : Platform) → convert_string_to_platform_type (convert_platform_type_to_string p) ≡ p
unfolding convert_string_to_platform_type convert_platform_type_to_string
convert-round_trip platform_unknown = refl
convert-round_trip _ = refl

-- What the chain of comparisons yields, from the C string alone.
chosen :
    (c s : String) (p : Platform)
    → c_str s ≡ c
    → convert_string_to_platform_type s ≡ p
    → p ≢ platform_unknown
    → c ≡ convert_platform_type_to_string p
unfolding convert_string_to_platform_type convert_platform_type_to_string
chosen c s p e h known = ground (
  arith,
  str_eq_iff (c_str s) k_py_torch_lib_torch_platform,
  str_eq_iff (c_str s) k_tensorflow_saved_model_platform,
  str_eq_iff (c_str s) k_tree_lite_platform,
  str_eq_iff (c_str s) k_tensor_rt_platform,
  str_eq_iff (c_str s) k_open_vino_platform,
  str_eq_iff (c_str s) k_onnx_runtime_platform,
  str_eq_iff (c_str s) k_light_gbm_platform,
  str_eq_iff (c_str s) k_demo_platform,
)

named :
    (s : String) (p : Platform)
    → c_str s ≡ convert_platform_type_to_string p
    → convert_string_to_platform_type s ≡ p
unfolding convert_string_to_platform_type convert_platform_type_to_string
named s platform_unknown h = rw h
named s _ h = rw h

-- A known platform is chosen exactly for the texts whose C string is its name.
pub convert_string_to_platform_type_iff :
    (s : String) (p : Platform)
    → p ≢ platform_unknown
    → (convert_string_to_platform_type s ≡ p) ↔ (c_str s ≡ convert_platform_type_to_string p)
convert_string_to_platform_type_iff s p known = (λ h. chosen (c_str s) s p refl h known, named s p)
