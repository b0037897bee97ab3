-- ===== src/Platform.antt =====
-- src/core/constants.h (platform names and limits) and the platform part of src/core/basic_data.h.
pub mod Names
use model_inference_server.Common.{Bool, true, false, String, code, nat_eq, str_eq, if◌then◌else◌}
use Prim.Native.String as Text

pub data Platform : Type 0 where
  platform_unknown : Platform
  platform_pytorch_libtorch : Platform
  platform_tensorflow_savedmodel : Platform
  platform_tree_lite : Platform
  platform_tensorrt : Platform
  platform_openvino : Platform
  platform_onnxruntime : Platform
  platform_lightgbm : Platform
  platform_demo : Platform

-- std::string::c_str as strcmp reads it: the characters before the first NUL.
abbrev pub c_str : String → String
c_str Text.[] = ""
c_str (Text.◌∷◌ c s) = if nat_eq (code c) 0 then "" else Text.◌∷◌ c (c_str s)

abbrev pub k_py_torch_lib_torch_platform : String
k_py_torch_lib_torch_platform = "pytorch_libtorch"

abbrev pub k_tensorflow_saved_model_platform : String
k_tensorflow_saved_model_platform = "tensorflow_savedmodel"

abbrev pub k_tree_lite_platform : String
k_tree_lite_platform = "treelite"

abbrev pub k_tensor_rt_platform : String
k_tensor_rt_platform = "tensorrt"

abbrev pub k_open_vino_platform : String
k_open_vino_platform = "openvino"

abbrev pub k_onnx_runtime_platform : String
k_onnx_runtime_platform = "onnxruntime"

abbrev pub k_light_gbm_platform : String
k_light_gbm_platform = "lightgbm"

abbrev pub k_demo_platform : String
k_demo_platform = "demo"

abbrev pub k_unsupported_platform : String
k_unsupported_platform = "unsupported_platform"

abbrev pub k_model_config_pb_txt : String
k_model_config_pb_txt = "config.pbtxt"

-- strcmp(platform.c_str(), name) == 0
abbrev pub same_c_str : String → String → Bool
same_c_str platform name = str_eq (c_str platform) name

unfoldable pub convert_string_to_platform_type : String → Platform
convert_string_to_platform_type platform =
    if same_c_str platform k_py_torch_lib_torch_platform
    then platform_pytorch_libtorch
    else if same_c_str platform k_tensorflow_saved_model_platform
    then platform_tensorflow_savedmodel
    else if same_c_str platform k_tree_lite_platform
    then platform_tree_lite
    else if same_c_str platform k_tensor_rt_platform
    then platform_tensorrt
    else if same_c_str platform k_open_vino_platform
    then platform_openvino
    else if same_c_str platform k_onnx_runtime_platform
    then platform_onnxruntime
    else if same_c_str platform k_light_gbm_platform
    then platform_lightgbm
    else if same_c_str platform k_demo_platform
    then platform_demo
    else platform_unknown

unfoldable pub convert_platform_type_to_string : Platform → String
convert_platform_type_to_string platform_pytorch_libtorch = k_py_torch_lib_torch_platform
convert_platform_type_to_string platform_tensorflow_savedmodel = k_tensorflow_saved_model_platform
convert_platform_type_to_string platform_openvino = k_open_vino_platform
convert_platform_type_to_string platform_tree_lite = k_tree_lite_platform
convert_platform_type_to_string platform_tensorrt = k_tensor_rt_platform
convert_platform_type_to_string platform_onnxruntime = k_onnx_runtime_platform
convert_platform_type_to_string platform_lightgbm = k_light_gbm_platform
convert_platform_type_to_string platform_demo = k_demo_platform
convert_platform_type_to_string platform_unknown = k_unsupported_platform
