-- ===== src/Backend.antt =====
-- src/core/backend/backend_common.{h,cc} and backend_context.h: ModelBackend. The model configuration
-- is the message of src/proto/model_config.proto, with the fields that the program reads.
pub mod Demo
pub mod Io
pub mod Running
pub mod Concurrent
use model_inference_server.Common.{
  ℕ, suc, ◌+◌, ◌-◌, ◌^◌, ◌%◌, to_signed, to_unsigned, String, Bool, true, false, ◌||◌, Option, none,
  some, List, [], ◌∷◌, str_eq, ltb, nat_eq, zero, if◌then◌else◌, length, get_elem?, ℤ, pos, negsuc,
  pos_part, ltb_ℤ, string_key,
}
use model_inference_server.Common.Dict
use model_inference_server.Common.Dict.{Dict}
use model_inference_server.Platform.{Platform}
use model_inference_server.Proto.{DataType}
use model_inference_server.Status.{
  Status, success, failed_generic, failed_model_config_invalid, failed_model_config_io_not_found,
}

-- ModelInstanceGroup::Kind
pub data Kind : Type 0 where
  kind_auto kind_gpu kind_cpu kind_model : Kind

pub record ModelInstanceGroup : Type 0 where
  pub name : String
  pub kind : Kind
  pub count : ℤ
  pub gpus : List ℤ

pub record ModelInput : Type 0 where
  pub name : String
  pub data_type : DataType
  pub dims : List ℤ

pub record ModelOutput : Type 0 where
  pub name : String
  pub data_type : DataType
  pub dims : List ℤ

pub record ModelConfig : Type 0 where
  pub name : String
  pub platform : String
  pub max_batch_size : ℤ
  pub input : List ModelInput
  pub output : List ModelOutput
  pub instance_group : List ModelInstanceGroup
  pub default_model_filename : String

pub record BackendContext : Type 0 where
  pub name : String
  pub gpu_device_id : ℤ
  pub max_batch_size : ℤ

pub record ModelBackend : Type 0 where
  pub model_config : ModelConfig
  pub model_name : String
  pub model_version : ℤ
  pub platform : Platform
  pub input_map : Dict String ModelInput
  pub output_map : Dict String ModelOutput
  pub contexts : List BackendContext
  pub running_inference_process : ℤ

-- Found by name, or the status for a name that is not there.
pub data Lookup (A : Type 0) : Type 0 where
  found : A → Lookup A
  missing : Status → Lookup A

or_missing : {A : Type 0} → Option A → Lookup A
or_missing none = missing failed_model_config_io_not_found
or_missing (some a) = found a

unfoldable pub get_input : ModelBackend → String → Lookup ModelInput
unfolding or_missing
get_input b name = or_missing (Dict.find name b.input_map)

unfoldable pub get_output : ModelBackend → String → Lookup ModelOutput
unfolding or_missing
get_output b name = or_missing (Dict.find name b.output_map)

-- The checks of ProcessModelConfig on one instance group: false where it returns an error.
unfoldable pub group_valid : ModelInstanceGroup → Bool
group_valid g = elim g.kind [ kind_cpu ↦ nat_eq (length g.gpus) 0 | kind_gpu ↦ false | _ ↦ true ]

abbrev pub groups_valid : List ModelInstanceGroup → Bool
groups_valid [] = true
groups_valid (g ∷ gs) = if group_valid g then groups_valid gs else false

abbrev pub insert_inputs : List ModelInput → Dict String ModelInput → Dict String ModelInput
insert_inputs [] m = m
insert_inputs (io ∷ ios) m = insert_inputs ios (Dict.insert io.name io m)

abbrev pub insert_outputs : List ModelOutput → Dict String ModelOutput → Dict String ModelOutput
insert_outputs [] m = m
insert_outputs (io ∷ ios) m = insert_outputs ios (Dict.insert io.name io m)

unfoldable pub process_model_config : ModelBackend → ModelBackend × Status
process_model_config b =
    let c = b.model_config in
    if str_eq c.platform ""
    then (b, failed_model_config_invalid)
    else if nat_eq (length c.instance_group) 0
    then (b, failed_model_config_invalid)
    else if groups_valid c.instance_group
    then (
      record b {
        input_map = insert_inputs c.input b.input_map;
        output_map = insert_outputs c.output b.output_map;
      },
      success,
    )
    else (b, failed_model_config_invalid)

-- What ModelBackend::Run does before the call of the context.
pub data Begun : Type 0 where
  refused : Status → Begun
  entered : BackendContext → Begun
  -- contexts_[idx] with idx == contexts_.size(): undefined behaviour
  out_of_bounds : Begun

-- running_inference_process_ is a std::atomic<int>, which wraps around at 32 bits.
abbrev pub increment : ℤ → ℤ
increment n = to_signed 31 ((to_unsigned 32 n + 1) % 2 ^ 32)

abbrev pub decrement : ℤ → ℤ
decrement n = to_signed 31 ((to_unsigned 32 n + (2 ^ 32 - 1)) % 2 ^ 32)

abbrev entered_at : Option BackendContext → Begun
entered_at none = out_of_bounds
entered_at (some c) = entered c

unfoldable pub run_begin : ModelBackend → ℤ → ModelBackend × Begun
run_begin b idx = (
  record b { running_inference_process = increment b.running_inference_process },
  (if ltb_ℤ idx (pos 0) || ltb (length b.contexts) (pos_part idx)
      then refused failed_generic
      else entered_at (get_elem? b.contexts (pos_part idx))),
)

-- What it does once the context's Run has returned.
unfoldable pub run_end : ModelBackend → ModelBackend
run_end b = record b { running_inference_process = decrement b.running_inference_process }

-- A whole Run: `context_run` is the virtual BackendContext::Run. None is undefined behaviour.
abbrev finished : ModelBackend × Begun → (BackendContext → Status) → Option (ModelBackend × Status)
finished (b, refused status) context_run = some (b, status)
finished (b, entered c) context_run = some (run_end b, context_run c)
finished (b, out_of_bounds) context_run = none

unfoldable pub run : ModelBackend → ℤ → (BackendContext → Status) → Option (ModelBackend × Status)
unfolding run_begin run_end
run b idx context_run = finished (run_begin b idx) context_run

unfoldable pub run_warmup :
    ModelBackend → ℤ → (BackendContext → Status) → Option (ModelBackend × Status)
unfolding run
run_warmup b idx context_run = run b idx context_run

-- The condition on which WaitInferComplete goes on waiting.
unfoldable pub still_running : ModelBackend → Bool
still_running b = ltb_ℤ (pos 0) b.running_inference_process
