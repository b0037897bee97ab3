-- ===== src/Backend/Io.antt =====
-- ModelBackend::ProcessModelConfig, GetInput and GetOutput (src/core/backend/backend_common.cc).
use model_inference_server.Common.{
  ℤ, ◌≡◌, refl, ◌≢◌, ◌∙◌, ◌↔◌, ◌⊎◌, String, true, false, Option, none, some, List, [], ◌∷◌, length,
  All, arith, nat_eq, str_eq, str_eq_iff, string_key, if◌then◌else◌, Bool-cases, inl, inr,
}
use model_inference_server.Common.Dict
use model_inference_server.Common.Dict.{Dict, find-insert}
use model_inference_server.Status.{
  Status, success, failed_model_config_invalid, failed_model_config_io_not_found,
}
use model_inference_server.Backend.{
  Kind, kind_auto, kind_cpu, kind_gpu, kind_model, ModelInstanceGroup, ModelInput, ModelOutput,
  ModelBackend, Lookup, found, missing, get_input, get_output, process_model_config, group_valid,
  groups_valid, insert_inputs, insert_outputs,
}

-- What an instance group has to be: not of kind GPU, and with no GPUs if it is of kind CPU.
abbrev pub IsAccepted : ModelInstanceGroup → Type 0
IsAccepted g = (g.kind ≢ kind_gpu) × ((g.kind ≢ kind_cpu) ⊎ (g.gpus ≡ []))

group_valid_iff :
    (g : ModelInstanceGroup) (k : Kind) (gpus : List ℤ)
    → g.kind ≡ k
    → g.gpus ≡ gpus
    → (group_valid g ≡ true) ↔ IsAccepted g
unfolding group_valid
group_valid_iff g kind_auto [] e h = ground arith
group_valid_iff g kind_auto (x ∷ xs) e h = ground arith
group_valid_iff g kind_cpu [] e h = ground arith
group_valid_iff g kind_cpu (x ∷ xs) e h = ground arith
group_valid_iff g kind_gpu xs e h = ground arith
group_valid_iff g kind_model xs e h = ground arith

groups_valid_iff : (gs : List ModelInstanceGroup) → (groups_valid gs ≡ true) ↔ All IsAccepted gs
groups_valid_iff [] = ((λ h. tt), λ h. refl)
groups_valid_iff (g ∷ gs) =
    let here = group_valid_iff g g.kind g.gpus refl refl in
    let rest = groups_valid_iff gs in
    elim (Bool-cases (group_valid g)) [
      | inl ok ↦ rw ok ((λ h. (here.0 ok, rest.0 h)), λ h. rest.1 h.1)
      | inr bad ↦ rw bad ((λ h. absurd (cc)), λ h. absurd (cc (here.1 h.0)))
    ]

success_or : (s : Status) → (s ≡ success) ⊎ (s ≢ success)
success_or success = inl refl
success_or _ = inr (λ h. cc)

-- The three tests of ProcessModelConfig.
abbrev Passes : ModelBackend → Type 0
Passes b =
    (str_eq b.model_config.platform "" ≡ false)
    × (nat_eq (length b.model_config.instance_group) 0 ≡ false)
    × (groups_valid b.model_config.instance_group ≡ true)

process-Passes : (b : ModelBackend) → ((process_model_config b).1 ≡ success) ↔ Passes b
unfolding process_model_config
process-Passes b = ground arith

process-refused :
    (b : ModelBackend)
    → (process_model_config b).1 ≢ success
    → process_model_config b ≡ (b, failed_model_config_invalid)
unfolding process_model_config
process-refused b h = ground arith

named : (s : String) → (str_eq s "" ≡ false) ↔ (s ≢ "")
named s = ground (arith, str_eq_iff s "")

grouped : (gs : List ModelInstanceGroup) → (nat_eq (length gs) 0 ≡ false) ↔ (gs ≢ [])
grouped [] = ground arith
grouped (g ∷ gs) = ground arith

-- The status, and that a refusal changes nothing.
pub process_model_config_iff :
    (b : ModelBackend)
    → (((process_model_config b).1 ≡ success) ↔ (
        (b.model_config.platform ≢ "")
        × (b.model_config.instance_group ≢ [])
        × All IsAccepted b.model_config.instance_group))
      × ((process_model_config b).1 ≢ success
          → process_model_config b ≡ (b, failed_model_config_invalid))
process_model_config_iff b = ((accepted, λ h. (process-Passes b).1 (passing h)), process-refused b)
  where
    platform : (str_eq b.model_config.platform "" ≡ false) ↔ (b.model_config.platform ≢ "")
    platform = named b.model_config.platform

    accepted :
        (process_model_config b).1 ≡ success
        → (b.model_config.platform ≢ "")
          × (b.model_config.instance_group ≢ [])
          × All IsAccepted b.model_config.instance_group
    accepted h =
        let p = (process-Passes b).0 h in
        (
          platform.0 p.0,
          (grouped b.model_config.instance_group).0 p.1,
          (groups_valid_iff b.model_config.instance_group).0 p.2,
        )

    passing :
        (b.model_config.platform ≢ "")
          × (b.model_config.instance_group ≢ [])
          × All IsAccepted b.model_config.instance_group
        → Passes b
    passing h = (
      platform.1 h.0,
      (grouped b.model_config.instance_group).1 h.1,
      (groups_valid_iff b.model_config.instance_group).1 h.2,
    )

-- The configuration is accepted if a platform is named, there is an instance group, and each group is
-- acceptable; else the status is Failed_Model_Config_Invalid and the backend stays as it was.
pub process_model_config_cases :
    (b : ModelBackend)
    → let valid =
        (b.model_config.platform ≢ "")
        × (b.model_config.instance_group ≢ [])
        × All IsAccepted b.model_config.instance_group in
      (valid × ((process_model_config b).1 ≡ success))
      ⊎ ((¬ valid) × (process_model_config b ≡ (b, failed_model_config_invalid)))
process_model_config_cases b = elim (success_or (process_model_config b).1) [
  | inl good ↦ inl ((process_model_config_iff b).0.0 good, good)
  | inr bad ↦
      inr ((λ v. bad ((process_model_config_iff b).0.1 v)), (process_model_config_iff b).1 bad)
]

-- The first entry with a name.
abbrev pub first_input : String → List ModelInput → Option ModelInput
first_input name [] = none
first_input name (io ∷ ios) = if str_eq io.name name then some io else first_input name ios

abbrev pub first_output : String → List ModelOutput → Option ModelOutput
first_output name [] = none
first_output name (io ∷ ios) = if str_eq io.name name then some io else first_output name ios

abbrev or_else : {A : Type 0} → Option A → Option A → Option A
or_else none o = o
or_else (some a) o = some a

find-insert_inputs :
    (name : String) (ios : List ModelInput) (m : Dict String ModelInput)
    → Dict.find name (insert_inputs ios m) ≡ or_else (Dict.find name m) (first_input name ios)
find-insert_inputs name [] m = ground arith
find-insert_inputs name (io ∷ ios) m =
    find-insert_inputs name ios (Dict.insert io.name io m)
    ∙ ground (arith, find-insert io.name name io m, str_eq_iff io.name name)

find-insert_outputs :
    (name : String) (ios : List ModelOutput) (m : Dict String ModelOutput)
    → Dict.find name (insert_outputs ios m) ≡ or_else (Dict.find name m) (first_output name ios)
find-insert_outputs name [] m = ground arith
find-insert_outputs name (io ∷ ios) m =
    find-insert_outputs name ios (Dict.insert io.name io m)
    ∙ ground (arith, find-insert io.name name io m, str_eq_iff io.name name)

abbrev pub or_missing_input : Option ModelInput → Lookup ModelInput
or_missing_input none = missing failed_model_config_io_not_found
or_missing_input (some io) = found io

abbrev pub or_missing_output : Option ModelOutput → Lookup ModelOutput
or_missing_output none = missing failed_model_config_io_not_found
or_missing_output (some io) = found io

-- After a configuration was accepted by a new backend, a name finds the first input, and the first
-- output, of that name in the configuration, and any other name finds the error status.
pub get-process_model_config :
    (b : ModelBackend) (name : String)
    → b.input_map ≡ []
    → b.output_map ≡ []
    → (process_model_config b).1 ≡ success
    → (get_input (process_model_config b).0 name
        ≡ or_missing_input (first_input name b.model_config.input))
      × (get_output (process_model_config b).0 name
          ≡ or_missing_output (first_output name b.model_config.output))
unfolding get_input get_output process_model_config
get-process_model_config b name hi ho h = ground (
  arith,
  process-Passes b,
  find-insert_inputs name b.model_config.input b.input_map,
  find-insert_outputs name b.model_config.output b.output_map,
)
