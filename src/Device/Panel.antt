-- ===== src/Device/Panel.antt =====
-- device/dev_panel.c: what the HTTP and gRPC servers ask of the device manager.
pub mod Reads
pub mod Models
use mapper_framework_c.Prelude.{
  ℕ, Bool, true, false, not, is_some, if◌then◌else◌, Option, none, some, List, [], ◌∷◌, ◌++◌, map,
  or_default,
}
use mapper_framework_c.Prelude.Int.{ℤ, pos}
use mapper_framework_c.Prelude.CString.{Str, codes, str_eq, snprintf}
use mapper_framework_c.Common.Const.{success, failure, is_zero}
use mapper_framework_c.Common.ConfigMapType.{Twin, DeviceMethod, DeviceInstance, DeviceModel}
use mapper_framework_c.Device.Types.{Device, DeviceManager, TwinResult}
use mapper_framework_c.Device.Manager.{device_manager_get}
use mapper_framework_c.Device.Twins.{blank, devicetwin_set}

-- The outcome of a call; `crash` is a `strcmp` of a null pointer.
pub data Outcome (A : Type 0) : Type 0 where
  crash : Outcome A
  done : A → Outcome A

-- The value and the data type that `dev_panel_get_twin_result` hands out, and its code.
abbrev pub Reply : Type 0
Reply = ℤ × Option (Str × Str)

abbrev pub no_reply : Reply
no_reply = (failure, none)

-- The loop has no test for a twin without a name.
scan_twins : Str → List Twin → Outcome Reply
scan_twins name [] = done no_reply
scan_twins name (t ∷ ts) =
    let rest = scan_twins name ts in
    elim t.property_name [
      | none ↦ crash
      | some n ↦
          if str_eq n name
          then done (success, some (or_default t.reported.value (codes "null"), codes "string"))
          else rest
    ]

unfoldable pub dev_panel_get_twin_result :
    DeviceManager → (device_id : Option Str) (name : Str) → Outcome Reply
unfolding scan_twins
dev_panel_get_twin_result m device_id name = elim (device_manager_get m device_id) [
  | none ↦ done no_reply
  | some d ↦ scan_twins name d.instance_of.twins
]

-- `now` is the time of the call in milliseconds. The parameter `method` is not used.
unfoldable pub dev_panel_write_device :
    (now : ℤ) → DeviceManager → (device_id property_name data_text : Option Str) → ℤ
dev_panel_write_device now m (some id) (some name) (some text) =
    elim (device_manager_get m (some id)) [
      | none ↦ failure
      | some d ↦
          if not (is_zero (devicetwin_set now d (some name) (some text) (blank now)).0)
          then failure
          else success
    ]
dev_panel_write_device now m _ _ _ = failure

abbrev or_unknown : Option Str → Str
or_unknown s = or_default s (codes "unknown")

unfoldable pub method_properties : List DeviceMethod → List Str
method_properties [] = []
method_properties (m ∷ ms) = map or_unknown m.property_names ++ method_properties ms

unfoldable pub method_names : List DeviceMethod → List Str
method_names ms = map (λ (m : DeviceMethod). or_unknown m.name) ms

-- The code, the method map and the property map; their counts are their lengths.
unfoldable pub dev_panel_get_device_method :
    DeviceManager → (device_id : Option Str) → ℤ × List Str × List Str
unfolding method_names method_properties
dev_panel_get_device_method m none = (failure, [], [])
dev_panel_get_device_method m (some id) = elim (device_manager_get m (some id)) [
  | none ↦ (success, [], [])
  | some d ↦ (success, method_names d.instance_of.methods, method_properties d.instance_of.methods)
]

-- The code is 0 exactly if there is an instance.
unfoldable pub dev_panel_get_device : DeviceManager → Option Str → Option DeviceInstance
dev_panel_get_device m none = none
dev_panel_get_device m (some id) = elim (device_manager_get m (some id)) [
  | none ↦ none
  | some d ↦ some d.instance_of
]

-- The identifier that a device's model is compared under.
unfoldable pub device_model_id : DeviceModel → Str → Str
device_model_id model name =
    snprintf 256 (or_default model.namespace (codes "default") ++ b'/' ∷ name)

unfoldable pub scan_models : Str → List Device → Option DeviceModel
scan_models id [] = none
scan_models id (d ∷ ds) =
    let rest = scan_models id ds in
    elim d.model.name [
      | none ↦ rest
      | some name ↦ if str_eq (device_model_id d.model name) id then some d.model else rest
    ]

-- The code is 0 exactly if there is a model.
unfoldable pub dev_panel_get_model : DeviceManager → Option Str → Option DeviceModel
dev_panel_get_model m none = none
dev_panel_get_model m (some id) = scan_models id m.devices

unfoldable pub dev_panel_has_device : DeviceManager → Option Str → Bool
dev_panel_has_device m none = false
dev_panel_has_device m (some id) = is_some (device_manager_get m (some id))

-- Placeholders of the source: they check their pointers and log.
unfoldable pub dev_panel_update_dev : Option DeviceModel → Option DeviceInstance → ℤ
dev_panel_update_dev (some model) (some inst) = success
dev_panel_update_dev _ _ = failure

unfoldable pub dev_panel_update_model : Option DeviceModel → ℤ
dev_panel_update_model none = failure
dev_panel_update_model (some model) = success

unfoldable pub dev_panel_remove_model : Option Str → ℤ
dev_panel_remove_model none = failure
dev_panel_remove_model (some id) = success
