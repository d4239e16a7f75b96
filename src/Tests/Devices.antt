-- ===== src/Tests/Devices.antt =====
-- Witnesses of what holds for making and rebuilding devices and for their twins.
use mapper_framework_c.Prelude.{◌≡◌, refl, true, false, some, is_some, List, [], ◌∷◌, any}
use mapper_framework_c.Prelude.CString.{codes, str_eq}
use mapper_framework_c.Common.Const.{device_status_unknown}
use mapper_framework_c.Common.ConfigMapType.{Twin}
use mapper_framework_c.Driver.{new_client}
use mapper_framework_c.Device.Types.{Device}
use mapper_framework_c.Device.Rebuild.{device_runtime_rebuild}
use mapper_framework_c.Device.Rebuild.Links.{RefsValid, Linked, device_runtime_rebuild-Linked}
use mapper_framework_c.Device.Lifecycle.Running.{IsConsistent}
use mapper_framework_c.Device.New.{device_new, copy_instance}
use mapper_framework_c.Device.New.Fresh.{device_new_lem}
use mapper_framework_c.Device.Manager.{device_manager_get, find_named}
use mapper_framework_c.Device.Twins.{has_name}
use mapper_framework_c.Tests.Samples.{
  threshold, settled_twin, sensor_instance, thermometer, with_twins, managing,
}

device_runtime_rebuild-Linked_example :
    ((device_runtime_rebuild sensor_instance).properties ≡ threshold ∷ [])
    × Linked (threshold ∷ []) (device_runtime_rebuild sensor_instance).twins
device_runtime_rebuild-Linked_example =
    device_runtime_rebuild-Linked sensor_instance ((λ h. refl), tt)

made : (d : Device) × (device_new true true true (some sensor_instance) (some thermometer) ≡ some d)
unfolding device_new new_client copy_instance
made = (_, refl)

device_new_lem_example :
    (made.0.instance_of.name ≡ some (codes "sensor"))
    × (made.0.instance_of.namespace ≡ some (codes "test"))
    × IsConsistent made.0
    × (made.0.data_thread_running ≡ false)
    × (made.0.status ≡ some device_status_unknown)
    × RefsValid made.0.instance_of.properties made.0.instance_of.twins
    × (is_some made.0.client ≡ true)
device_new_lem_example = device_new_lem true true true sensor_instance thermometer made.0 made.1

get_sensor :
    (ts : List Twin)
    → device_manager_get (managing (with_twins ts ∷ [])) (some (codes "sensor"))
      ≡ some (with_twins ts)
unfolding device_manager_get find_named str_eq
get_sensor ts = refl

other_name : any (has_name (codes "temperature")) (settled_twin ∷ []) ≡ false
unfolding str_eq
other_name = refl
