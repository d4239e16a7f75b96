-- ===== src/Tests/Managers.antt =====
-- Witnesses of what holds for the device manager.
use mapper_framework_c.Prelude.{◌≡◌, ◌*◌, refl, true, false, some, List, [], ◌∷◌, arith}
use mapper_framework_c.Prelude.CString.{codes}
use mapper_framework_c.Common.Const.{success, failure}
use mapper_framework_c.Common.Outcome.{fault, done}
use mapper_framework_c.Device.Types.{DeviceManager}
use mapper_framework_c.Device.Manager.{
  device_manager_new, device_manager_add, device_manager_remove,
}
use mapper_framework_c.Device.Manager.Slots.{
  HasRoom, Joined, created, added, taken, Reach-HasRoom, device_manager_add_overrun,
}
use mapper_framework_c.Device.Manager.Contract.{Request, add, get, remove}
use mapper_framework_c.Tests.Samples.{sensor, managing, full}

abbrev started_manager : DeviceManager
started_manager = managing []

started : device_manager_new true true true ≡ some started_manager
unfolding device_manager_new
started = refl

abbrev one_sensor : DeviceManager
one_sensor = managing (sensor ∷ [])

one_added : device_manager_add true started_manager (some sensor) ≡ done (one_sensor, success)
unfolding device_manager_add
one_added = refl

abbrev emptied : DeviceManager
emptied = (device_manager_remove one_sensor (some (codes "sensor"))).0

Reach-HasRoom_example :
    HasRoom emptied × Joined emptied sensor (device_manager_add true emptied (some sensor))
Reach-HasRoom_example =
    Reach-HasRoom sensor
      (taken (codes "sensor") (added sensor (created true true true started) one_added))

full-HasRoom : HasRoom full
full-HasRoom = record { sized = refl; positive = omega arith; within = omega arith }

device_manager_add_overrun_example :
    (device_manager_add false full (some sensor)
      ≡ done (record full { capacity = full.capacity * 2 }, failure))
    × (device_manager_add true (record full { capacity = full.capacity * 2 }) (some sensor) ≡ fault)
device_manager_add_overrun_example =
    device_manager_add_overrun full sensor sensor true full-HasRoom refl

-- One device is added, found under its name and under a longer one, and taken out.
abbrev requests : List Request
requests =
    add sensor ∷ get (codes "sensor") ∷ get (codes "other.sensor") ∷ remove (codes "sensor") ∷ []
