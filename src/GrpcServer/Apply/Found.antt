-- ===== src/GrpcServer/Apply/Found.antt =====
-- grpcserver/server.cc, lines 34 to 44 and 320 to 437: the device that a message is for, and what is
-- done where there is none.
use mapper_framework_c.Prelude.{ℕ, zero, suc, ◌+◌, Option, none, some, List, [], ◌∷◌, ◌++◌}
use mapper_framework_c.Prelude.Int.{ℤ}
use mapper_framework_c.Prelude.CString.{Str}
use mapper_framework_c.Common.Const.{success, failure, is_zero}
use mapper_framework_c.Common.ConfigMapType.{Twin}
use mapper_framework_c.Device.Types.{Device, DeviceManager}
use mapper_framework_c.Device.World.{World, Effect}
use mapper_framework_c.Device.Manager.{device_manager_get}
use mapper_framework_c.GrpcServer.DirectWrite.{get_apply_timeout_ms, write_modbus_direct}
use mapper_framework_c.GrpcServer.Apply.{
  CloudProperty, CloudDevice, wish, Delays, within_limit, count_if, apply_properties,
}

-- The loops that write all values directly: how many succeed, and what they do.
unfoldable pub write_all : World → List CloudProperty → ℕ × List Effect
write_all w [] = (0, [])
write_all w (p ∷ ps) =
    let (ok, effects) = write_all w ps in
    elim (wish p) [
      | none ↦ (ok, effects)
      | some value ↦
          let (code, command) = write_modbus_direct w p.name value in
          (count_if (is_zero code) + ok, command ++ effects)
    ]

abbrev pub properties_of : CloudDevice → List CloudProperty
properties_of dev = elim dev.spec [ none ↦ [] | some ps ↦ ps ]

lookup_key : DeviceManager → CloudDevice → Str → Option Device → Option Device
lookup_key m dev space (some d) = some d
lookup_key m dev [] none = none
lookup_key m dev (c ∷ space) none = device_manager_get m (some ((c ∷ space) ++ b'/' ∷ dev.name))

-- By the name, or else by the namespace and the name. `device_manager_get` finds nothing in a null
-- manager.
unfoldable pub local_device : Option DeviceManager → CloudDevice → Option Device
unfolding lookup_key
local_device none dev = none
local_device (some m) dev = lookup_key m dev dev.namespace (device_manager_get m (some dev.name))

-- The code, the twins of the device that was found as they are left, and the effects.
pub record Answer : Type 0 where
  pub code : ℤ
  pub twins : List Twin
  pub effects : List Effect

abbrev pub any_ok : ℕ → ℤ
any_ok zero = failure
any_ok (suc n) = success

unfoldable pub all_direct : World → CloudDevice → Answer
unfolding write_all
all_direct w dev =
    let (ok, effects) = write_all w (properties_of dev) in
    record { code = any_ok ok; twins = []; effects = effects }

unfoldable pub apply_to_device : World → (took : ℕ → ℤ) → Device → CloudDevice → Answer
apply_to_device w took d dev =
    let a = apply_properties w took d.instance_of (properties_of dev) 0 d.instance_of.twins in
    record { code = any_ok (a.updated + a.fallback_ok); twins = a.twins; effects = a.effects }

unfoldable pub apply_named : World → (took : ℕ → ℤ) → CloudDevice → Option Device → Answer
unfolding all_direct
apply_named w took dev none = all_direct w dev
apply_named w took dev (some d) = apply_to_device w took d dev

unfoldable pub twins_found : Option Device → List Twin
twins_found none = []
twins_found (some d) = d.instance_of.twins

unfoldable pub refuse_unnamed : World → (took : ℕ → ℤ) → CloudDevice → Str → Option Device → Answer
unfolding apply_named twins_found
refuse_unnamed w took dev [] found = record {
  code = failure;
  twins = twins_found found;
  effects = [];
}
refuse_unnamed w took dev (c ∷ name) found = apply_named w took dev found

unfoldable pub apply_desired_to_device :
    World → (took : ℕ → ℤ) → Option DeviceManager → CloudDevice → Answer
unfolding refuse_unnamed all_direct
apply_desired_to_device w took none dev = all_direct w dev
apply_desired_to_device w took (some m) dev =
    refuse_unnamed w took dev dev.name (local_device (some m) dev)

unfoldable pub apply_desired_to_device_with_timeout :
    World → Delays → Option DeviceManager → CloudDevice → Answer
apply_desired_to_device_with_timeout w delays m dev =
    let a = apply_desired_to_device w delays.deal_ms m dev in
    record a { code = within_limit (get_apply_timeout_ms w) delays.apply_ms a.code }
