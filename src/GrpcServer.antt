-- ===== src/GrpcServer.antt =====
-- grpcserver/device.c: the device service of the gRPC server. Its panel is the device manager that
-- the functions of device/dev_panel.c take.
pub mod Registered
pub mod Server
pub mod DirectWrite
pub mod Apply
pub mod Update
use mapper_framework_c.Prelude.{ℕ, Bool, true, false, if◌then◌else◌, Option, none, some}
use mapper_framework_c.Prelude.Int.{ℤ, negsuc}
use mapper_framework_c.Prelude.CString.{Str}
use mapper_framework_c.Common.Const.{success, failure}
use mapper_framework_c.Common.ConfigMapType.{DeviceInstance, DeviceModel}
use mapper_framework_c.Common.Cjson.{Cjson}
use mapper_framework_c.Parse.ResourceId.{get_resource_id}
use mapper_framework_c.Parse.FromGrpc.{DeviceMessage, SpecMessage, build_protocol_from_grpc}
use mapper_framework_c.Parse.FromGrpc.Instance.{
  ModelMessage, get_device_model_from_grpc, get_device_from_grpc,
}
use mapper_framework_c.Device.Types.{DeviceManager}
use mapper_framework_c.Device.Panel.{
  Outcome, crash, done, dev_panel_has_device, dev_panel_get_model, dev_panel_get_device,
  dev_panel_update_dev, dev_panel_update_model, dev_panel_remove_model,
}

-- The code of a call, and the name that its response carries.
pub record Reply : Type 0 where
  pub code : ℤ
  pub name : Option Str

abbrev pub refused : ℤ → Outcome Reply
refused code = done (record { code = code; name = none })

abbrev pub answered : Option Str → Outcome Reply
answered name = done (record { code = success; name = name })

-- The codes -2 and -3. The code -4 is for an instance that cannot be built, which happens for a
-- null device only.
abbrev pub no_model : ℤ
no_model = negsuc 1

abbrev pub bad_protocol : ℤ
bad_protocol = negsuc 2

module _ (j : Cjson) (m : DeviceManager) where
  -- The instance starts out as what the stack holds, `old`; the code of `dev_panel_update_dev` is
  -- not read.
  abbrev pub with_model :
      DeviceMessage
      → (old : DeviceInstance) → (name : Option Str) → Option DeviceModel
      → Outcome Reply
  with_model d old name none = refused no_model
  with_model d old name (some model) = elim (build_protocol_from_grpc j d) [
    | none ↦ refused bad_protocol
    | some protocol ↦ elim (get_device_from_grpc j d (some model) old) [
      | none ↦ crash
      | some inst ↦ answered name
    ]
  ]

  -- A device without a specification is read through a null pointer.
  unfoldable pub accept_device :
      DeviceMessage → (old : DeviceInstance) → (name : Option Str) → Outcome Reply
  accept_device d old name = elim d.spec [
    | none ↦ crash
    | some s ↦
        with_model d old name
          (dev_panel_get_model m (some (get_resource_id d.namespace s.device_model_reference 256)))
  ]

  unfoldable pub device_register : Option DeviceMessage → (old : DeviceInstance) → Outcome Reply
  device_register none old = refused failure
  device_register (some d) old =
      if dev_panel_has_device m (some (get_resource_id d.namespace (some d.name) 256))
      then answered (some d.name)
      else accept_device d old (some d.name)

  unfoldable pub device_update : Option DeviceMessage → (old : DeviceInstance) → Outcome Reply
  device_update none old = refused failure
  device_update (some d) old = accept_device d old none

  unfoldable pub device_create_model : Option ModelMessage → Outcome Reply
  device_create_model none = refused failure
  device_create_model (some model) = answered (some model.name)

  unfoldable pub device_update_model : Option ModelMessage → Outcome Reply
  device_update_model none = refused failure
  device_update_model (some model) =
      elim (dev_panel_get_model m (some (get_resource_id model.namespace (some model.name) 256))) [
        | none ↦ refused no_model
        | some found ↦ answered none
      ]

  -- The device of the response stays empty.
  unfoldable pub device_get : (namespace name : Option Str) → Outcome Reply
  device_get namespace none = refused failure
  device_get namespace (some name) =
      elim (dev_panel_get_device m (some (get_resource_id namespace (some name) 256))) [
        | none ↦ refused no_model
        | some inst ↦ answered none
      ]
