-- ===== src/GrpcServer/Registered.antt =====
-- Which requests of the device service succeed.
use mapper_framework_c.Prelude.{◌≡◌, ap, ◌∙◌, false, if◌then◌else◌, Option, none, some}
use mapper_framework_c.Common.ConfigMapType.{DeviceInstance}
use mapper_framework_c.Common.Cjson.{Cjson}
use mapper_framework_c.Parse.ResourceId.{get_resource_id, printed, has_slash}
use mapper_framework_c.Parse.FromGrpc.{DeviceMessage, SpecMessage}
use mapper_framework_c.Device.Types.{DeviceManager}
use mapper_framework_c.Device.Panel.{crash, dev_panel_has_device, dev_panel_get_model}
use mapper_framework_c.Device.Panel.Models.{ShortNamespaces, dev_panel_get_model-get_resource_id}
use mapper_framework_c.GrpcServer.{
  refused, answered, no_model, with_model, accept_device, device_register,
}

-- A registration succeeds exactly for a device that is known already; any other device is refused
-- with the code -2, for its model is never found. The device has a specification, its namespace and
-- the name of its model have no slash, and all models have namespaces shorter than 255 bytes.
pub device_register_lem :
    (j : Cjson) (m : DeviceManager) (d : DeviceMessage) (old : DeviceInstance) {s : SpecMessage}
    → d.spec ≡ some s
    → has_slash (printed d.namespace) ≡ false
    → has_slash (printed s.device_model_reference) ≡ false
    → ShortNamespaces m.devices
    → device_register j m (some d) old ≡ (
        if dev_panel_has_device m (some (get_resource_id d.namespace (some d.name) 256))
        then answered (some d.name)
        else refused no_model)
unfolding device_register
device_register_lem j m d old {s} e h k n =
    ap
      (λ r.
        if dev_panel_has_device m (some (get_resource_id d.namespace (some d.name) 256))
        then answered (some d.name)
        else r)
      unknown
  where
    unknown : accept_device j m d old (some d.name) ≡ refused no_model
    unknown =
        unfold accept_device in
        ap
          (λ (o : Option SpecMessage). elim o [
            | none ↦ crash
            | some s ↦ with_model j m d old (some d.name) (
                dev_panel_get_model m
                  (some (get_resource_id d.namespace s.device_model_reference 256)))
          ])
          e
        ∙ ap (with_model j m d old (some d.name))
            (dev_panel_get_model-get_resource_id m d.namespace s.device_model_reference 256 n h k)
