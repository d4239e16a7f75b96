-- ===== src/Device/New.antt =====
-- `device_new` of device/device.c, lines 221 to 461: a device is a copy of an instance and a model.
-- The texts and arrays are taken to be allocated; the allocations that have a failure path of
-- their own are parameters.
pub mod Fresh
use mapper_framework_c.Prelude.{
  ℕ, Bool, true, false, not, if◌then◌else◌, is_some, Option, none, some, List, [], ◌∷◌, map,
}
use mapper_framework_c.Prelude.Int.{ℤ, pos}
use mapper_framework_c.Prelude.CString.{Str, codes}
use mapper_framework_c.Common.Const.{device_status_unknown}
use mapper_framework_c.Common.ConfigMapType.{
  ProtocolConfig, DeviceMethod, DeviceProperty, ModelProperty, DeviceStatus, PropertyRef, embedded,
  owned, deref, Twin, TwinProperty, Metadata, DeviceInstance, DeviceModel,
}
use mapper_framework_c.Driver.{CustomizedClient, new_client}
use mapper_framework_c.Device.Types.{Device}
use mapper_framework_c.Device.Rebuild.{add_twins, add_methods}

-- The copy of the property is a block of the twin's own.
copy_ref : List DeviceProperty → Option PropertyRef → Option PropertyRef
copy_ref ps none = none
copy_ref ps (some r) = elim (deref ps r) [ none ↦ none | some p ↦ some (owned p) ]

unfoldable pub copy_twin : List DeviceProperty → Twin → Twin
unfolding copy_ref
copy_twin ps t = record {
  property_name = t.property_name;
  property = copy_ref ps t.property;
  observed_desired = t.observed_desired;
  reported = t.reported;
}

-- The visitors, the push method and the model property are not copied.
unfoldable pub copy_property : DeviceProperty → DeviceProperty
copy_property p = record {
  name = p.name;
  property_name = p.property_name;
  model_name = p.model_name;
  protocol = p.protocol;
  visitors = none;
  report_to_cloud = p.report_to_cloud;
  collect_cycle = p.collect_cycle;
  report_cycle = p.report_cycle;
  p_property = none;
}

unfoldable pub copy_method : DeviceMethod → DeviceMethod
copy_method m = record {
  name = m.name;
  description = m.description;
  property_names = m.property_names;
}

copy_model_property : ModelProperty → ModelProperty
copy_model_property p = record {
  name = p.name;
  data_type = p.data_type;
  description = p.description;
  access_mode = p.access_mode;
  minimum = p.minimum;
  maximum = p.maximum;
  unit = p.unit;
}

copy_model : DeviceModel → DeviceModel
unfolding copy_model_property
copy_model m = record {
  id = m.id;
  name = m.name;
  namespace = m.namespace;
  description = m.description;
  properties = map copy_model_property m.properties;
}

-- The namespace is written twice: from the instance, or "default", and then "test".
given_namespace : Option Str → Option Str
given_namespace none = some (codes "default")
given_namespace (some []) = some (codes "default")
given_namespace (some (c ∷ s)) = some (c ∷ s)

unfoldable pub copy_instance : DeviceInstance → DeviceInstance
unfolding given_namespace
copy_instance inst =
    let copied : DeviceInstance = record {
      id = inst.id;
      name = inst.name;
      namespace = given_namespace inst.namespace;
      protocol_name = inst.protocol_name;
      p_protocol = record {
        protocol_name = inst.p_protocol.protocol_name;
        config_data = inst.p_protocol.config_data;
      };
      model = inst.model;
      twins = map (copy_twin inst.properties) inst.twins;
      properties = map copy_property inst.properties;
      methods = map copy_method inst.methods;
      status = record { report_to_cloud = false; report_cycle = pos 0 };
    } in
    record copied { namespace = some (codes "test") }

-- The client is created for a device that names a protocol; `none` is the failure.
client_for : Bool → ProtocolConfig → Option (Option CustomizedClient)
client_for client_alloc p = for_name p.protocol_name
  where
    for_name : Option Str → Option (Option CustomizedClient)
    for_name none = some none
    for_name (some n) = elim (new_client client_alloc (some p)) [
      | none ↦ none
      | some c ↦ some (some c)
    ]

unfoldable pub fresh : DeviceInstance → DeviceModel → Option CustomizedClient → Device
unfolding copy_model
fresh inst model client = record {
  instance_of = add_methods (add_twins inst);
  model = copy_model model;
  client = client;
  status = some device_status_unknown;
  stop_chan = false;
  data_thread = none;
  data_thread_running = false;
}

with_client : DeviceInstance → DeviceModel → Option (Option CustomizedClient) → Option Device
with_client inst model none = none
with_client inst model (some client) = some (fresh inst model client)

-- `device_alloc`, `mutex_ok` and `client_alloc`: the first `calloc`, `pthread_mutex_init` and the
-- `calloc` of `NewClient` succeed.
unfoldable pub device_new :
    (device_alloc mutex_ok client_alloc : Bool)
    → Option DeviceInstance
    → Option DeviceModel
    → Option Device
unfolding client_for with_client
device_new device_alloc mutex_ok client_alloc (some inst) (some model) =
    let copied = copy_instance inst in
    if not device_alloc
    then none
    else if not mutex_ok
    then none
    else with_client copied model (client_for client_alloc copied.p_protocol)
device_new device_alloc mutex_ok client_alloc _ _ = none
