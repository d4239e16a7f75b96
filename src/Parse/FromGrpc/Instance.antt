-- ===== src/Parse/FromGrpc/Instance.antt =====
-- `get_device_model_from_grpc` and `get_device_from_grpc` of util/parse/grpc.c.
use mapper_framework_c.Prelude.{Option, none, some, List, [], ◌∷◌, ◌++◌, map, or_default}
use mapper_framework_c.Prelude.CString.{Str}
use mapper_framework_c.Common.ConfigMapType.{ModelProperty, DeviceInstance, DeviceModel}
use mapper_framework_c.Common.Cjson.{Cjson}
use mapper_framework_c.Parse.FromGrpc.{
  DeviceMessage, SpecMessage, get_protocol_name_from_grpc, build_protocol_from_grpc,
  property_from_grpc, twin_from_grpc, method_from_grpc, link_properties, link_twins,
}

pub record ModelPropertyMessage : Type 0 where
  pub name : Str
  pub type_name : Str
  pub description : Option Str
  pub access_mode : Option Str
  pub minimum : Option Str
  pub maximum : Option Str
  pub unit : Option Str

pub record ModelMessage : Type 0 where
  pub name : Str
  pub namespace : Option Str
  pub properties : Option (List ModelPropertyMessage)

model_property_from_grpc : ModelPropertyMessage → ModelProperty
model_property_from_grpc p = record {
  name = some p.name;
  data_type = some p.type_name;
  description = p.description;
  access_mode = p.access_mode;
  minimum = p.minimum;
  maximum = p.maximum;
  unit = p.unit;
}

unfoldable pub get_device_model_from_grpc : ModelMessage → DeviceModel
unfolding model_property_from_grpc
get_device_model_from_grpc m = record {
  id = none;
  name = some m.name;
  namespace = m.namespace;
  description = none;
  properties = map model_property_from_grpc (or_default m.properties []);
}

-- The two loops that link the properties to the model and the twins to the properties.
unfoldable pub link_instance : List ModelProperty → DeviceInstance → Option DeviceInstance
link_instance ms inst = elim (link_properties ms inst.properties) [
  | none ↦ none
  | some ps ↦ elim (link_twins ps inst.twins) [
    | none ↦ none
    | some ts ↦ some (record inst { properties = ps; twins = ts })
  ]
]

abbrev joined_name : Str → Option Str → Option Str
joined_name device none = none
joined_name device (some protocol) = some (protocol ++ b'-' ∷ device)

-- `old` is what the instance holds before: the protocol and the status are kept where the message
-- has none.
unfoldable pub built_instance :
    Cjson → DeviceMessage → SpecMessage → (old : DeviceInstance) → DeviceInstance
built_instance j d s old =
    let protocol = get_protocol_name_from_grpc d in
    record {
      id = none;
      name = some d.name;
      namespace = d.namespace;
      protocol_name = joined_name d.name protocol;
      p_protocol = or_default (build_protocol_from_grpc j d) old.p_protocol;
      model = s.device_model_reference;
      twins = map twin_from_grpc s.properties;
      properties = map (property_from_grpc j s.device_model_reference protocol) s.properties;
      methods = map method_from_grpc s.methods;
      status = or_default d.status old.status;
    }

abbrev pub link_with : Option DeviceModel → DeviceInstance → Option DeviceInstance
link_with none inst = some inst
link_with (some m) inst = link_instance m.properties inst

-- `none` is a use of a null pointer: a device without a specification, or a property of the model
-- without a name. The code is 0 otherwise.
unfoldable pub get_device_from_grpc :
    Cjson
    → DeviceMessage
    → (common : Option DeviceModel) → (old : DeviceInstance) → Option DeviceInstance
get_device_from_grpc j d common old = elim d.spec [
  | none ↦ none
  | some s ↦ link_with common (built_instance j d s old)
]
