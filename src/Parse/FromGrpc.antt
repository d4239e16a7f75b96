-- ===== src/Parse/FromGrpc.antt =====
-- util/parse/grpc.c, lines 7 to 240: instances and models are built from the messages of the device
-- service.
pub mod Instance
pub mod Linking
use mapper_framework_c.Prelude.{
  ℕ, zero, suc, Bool, ◌==◌, if◌then◌else◌, Option, none, some, List, [], ◌∷◌, ◌++◌, map, or_default,
}
use mapper_framework_c.Prelude.Int.{ℤ}
use mapper_framework_c.Prelude.CString.{Str, codes, str_eq}
use mapper_framework_c.Common.ConfigMapType.{
  ProtocolConfig, DeviceMethod, DeviceStatus, ModelProperty, DeviceProperty, Metadata, TwinProperty,
  Twin, DeviceInstance, DeviceModel, embedded, no_value,
}
use mapper_framework_c.Common.Cjson.{Cjson}
use mapper_framework_c.Parse.TwinConv.{MetadataEntry, GrpcTwinProperty}

-- The messages. A text of an unpacked message is never null; a text that the code tests for null is
-- an option all the same, and so is a pointer to another message. The value of an entry is the byte
-- string of its `Any`.
pub record DataEntry : Type 0 where
  pub key : Str
  pub value : Option Str

pub record ProtocolMessage : Type 0 where
  pub protocol_name : Option Str
  pub config_data : Option (List DataEntry)

pub record PropertyMessage : Type 0 where
  pub name : Str
  pub desired : Option GrpcTwinProperty
  pub visitors : Option ProtocolMessage
  pub collect_cycle : ℤ
  pub report_cycle : ℤ
  pub report_to_cloud : Bool

pub record MethodMessage : Type 0 where
  pub name : Str
  pub description : Option Str
  pub property_names : List Str

pub record SpecMessage : Type 0 where
  pub device_model_reference : Option Str
  pub protocol : Option ProtocolMessage
  pub properties : List PropertyMessage
  pub methods : List MethodMessage

pub record DeviceMessage : Type 0 where
  pub name : Str
  pub namespace : Option Str
  pub spec : Option SpecMessage
  pub status : Option DeviceStatus

-- The bytes as a C string: they end at the first zero.
c_string : Str → Str
c_string [] = []
c_string (c ∷ s) = let rest = c_string s in if c == 0 then [] else c ∷ rest

unfoldable pub any_to_string : Option Str → Str
unfolding c_string
any_to_string none = []
any_to_string (some data_bytes) = c_string data_bytes

name_in_protocol : Option ProtocolMessage → Option Str
name_in_protocol none = none
name_in_protocol (some p) = p.protocol_name

-- `none` is the code -1.
unfoldable pub get_protocol_name_from_grpc : DeviceMessage → Option Str
unfolding name_in_protocol
get_protocol_name_from_grpc d = elim d.spec [ none ↦ none | some s ↦ name_in_protocol s.protocol ]

module _ (j : Cjson) where
  unfoldable pub add_entries : Cjson.Node j → List DataEntry → Cjson.Node j
  add_entries node [] = node
  add_entries node (e ∷ es) =
      add_entries (j.add_string_to_object node e.key (some (any_to_string e.value))) es

  with_config : Cjson.Node j → Option (List DataEntry) → Cjson.Node j
  unfolding add_entries
  with_config node none = node
  with_config node (some es) =
      j.add_item_to_object node (codes "configData") (add_entries j.create_object es)

  config_of : DeviceMessage → Option (List DataEntry)
  config_of d = elim d.spec [
    | none ↦ none
    | some s ↦ elim s.protocol [ none ↦ none | some p ↦ p.config_data ]
  ]

  -- `none` is the code -1, with nothing written.
  unfoldable pub build_protocol_from_grpc : DeviceMessage → Option ProtocolConfig
  unfolding with_config config_of
  build_protocol_from_grpc d = elim (get_protocol_name_from_grpc d) [
    | none ↦ none
    | some name ↦ some (record {
      protocol_name = some name;
      config_data = j.print_unformatted (
          with_config (j.add_string_to_object j.create_object (codes "protocolName") (some name))
            (config_of d));
    })
  ]

  visitor_node : Option ProtocolMessage → Cjson.Node j
  unfolding add_entries
  visitor_node none = j.create_object
  visitor_node (some v) =
      j.add_item_to_object
        (j.add_string_to_object j.create_object (codes "protocolName") v.protocol_name)
        (codes "configData") (add_entries j.create_object (or_default v.config_data []))

  unfoldable pub property_from_grpc :
      (model_reference protocol_name : Option Str) → PropertyMessage → DeviceProperty
  unfolding visitor_node
  property_from_grpc model_reference protocol_name p = record {
    name = some p.name;
    property_name = some p.name;
    model_name = model_reference;
    protocol = protocol_name;
    visitors = j.print_unformatted (visitor_node p.visitors);
    report_to_cloud = p.report_to_cloud;
    collect_cycle = p.collect_cycle;
    report_cycle = p.report_cycle;
    p_property = none;
  }

-- The loop over the metadata; the key "timestamp" is tested first.
desired_metadata : Metadata → List MetadataEntry → Metadata
desired_metadata m [] = m
desired_metadata m (e ∷ es) =
    let stamped =
      if str_eq e.key (codes "timestamp") then record m { timestamp = e.value } else m in
    desired_metadata
      (if str_eq e.key (codes "type") then record stamped { type_name = e.value } else stamped) es

desired_property : Option GrpcTwinProperty → TwinProperty
unfolding desired_metadata
desired_property none = no_value
desired_property (some g) = record {
  value = g.value;
  metadata = desired_metadata no_value.metadata g.metadata;
}

unfoldable pub twin_from_grpc : PropertyMessage → Twin
unfolding desired_property
twin_from_grpc p = record {
  property_name = some p.name;
  property = none;
  observed_desired = desired_property p.desired;
  reported = no_value;
}

unfoldable pub method_from_grpc : MethodMessage → DeviceMethod
method_from_grpc m = record {
  name = some m.name;
  description = m.description;
  property_names = map (λ s. some s) m.property_names;
}

-- One place further; the outer `none` is a `strcmp` of a null pointer.
abbrev pub bump : Option (Option ℕ) → Option (Option ℕ)
bump none = none
bump (some none) = some none
bump (some (some i)) = some (some (suc i))

abbrev pub at_name : Str → Option Str → Option (Option ℕ) → Option (Option ℕ)
at_name name none rest = none
at_name name (some n) rest = if str_eq name n then some (some 0) else bump rest

-- The first model property of that name.
unfoldable pub model_index : Str → List ModelProperty → Option (Option ℕ)
model_index name [] = some none
model_index name (m ∷ ms) = at_name name m.name (model_index name ms)

-- The first property of that name.
unfoldable pub property_index : Str → List DeviceProperty → Option (Option ℕ)
property_index name [] = some none
property_index name (p ∷ ps) = at_name name p.property_name (property_index name ps)

-- The names of the properties and twins that are linked come from the messages.
abbrev pub linked_property : DeviceProperty → Option (Option ℕ) → Option DeviceProperty
linked_property p none = none
linked_property p (some found) = some (record p { p_property = found })

abbrev pub linked_twin : Twin → Option (Option ℕ) → Option Twin
linked_twin t none = none
linked_twin t (some none) = some t
linked_twin t (some (some i)) = some (record t { property = some (embedded i) })

abbrev pub cons_both {ℓ} : {A : Type ℓ} → Option A → Option (List A) → Option (List A)
cons_both none rest = none
cons_both (some x) none = none
cons_both (some x) (some xs) = some (x ∷ xs)

unfoldable pub link_properties :
    List ModelProperty → List DeviceProperty → Option (List DeviceProperty)
link_properties ms [] = some []
link_properties ms (p ∷ ps) =
    cons_both (linked_property p (model_index (or_default p.property_name []) ms))
      (link_properties ms ps)

unfoldable pub link_twins : List DeviceProperty → List Twin → Option (List Twin)
link_twins ps [] = some []
link_twins ps (t ∷ ts) =
    cons_both (linked_twin t (property_index (or_default t.property_name []) ps)) (link_twins ps ts)
