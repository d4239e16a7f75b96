-- ===== src/Parse/TwinConv.antt =====
-- util/parse/type.c, lines 5 to 94: twins to and from the messages of the device manager service.
pub mod RoundTrip
use mapper_framework_c.Prelude.{if◌then◌else◌, Option, none, some, List, [], ◌∷◌, map}
use mapper_framework_c.Prelude.CString.{Str, codes, str_eq}
use mapper_framework_c.Common.ConfigMapType.{Metadata, TwinProperty, Twin}

-- The messages, with a pointer that may be null as an option. A key of a map entry is never null.
pub record MetadataEntry : Type 0 where
  pub key : Str
  pub value : Option Str

pub record GrpcTwinProperty : Type 0 where
  pub value : Option Str
  pub metadata : List MetadataEntry

pub record GrpcTwin : Type 0 where
  pub property_name : Option Str
  pub observed_desired : Option GrpcTwinProperty
  pub reported : Option GrpcTwinProperty

entry : Str → Option Str → MetadataEntry
entry key value = record { key = key; value = value }

unfoldable pub property_to_grpc : TwinProperty → GrpcTwinProperty
unfolding entry
property_to_grpc p = record {
  value = p.value;
  metadata =
      entry (codes "type") p.metadata.type_name
      ∷ entry (codes "timestamp") p.metadata.timestamp
      ∷ [];
}

unfoldable pub twin_to_grpc : Twin → GrpcTwin
twin_to_grpc t = record {
  property_name = t.property_name;
  observed_desired = some (property_to_grpc t.observed_desired);
  reported = some (property_to_grpc t.reported);
}

unfoldable pub conv_twins_to_grpc : List Twin → List GrpcTwin
conv_twins_to_grpc ts = map twin_to_grpc ts

-- The first source of that name; the outer `none` is a `strcmp` of a null pointer.
unfoldable pub find_source : Option Str → List Twin → Option (Option Twin)
find_source name [] = some none
find_source none (t ∷ ts) = none
find_source (some name) (t ∷ ts) =
    let rest = find_source (some name) ts in
    elim t.property_name [ none ↦ none | some n ↦ if str_eq name n then some (some t) else rest ]

-- The two tests of the loop over the map entries.
unfoldable pub set_entry : Metadata → MetadataEntry → Metadata
set_entry m e =
    let typed = if str_eq e.key (codes "type") then record m { type_name = e.value } else m in
    if str_eq e.key (codes "timestamp") then record typed { timestamp = e.value } else typed

unfoldable pub set_entries : Metadata → List MetadataEntry → Metadata
set_entries m [] = m
set_entries m (e ∷ es) = set_entries (set_entry m e) es

unfoldable pub update_property : TwinProperty → Option GrpcTwinProperty → TwinProperty
update_property p none = p
update_property p (some g) = record {
  value = g.value;
  metadata = set_entries p.metadata g.metadata;
}

unfoldable pub update_twin : Twin → GrpcTwin → Twin
update_twin t g = record t {
  observed_desired = update_property t.observed_desired g.observed_desired;
  reported = update_property t.reported g.reported;
}

abbrev pub put : Option (Option Twin) → GrpcTwin → Option (List Twin) → Option (List Twin)
put none g rest = none
put (some none) g rest = rest
put (some (some t)) g none = none
put (some (some t)) g (some ts) = some (update_twin t g ∷ ts)

-- A twin of no source is left out; `none` is a `strcmp` of a null pointer.
unfoldable pub conv_grpc_to_twins : List GrpcTwin → (src : List Twin) → Option (List Twin)
conv_grpc_to_twins [] src = some []
conv_grpc_to_twins (g ∷ gs) src =
    put (find_source g.property_name src) g (conv_grpc_to_twins gs src)
