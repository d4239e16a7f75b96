-- ===== src/Device/Rebuild.antt =====
-- The twins and the method that device/device.c builds from the properties: lines 428 to 457 of
-- `device_new` and `device_runtime_rebuild`, lines 566 to 605.
pub mod Links
use mapper_framework_c.Prelude.{
  ℕ, suc, ◌+◌, Bool, true, false, not, ◌&&◌, ◌||◌, is_some, if◌then◌else◌, Option, none, some, List,
  [], ◌∷◌, map, any, or_default,
}
use mapper_framework_c.Prelude.CString.{Str, codes}
use mapper_framework_c.Common.ConfigMapType.{
  DeviceProperty, DeviceMethod, Twin, DeviceInstance, embedded, no_value,
}

-- `p->name ? strdup(p->name) : strdup("unknown")`
abbrev name_of : DeviceProperty → Option Str
name_of p = some (or_default p.name (codes "unknown"))

-- A twin for each property, from index `i` on, that points at it.
unfoldable pub twins_from : ℕ → List DeviceProperty → List Twin
twins_from i [] = []
twins_from i (p ∷ ps) =
    record {
      property_name = name_of p;
      property = some (embedded i);
      observed_desired = no_value;
      reported = no_value;
    }
    ∷ twins_from (i + 1) ps

unfoldable pub set_property_method : List DeviceProperty → DeviceMethod
set_property_method ps = record {
  name = some (codes "SetProperty");
  description = none;
  property_names = map name_of ps;
}

abbrev pub is_empty {ℓ} : {A : Type ℓ} → List A → Bool
is_empty [] = true
is_empty (x ∷ xs) = false

abbrev pub add_twins : DeviceInstance → DeviceInstance
add_twins inst =
    if is_empty inst.twins && not (is_empty inst.properties)
    then record inst { twins = twins_from 0 inst.properties }
    else inst

abbrev pub add_methods : DeviceInstance → DeviceInstance
add_methods inst =
    if is_empty inst.methods && not (is_empty inst.properties)
    then record inst { methods = set_property_method inst.properties ∷ [] }
    else inst

abbrev pub is_unbound : Twin → Bool
is_unbound t = not (is_some t.property)

abbrev pub needs_rebuild : DeviceInstance → Bool
needs_rebuild inst =
    (is_empty inst.twins && not (is_empty inst.properties)) || any is_unbound inst.twins

-- The twins are all built anew where one of them has no property.
unfoldable pub device_runtime_rebuild : DeviceInstance → DeviceInstance
device_runtime_rebuild inst =
    add_methods
      (if needs_rebuild inst then record inst { twins = twins_from 0 inst.properties } else inst)
