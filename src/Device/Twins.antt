-- ===== src/Device/Twins.antt =====
-- device/devicetwin.c: reading and writing the twins of a device on request.
pub mod Access
pub mod Processor
use mapper_framework_c.Prelude.{
  ℕ, Bool, true, false, not, ◌||◌, is_some, if◌then◌else◌, Option, none, some, List, [], ◌∷◌, ◌++◌,
}
use mapper_framework_c.Prelude.Int.{ℤ, pos}
use mapper_framework_c.Prelude.CString.{Str, codes, str_eq}
use mapper_framework_c.Common.Const.{success, failure, is_zero}
use mapper_framework_c.Common.Cjson.{Cjson}
use mapper_framework_c.Common.ConfigMapType.{
  Twin, PropertyRef, DeviceProperty, DeviceInstance, deref,
}
use mapper_framework_c.Driver.{VisitorConfig, get_device_data, device_data_write}
use mapper_framework_c.Device.Types.{Device, TwinResult}

abbrev pub has_name : Str → Twin → Bool
has_name name t = elim t.property_name [ none ↦ false | some n ↦ str_eq n name ]

-- The first twin of that name.
unfoldable pub find_twin : Str → List Twin → Option Twin
find_twin name [] = none
find_twin name (t ∷ ts) = let rest = find_twin name ts in if has_name name t then some t else rest

-- What the buffer of the caller holds behind `memset` and the time stamp.
abbrev pub blank : ℤ → TwinResult
blank now = record { succeeded = false; value = none; error = none; timestamp = now }

abbrev refuse : ℤ → Str → ℤ × TwinResult
refuse now why = (failure, record (blank now) { error = some why })

abbrev accept : ℤ → Str → ℤ × TwinResult
accept now v = (success, record (blank now) { value = some v; succeeded = true })

visitors_of : DeviceInstance → Option PropertyRef → Option Str
visitors_of inst none = none
visitors_of inst (some r) = elim (deref inst.properties r) [ none ↦ none | some p ↦ p.visitors ]

unfoldable pub visitor_for : Device → Str → Twin → VisitorConfig
unfolding visitors_of
visitor_for d name t = record {
  protocol_name = d.instance_of.protocol_name;
  property_name = some name;
  config_data = visitors_of d.instance_of t.property;
}

read_back : ℤ → ℤ × Option Str → ℤ × TwinResult
read_back now (ret, none) = refuse now (codes "Failed to read device data")
read_back now (ret, some v) =
    if is_zero ret then accept now v else refuse now (codes "Failed to read device data")

get_found : ℤ → Device → Str → Option Twin → ℤ × TwinResult
unfolding read_back
get_found now d name none = refuse now (codes "Property not found")
get_found now d name (some t) = elim t.reported.value [
  | some v ↦ accept now v
  | none ↦ read_back now (get_device_data d.client (some (visitor_for d name t)))
]

-- `now` is the time in milliseconds; the result is the one that the caller passed in if the name is
-- null.
unfoldable pub devicetwin_get : (now : ℤ) → Device → Option Str → TwinResult → ℤ × TwinResult
unfolding get_found
devicetwin_get now d none result = (failure, result)
devicetwin_get now d (some name) result = get_found now d name (find_twin name d.instance_of.twins)

unfoldable pub devicetwin_validate_data : Twin → Option Str → ℤ
devicetwin_validate_data t none = failure
devicetwin_validate_data t (some []) = failure
devicetwin_validate_data t (some (c ∷ s)) = if is_some t.property then success else failure

-- The value that is reported for a write: what is read back, or else what was written.
after_write : ℤ → Str → ℤ × Option Str → ℤ × TwinResult
after_write now value (ret, none) = accept now value
after_write now value (ret, some v) = accept now (if is_zero ret then v else value)

set_valid : ℤ → Device → Str → Str → Twin → ℤ × TwinResult
unfolding after_write
set_valid now d name value t =
    let visitor = some (visitor_for d name t) in
    if not (is_zero (device_data_write d.client visitor))
    then refuse now (codes "Failed to write device data")
    else after_write now value (get_device_data d.client visitor)

set_found : ℤ → Device → Str → Str → Option Twin → ℤ × TwinResult
unfolding set_valid
set_found now d name value none = refuse now (codes "Property not found or not configured")
set_found now d name value (some t) =
    if not (is_some t.property)
    then refuse now (codes "Property not found or not configured")
    else if not (is_zero (devicetwin_validate_data t (some value)))
    then refuse now (codes "Invalid data value")
    else set_valid now d name value t

unfoldable pub devicetwin_set :
    (now : ℤ) → Device → (property_name value : Option Str) → TwinResult → ℤ × TwinResult
unfolding set_found
devicetwin_set now d (some name) (some value) result =
    set_found now d name value (find_twin name d.instance_of.twins)
devicetwin_set now d _ _ result = (failure, result)

unfoldable pub devicetwin_process_data : Twin → Option Str → ℤ
devicetwin_process_data t none = failure
devicetwin_process_data t (some v) = success

-- The code, and what `*convertedValue` is afterwards if it was null.
unfoldable pub devicetwin_convert_data : Twin → Option Str → ℤ × Option Str
devicetwin_convert_data t none = (failure, none)
devicetwin_convert_data t (some raw) =
    if is_some t.property then (success, some raw) else (failure, none)

module _ (js : Cjson) where
  open js use {
    create_object, add_string_to_object, add_number_to_object, add_item_to_object,
    print_unformatted,
  }

  unfoldable pub devicetwin_build_report_data :
      (property_name value : Option Str) (timestamp : ℤ) → Option Str
  devicetwin_build_report_data (some name) (some value) timestamp =
      let reported =
        add_number_to_object (add_string_to_object create_object name (some value))
          (codes "timestamp") timestamp in
      let twin = add_item_to_object create_object (codes "reported") reported in
      print_unformatted (add_item_to_object create_object (codes "twin") twin)
  devicetwin_build_report_data _ _ timestamp = none

  -- The code, and the texts that are logged in place of being sent.
  unfoldable pub devicetwin_report_to_cloud :
      (now : ℤ) (property_name value : Option Str) → ℤ × List Str
  devicetwin_report_to_cloud now name value = elim (devicetwin_build_report_data name value now) [
    | none ↦ (failure, [])
    | some text ↦ (success, text ∷ [])
  ]

  report_if : ℤ → Str → ℤ × TwinResult → List Str
  report_if now name (code, result) =
      if is_zero code then (devicetwin_report_to_cloud now (some name) result.value).1 else []

  report_change : ℤ → Device → Twin → Str → Option Str → Option Str → List Str
  unfolding report_if
  report_change now d t name (some desired) (some reported) =
      if str_eq desired reported
      then []
      else report_if now name (devicetwin_set now d (some name) (some desired) (blank now))
  report_change now d t name _ _ = []

  -- The code, and the texts that are reported.
  unfoldable pub devicetwin_deal : (now : ℤ) → Device → Twin → ℤ × List Str
  unfolding report_if report_change
  devicetwin_deal now d t = by_name t.property_name
    where
      by_name : Option Str → ℤ × List Str
      by_name none = (failure, [])
      by_name (some name) = if not (is_some t.property) then (failure, []) else (
        success,
        report_if now name (devicetwin_get now d (some name) (blank now))
            ++ report_change now d t name t.observed_desired.value t.reported.value,
      )

  unfoldable pub devicetwin_handle_desired_change :
      (now : ℤ) → Device → Twin → Option Str → ℤ × List Str
  unfolding report_if
  devicetwin_handle_desired_change now d t none = (failure, [])
  devicetwin_handle_desired_change now d t (some new_value) = by_name t.property_name
    where
      by_name : Option Str → ℤ × List Str
      by_name none = (success, [])
      by_name (some name) = (
        success,
        report_if now name (devicetwin_set now d (some name) (some new_value) (blank now)),
      )

  unfoldable pub devicetwin_handle_reported_update : (now : ℤ) → Twin → Option Str → ℤ × List Str
  devicetwin_handle_reported_update now t none = (failure, [])
  devicetwin_handle_reported_update now t (some new_value) =
      devicetwin_report_to_cloud now t.property_name (some new_value)
