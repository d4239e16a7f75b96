-- ===== src/Device/Twins/Access.antt =====
-- When a twin is read and written, and what comes back.
use mapper_framework_c.Prelude.{
  ◌≡◌, ◌≢◌, ◌↔◌, true, Bool-cases, inl, inr, is_some, none, some, Option-cases, List, [], ◌∷◌,
  arith,
}
use mapper_framework_c.Prelude.Int.{ℤ}
use mapper_framework_c.Prelude.CString.{Str, str_eq_iff}
use mapper_framework_c.Common.Const.{success}
use mapper_framework_c.Common.ConfigMapType.{Twin}
use mapper_framework_c.Driver.{get_device_data, device_data_write}
use mapper_framework_c.Device.Types.{Device, TwinResult}
use mapper_framework_c.Device.Twins.{
  has_name, find_twin, blank, devicetwin_get, devicetwin_validate_data, set_found, devicetwin_set,
}

has_name-eq : (name : Str) (t : Twin) → has_name name t ≡ true → t.property_name ≡ some name
has_name-eq name t h = elim (Option-cases t.property_name) [
  | inl e ↦ ground arith
  | inr (n, e) ↦ ground (arith, str_eq_iff n name)
]

-- What `find_twin` gives has that name.
pub find_twin-name :
    (name : Str) (ts : List Twin) {t : Twin}
    → find_twin name ts ≡ some t
    → t.property_name ≡ some name
unfolding find_twin
find_twin-name name [] h = cc
find_twin-name name (x ∷ ts) {t} h = elim (Bool-cases (has_name name x)) [
  | inl y ↦ ground (arith, has_name-eq name x y)
  | inr n ↦ find_twin-name name ts {t = t} (ground arith)
]

set_found_iff :
    (now : ℤ) (d : Device) (name value : Str) (t : Twin)
    → ((set_found now d name value (some t)).0 ≡ success)
      ↔ ((is_some t.property ≡ true) × (value ≢ []) × (is_some d.client ≡ true))
unfolding set_found devicetwin_validate_data device_data_write get_device_data
set_found_iff now d name [] t = ground arith
set_found_iff now d name (c ∷ s) t = ground arith

-- A write request has code 0 exactly if the device has a twin of that name whose first one has a
-- property, the value is not empty, and the device has a client.
pub devicetwin_set_iff :
    (now : ℤ) (d : Device) (name value : Str) (result : TwinResult)
    → ((devicetwin_set now d (some name) (some value) result).0 ≡ success) ↔ (
        (t : Twin) × (find_twin name d.instance_of.twins ≡ some t)
        × (is_some t.property ≡ true)
        × (value ≢ [])
        × (is_some d.client ≡ true))
devicetwin_set_iff now d name value result = (there, back)
  where
    there :
        (devicetwin_set now d (some name) (some value) result).0 ≡ success
        → (t : Twin) × (find_twin name d.instance_of.twins ≡ some t)
          × (is_some t.property ≡ true)
          × (value ≢ [])
          × (is_some d.client ≡ true)
    there h = elim (Option-cases (find_twin name d.instance_of.twins)) [
      | inl e ↦ absurd (missing e h)
      | inr (t, e) ↦
          let (p, v, c) = (set_found_iff now d name value t).0 (found t e h) in (t, e, p, v, c)
    ]
      where
        missing :
            find_twin name d.instance_of.twins ≡ none
            → ¬ ((devicetwin_set now d (some name) (some value) result).0 ≡ success)
        missing e h = unfold devicetwin_set set_found in cc (rw e at h)

        found :
            (t : Twin)
            → find_twin name d.instance_of.twins ≡ some t
            → (devicetwin_set now d (some name) (some value) result).0 ≡ success
            → (set_found now d name value (some t)).0 ≡ success
        found t e h = unfold devicetwin_set in rw e at h

    back :
        (t : Twin) × (find_twin name d.instance_of.twins ≡ some t)
          × (is_some t.property ≡ true)
          × (value ≢ [])
          × (is_some d.client ≡ true)
        → (devicetwin_set now d (some name) (some value) result).0 ≡ success
    back (t, e, p, v, c) =
        unfold devicetwin_set in rw e ((set_found_iff now d name value t).1 (p, v, c))

-- A read request of a twin that has a reported value gives that value.
pub devicetwin_get_reported :
    (now : ℤ) (d : Device) (name v : Str) (result : TwinResult) {t : Twin}
    → find_twin name d.instance_of.twins ≡ some t
    → t.reported.value ≡ some v
    → devicetwin_get now d (some name) result
      ≡ (success, record (blank now) { value = some v; succeeded = true })
unfolding devicetwin_get
devicetwin_get_reported now d name v result h e = rw (h, e)
