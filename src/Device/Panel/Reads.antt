-- ===== src/Device/Panel/Reads.antt =====
-- Reads and writes of twins through the panel.
use mapper_framework_c.Prelude.{
  ◌≡◌, ◌≢◌, ◌↔◌, refl, sym, ◌∙◌, Bool, true, false, inl, inr, is_some, Option, none, some,
  Option-cases, List, [], ◌∷◌, ◌++◌, all, any, arith, or_default,
}
use mapper_framework_c.Prelude.Int.{ℤ}
use mapper_framework_c.Prelude.CString.{Str, codes}
use mapper_framework_c.Common.Const.{success, failure}
use mapper_framework_c.Common.ConfigMapType.{Twin}
use mapper_framework_c.Device.Types.{Device, DeviceManager}
use mapper_framework_c.Device.Manager.{device_manager_get}
use mapper_framework_c.Device.Twins.{has_name, find_twin, blank, devicetwin_set}
use mapper_framework_c.Device.Twins.Access.{devicetwin_set_iff}
use mapper_framework_c.Device.Panel.{
  crash, done, Reply, no_reply, scan_twins, dev_panel_get_twin_result, dev_panel_write_device,
}

abbrev pub reply_for : Option Twin → Reply
reply_for none = no_reply
reply_for (some t) = (success, some (or_default t.reported.value (codes "null"), codes "string"))

abbrev pub all_named : List Twin → Bool
all_named = all (λ (t : Twin). is_some t.property_name)

scan_twins-find_twin :
    (name : Str) (ts : List Twin)
    → all_named ts ≡ true
    → scan_twins name ts ≡ done (reply_for (find_twin name ts))
unfolding scan_twins find_twin
scan_twins-find_twin name [] h = refl
scan_twins-find_twin name (t ∷ ts) h = ground (arith, scan_twins-find_twin name ts)

-- For a device whose twins all have names the panel's read answers: with the reported value of the
-- first twin of that name, "null" if it has none, or with -1 if there is no such twin.
pub dev_panel_get_twin_result_lem :
    (m : DeviceManager) (id name : Str) {d : Device}
    → device_manager_get m (some id) ≡ some d
    → all_named d.instance_of.twins ≡ true
    → dev_panel_get_twin_result m (some id) name
      ≡ done (reply_for (find_twin name d.instance_of.twins))
unfolding dev_panel_get_twin_result
dev_panel_get_twin_result_lem m id name {d} e h =
    rw (e, dev_panel_get_twin_result) (scan_twins-find_twin name d.instance_of.twins h)

-- Where an unnamed twin stands before the first one of that name, the read compares with a null
-- pointer.
pub dev_panel_get_twin_result-crash :
    (m : DeviceManager) (id name : Str) (front back : List Twin) (t : Twin) {d : Device}
    → device_manager_get m (some id) ≡ some d
    → d.instance_of.twins ≡ front ++ t ∷ back
    → any (has_name name) front ≡ false
    → t.property_name ≡ none
    → dev_panel_get_twin_result m (some id) name ≡ crash
unfolding dev_panel_get_twin_result
dev_panel_get_twin_result-crash m id name front back t {d} e s h n =
    rw (e, dev_panel_get_twin_result, s) (scan front h)
  where
    scan :
        (front : List Twin)
        → any (has_name name) front ≡ false
        → scan_twins name (front ++ t ∷ back) ≡ crash
    scan [] h = unfold scan_twins in rw (n, scan_twins)
    scan (x ∷ front) h = unfold scan_twins in ground (arith, scan front)

module _ (now : ℤ) (m : DeviceManager) (id name value : Str) where
  write_missing :
      device_manager_get m (some id) ≡ none
      → dev_panel_write_device now m (some id) (some name) (some value) ≡ failure
  unfolding dev_panel_write_device
  write_missing e = rw (e, dev_panel_write_device)

  write_found :
      (d : Device)
      → device_manager_get m (some id) ≡ some d
      → dev_panel_write_device now m (some id) (some name) (some value) ≡ success
      → (devicetwin_set now d (some name) (some value) (blank now)).0 ≡ success
  unfolding dev_panel_write_device
  write_found d e h = ground arith

  write_set :
      (d : Device)
      → device_manager_get m (some id) ≡ some d
      → (devicetwin_set now d (some name) (some value) (blank now)).0 ≡ success
      → dev_panel_write_device now m (some id) (some name) (some value) ≡ success
  unfolding dev_panel_write_device
  write_set d e h = ground arith

-- A write through the panel has code 0 exactly if the device is found, it has a twin of that name
-- whose first one has a property, the value is not empty, and the device has a client.
pub dev_panel_write_device_iff :
    (now : ℤ) (m : DeviceManager) (id name value : Str)
    → (dev_panel_write_device now m (some id) (some name) (some value) ≡ success) ↔ (
        (d : Device) × (t : Twin) × (device_manager_get m (some id) ≡ some d)
        × (find_twin name d.instance_of.twins ≡ some t)
        × (is_some t.property ≡ true)
        × (value ≢ [])
        × (is_some d.client ≡ true))
dev_panel_write_device_iff now m id name value = (there, back)
  where
    Ready : Type 0
    Ready =
        (d : Device) × (t : Twin) × (device_manager_get m (some id) ≡ some d)
        × (find_twin name d.instance_of.twins ≡ some t)
        × (is_some t.property ≡ true)
        × (value ≢ [])
        × (is_some d.client ≡ true)

    there : dev_panel_write_device now m (some id) (some name) (some value) ≡ success → Ready
    there h = elim (Option-cases (device_manager_get m (some id))) [
      | inl e ↦ cc (sym (write_missing now m id name value e) ∙ h)
      | inr (d, e) ↦
          let written = write_found now m id name value d e h in
          let (t, f, p, v, c) = (devicetwin_set_iff now d name value (blank now)).0 written in
          (d, t, e, f, p, v, c)
    ]

    back : Ready → dev_panel_write_device now m (some id) (some name) (some value) ≡ success
    back (d, t, e, f, p, v, c) =
        write_set now m id name value d e
          ((devicetwin_set_iff now d name value (blank now)).1 (t, f, p, v, c))
