-- ===== src/Device/Manager/Lookup.antt =====
-- The manager as a list of named devices: what is taken out by a removal and found by a lookup.
use mapper_framework_c.Prelude.{
  ◌≡◌, ◌≢◌, ◌⊎◌, refl, ap, ◌∙◌, true, false, ◌==◌, Bool-cases, inl, inr, none, some, Option-cases,
  List, [], ◌∷◌, ◌++◌, any, arith,
}
use mapper_framework_c.Prelude.CString.{Str}
use mapper_framework_c.Prelude.CString.Search.{after_last-append}
use mapper_framework_c.Common.Const.{success, failure}
use mapper_framework_c.Device.Types.{Device, DeviceManager}
use mapper_framework_c.Device.Manager.{
  is_named, remove_named, device_manager_remove, find_named, short_id, find_short,
  device_manager_get,
}

-- Where a removal succeeds, the list splits around the device that goes, which is the one that a
-- lookup by that name finds.
pub data Removed (id : Str) (before after : List Device) : Type 0 where
  removed :
      (front back : List Device) (d : Device)
      → before ≡ front ++ d ∷ back
      → after ≡ front ++ back
      → is_named id d ≡ true
      → find_named id before ≡ some d
      → find_named id front ≡ none
      → Removed id before after

remove_named-Removed :
    (id : Str) (ds : List Device) {rest : List Device}
    → remove_named id ds ≡ some rest
    → Removed id ds rest
unfolding remove_named
remove_named-Removed id [] h = cc
remove_named-Removed id (d ∷ ds) {rest} h = elim (Bool-cases (is_named id d)) [
  | inl y ↦
      removed [] ds d refl (ground arith) y (unfold find_named in rw y) (unfold find_named in refl)
  | inr n ↦ elim (Option-cases (remove_named id ds)) [
    | inl e ↦ ground arith
    | inr (r, e) ↦ later n (remove_named-Removed id ds e) (ground arith)
  ]
]
  where
    later :
        {r : List Device}
        → is_named id d ≡ false
        → Removed id ds r
        → rest ≡ d ∷ r
        → Removed id (d ∷ ds) rest
    later n (removed front back x b a y f none_before) e =
        removed (d ∷ front) back x (ap (λ l. d ∷ l) b) (e ∙ ap (λ l. d ∷ l) a) y
          (unfold find_named in rw n f) (unfold find_named in rw n none_before)

remove_named-none :
    (id : Str) (ds : List Device) → remove_named id ds ≡ none → find_named id ds ≡ none
unfolding remove_named find_named
remove_named-none id [] h = refl
remove_named-none id (d ∷ ds) h = ground (arith, remove_named-none id ds)

-- A removal by name either takes out the first device of that name, leaves the others in order
-- and returns 0, or finds none, changes nothing and returns -1.
pub device_manager_remove_lem :
    (m : DeviceManager) (id : Str)
    → (((device_manager_remove m (some id)).1 ≡ success)
        × Removed id m.devices (device_manager_remove m (some id)).0.devices)
      ⊎ ((device_manager_remove m (some id) ≡ (m, failure)) × (find_named id m.devices ≡ none))
unfolding device_manager_remove
device_manager_remove_lem m id = elim (Option-cases (remove_named id m.devices)) [
  | inl e ↦ inr (rw (e, device_manager_remove) refl, remove_named-none id m.devices e)
  | inr (r, e) ↦ inl (
    rw (e, device_manager_remove) refl,
    rw (e, device_manager_remove) (remove_named-Removed id m.devices e),
  )
]

short_id-append :
    (space name : Str)
    → any (λ c. c == b'.') name ≡ false
    → name ≢ []
    → short_id (space ++ b'.' ∷ name) ≡ some name
unfolding short_id
short_id-append space [] h ne = absurd (ne refl)
short_id-append space (c ∷ name) h ne =
    rw (after_last-append b'.' space (c ∷ name) h, short_id) refl

-- For an identifier `prefix.name`, with no dot in the name, that no device has as its name, the
-- prefix does not matter: the first device with the bare name is found.
pub device_manager_get-qualified :
    (m : DeviceManager) (space name : Str)
    → any (λ c. c == b'.') name ≡ false
    → name ≢ []
    → find_named (space ++ b'.' ∷ name) m.devices ≡ none
    → device_manager_get m (some (space ++ b'.' ∷ name)) ≡ find_named name m.devices
unfolding device_manager_get
device_manager_get-qualified m space name h ne new =
    rw new (ap (find_short m.devices) (short_id-append space name h ne))
