-- ===== src/Device/Manager.antt =====
-- The device manager of device/device.c, lines 821 to 982. Each function holds the manager's mutex
-- throughout, so it is one step.
pub mod Lookup
pub mod Slots
pub mod Contract
pub mod Registry
use mapper_framework_c.Prelude.{
  ℕ, zero, suc, ◌+◌, ◌-◌, ◌*◌, Bool, true, false, not, ltb, leb, ◌==◌, if◌then◌else◌, Option, none,
  some, List, [], ◌∷◌, ◌++◌, length,
}
use mapper_framework_c.Prelude.Int.{ℤ}
use mapper_framework_c.Prelude.CString.{Str, str_eq, after_last}
use mapper_framework_c.Common.Const.{success, failure, is_zero}
use mapper_framework_c.Common.Outcome.{Outcome, fault, done, ◌>>=◌}
use mapper_framework_c.Device.Types.{Device, DeviceManager}
use mapper_framework_c.Device.Lifecycle.{Creation, device_start, device_stop}

-- The three flags: the `calloc` of the manager, that of its array and `pthread_mutex_init`.
unfoldable pub device_manager_new : (alloc array_alloc mutex_ok : Bool) → Option DeviceManager
device_manager_new true true true =
    some (record { devices = []; capacity = 10; slots = 10; stopped = false })
device_manager_new _ _ _ = none

-- The store into the array, which is undefined beyond its slots.
abbrev pub push_device : DeviceManager → Device → Outcome (DeviceManager × ℤ)
push_device m d =
    if leb m.slots (length m.devices)
    then fault
    else done (record m { devices = m.devices ++ d ∷ [] }, success)

-- `realloc_ok` says whether `realloc` returns memory; the capacity is doubled before it is asked.
unfoldable pub device_manager_add :
    (realloc_ok : Bool) → DeviceManager → Option Device → Outcome (DeviceManager × ℤ)
device_manager_add realloc_ok m none = done (m, failure)
device_manager_add realloc_ok m (some d) =
    let doubled = record m { capacity = m.capacity * 2 } in
    if not (leb m.capacity (length m.devices))
    then push_device m d
    else if realloc_ok
    then push_device (record doubled { slots = doubled.capacity }) d
    else done (doubled, failure)

abbrev pub is_named : Str → Device → Bool
is_named id d = elim d.instance_of.name [ none ↦ false | some n ↦ str_eq n id ]

-- The list without its first device of that name, if there is one.
unfoldable pub remove_named : Str → List Device → Option (List Device)
remove_named id [] = none
remove_named id (d ∷ ds) =
    let rest = remove_named id ds in
    if is_named id d then some ds else elim rest [ none ↦ none | some r ↦ some (d ∷ r) ]

-- The device that goes is freed; what that does with its thread is not followed here.
unfoldable pub device_manager_remove : DeviceManager → Option Str → DeviceManager × ℤ
device_manager_remove m none = (m, failure)
device_manager_remove m (some id) = elim (remove_named id m.devices) [
  | none ↦ (m, failure)
  | some ds ↦ (record m { devices = ds }, success)
]

unfoldable pub find_named : Str → List Device → Option Device
find_named id [] = none
find_named id (d ∷ ds) = let rest = find_named id ds in if is_named id d then some d else rest

abbrev pub non_empty : Str → Option Str
non_empty [] = none
non_empty (c ∷ s) = some (c ∷ s)

-- The last segment behind a dot, or behind a slash if there is no dot.
unfoldable pub short_id : Str → Option Str
short_id id = elim (after_last b'.' id) [
  | some t ↦ non_empty t
  | none ↦ elim (after_last b'/' id) [ some t ↦ non_empty t | none ↦ none ]
]

abbrev find_short : List Device → Option Str → Option Device
find_short ds none = none
find_short ds (some t) = find_named t ds

abbrev pub or_short : List Device → Option Device → (short : Option Str) → Option Device
or_short ds (some d) t = some d
or_short ds none t = find_short ds t

unfoldable pub device_manager_get : DeviceManager → Option Str → Option Device
device_manager_get m none = none
device_manager_get m (some id) = or_short m.devices (find_named id m.devices) (short_id id)

-- `threads` is what `pthread_create` does for each device in turn.
unfoldable pub start_devices : (ℕ → Creation) → ℕ → List Device → List Device × ℕ
start_devices threads i [] = ([], 0)
start_devices threads i (d ∷ ds) =
    let (started, code) = device_start (threads i) d in
    let (rest, count) = start_devices threads (i + 1) ds in
    (started ∷ rest, if is_zero code then suc count else count)

unfoldable pub device_manager_start_all : (ℕ → Creation) → DeviceManager → DeviceManager × ℤ
device_manager_start_all threads m =
    let (ds, count) = start_devices threads 0 m.devices in
    (record m { devices = ds }, if count == length m.devices then success else failure)

unfoldable pub stop_devices : List Device → Outcome (List Device)
stop_devices [] = done []
stop_devices (d ∷ ds) = device_stop d >>= (λ r. stop_devices ds >>= (λ rest. done (r.0 ∷ rest)))

unfoldable pub device_manager_stop_all : DeviceManager → Outcome (DeviceManager × ℤ)
device_manager_stop_all m =
    if m.stopped
    then done (m, success)
    else stop_devices m.devices
      >>= (λ ds. done (record m { devices = ds; stopped = true }, success))
