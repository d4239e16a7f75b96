-- ===== src/Device/Status.antt =====
-- device/devicestatus.c: the status text of a device.
use mapper_framework_c.Prelude.{Option, none, some, [], ◌∷◌, if◌then◌else◌, ◌≡◌, refl, arith}
use mapper_framework_c.Prelude.Int.{ℤ, pos}
use mapper_framework_c.Prelude.CString.{Str, str_eq, str_eq_iff}
use mapper_framework_c.Common.Const.{
  success, failure, device_status_ok, device_status_offline, device_status_unknown,
}
use mapper_framework_c.Device.Types.{Device}

-- `if (!newStatus || !*newStatus) newStatus = DEVICE_STATUS_UNKNOWN;`
abbrev pub effective : Option Str → Str
effective none = device_status_unknown
effective (some []) = device_status_unknown
effective (some (c ∷ s)) = c ∷ s

store_status : Option Str → Str → Option Str
store_status none s = some s
store_status (some old) s = if str_eq old s then some old else some s

unfoldable pub device_status_update : Device → Option Str → Device × ℤ
unfolding store_status
device_status_update d new_status =
    (record d { status = store_status d.status (effective new_status) }, success)

unfoldable pub device_status_get_current : Option Device → Str
device_status_get_current none = device_status_unknown
device_status_get_current (some d) = elim d.status [ none ↦ device_status_unknown | some s ↦ s ]

unfoldable pub device_status_check_change : Option Device → Option Str → ℤ
device_status_check_change none current = failure
device_status_check_change (some d) none = failure
device_status_check_change (some d) (some current) = elim d.status [
  | none ↦ pos 1
  | some s ↦ if str_eq s current then pos 0 else pos 1
]

unfoldable pub device_status_handle_offline : Device → Device × ℤ
device_status_handle_offline d = device_status_update d (some device_status_offline)

unfoldable pub device_status_handle_online : Device → Device × ℤ
device_status_handle_online d = device_status_update d (some device_status_ok)

-- `device_set_status` and `device_get_status`
abbrev pub device_set_status : Device → Str → Device
device_set_status d s = (device_status_update d (some s)).0

abbrev pub device_get_status : Option Device → Str
device_get_status = device_status_get_current

-- Placeholders of the source: the time is that of the call, and the others do nothing.
unfoldable pub device_status_get_last_update_time : (now_ms : ℤ) → Option Device → ℤ
device_status_get_last_update_time now_ms d = now_ms

unfoldable pub device_status_start_health_monitor : Option Device → ℤ
device_status_start_health_monitor d = success

unfoldable pub device_status_stop_health_monitor : Option Device → ℤ
device_status_stop_health_monitor d = success

unfoldable pub device_status_health_check : Option Device → ℤ
device_status_health_check d = success

unfoldable pub device_status_send_event : Option Device → (event_type message : Option Str) → ℤ
device_status_send_event d event_type message = success

-- An update stores the new text, or "unknown" for none, whatever the old one was, and changes no
-- other field.
pub device_status_update_lem :
    (d : Device) (s : Option Str)
    → device_status_update d s ≡ (record d { status = some (effective s) }, success)
unfolding device_status_update
device_status_update_lem d s = ground (arith, keep d.status (effective s))
  where
    keep : (old : Option Str) (t : Str) → store_status old t ≡ some t
    keep none t = refl
    keep (some old) t = ground (arith, str_eq_iff old t)
