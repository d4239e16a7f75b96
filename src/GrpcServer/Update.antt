-- ===== src/GrpcServer/Update.antt =====
-- grpcserver/server.cc, lines 59 to 192: the calls of the mapper service. `UpdateDevice` writes the
-- desired values; the others log and answer OK.
pub mod Answered
pub mod Synced
use mapper_framework_c.Prelude.{
  ℕ, zero, suc, Bool, true, false, if◌then◌else◌, Option, none, some, List, [], ◌∷◌, ◌++◌, ◌+◌,
}
use mapper_framework_c.Prelude.CString.{Str, codes, str_eq}
use mapper_framework_c.Common.Const.{is_zero}
use mapper_framework_c.Common.ConfigMapType.{Twin, TwinProperty, Metadata}
use mapper_framework_c.Device.Types.{Device, DeviceManager}
use mapper_framework_c.Device.World.{World, Effect}
use mapper_framework_c.Device.Twins.{has_name}
use mapper_framework_c.GrpcServer.DirectWrite.{write_modbus_direct}
use mapper_framework_c.GrpcServer.Apply.{CloudProperty, CloudDevice, wish, Delays, count_if}
use mapper_framework_c.GrpcServer.Apply.Found.{
  Answer, local_device, twins_found, write_all, apply_desired_to_device_with_timeout,
}

pub data Status : Type 0 where
  ok : Status
  invalid_argument : Str → Status
  not_found : Str → Status

-- The calls that only log.
pub data LoggedCall : Type 0 where
  register_device : LoggedCall
  remove_device : LoggedCall
  create_device_model : LoggedCall
  remove_device_model : LoggedCall
  update_device_model : LoggedCall
  get_device : LoggedCall

unfoldable pub logged_call : LoggedCall → Status
logged_call call = ok

-- The twins of the device that was found, as they are left.
pub record Updated : Type 0 where
  pub status : Status
  pub twins : List Twin
  pub effects : List Effect

abbrev pub sync : World → Str → Twin → Twin
sync w value t = record t {
  observed_desired = record t.observed_desired { value = some value };
  reported = record t.reported {
    value = some value;
    metadata = record t.reported.metadata { timestamp = some w.iso_time };
  };
}

-- The first twin of that name is brought up to date.
unfoldable pub sync_named : World → (name value : Str) → List Twin → List Twin
sync_named w name value [] = []
sync_named w name value (t ∷ ts) =
    let rest = sync_named w name value ts in
    if has_name name t then sync w value t ∷ ts else t ∷ rest

-- Every round of the loop looks the device up again and finds the same one.
unfoldable pub force_all : World → List CloudProperty → List Twin → ℕ × List Twin × List Effect
force_all w [] ts = (0, ts, [])
force_all w (p ∷ ps) ts = elim (wish p) [
  | none ↦ force_all w ps ts
  | some value ↦
      let (code, command) = write_modbus_direct w p.name value in
      let written = if is_zero code then sync_named w p.name value ts else ts in
      let (count, left, effects) = force_all w ps written in
      (count_if (is_zero code) + count, left, command ++ effects)
]

unfoldable pub is_forced : World → Bool
is_forced w = elim (w.getenv (codes "MAPPER_FORCE_FALLBACK")) [
  | none ↦ false
  | some s ↦ str_eq s (codes "1")
]

abbrev pub not_applied : Status
not_applied = not_found (codes "device or properties not applied")

abbrev pub status_of : ℕ → Status
status_of zero = not_applied
status_of (suc n) = ok

-- The last way out: the values are written directly where they could not be applied.
unfoldable pub fall_back : World → Option (List CloudProperty) → Answer → Updated
fall_back w none a = record { status = ok; twins = a.twins; effects = a.effects }
fall_back w (some ps) a =
    let (count, effects) = write_all w ps in
    if is_zero a.code
    then record { status = ok; twins = a.twins; effects = a.effects }
    else record { status = status_of count; twins = a.twins; effects = a.effects ++ effects }

unfoldable pub update_normally : World → Delays → Option DeviceManager → CloudDevice → Updated
update_normally w delays m dev =
    fall_back w dev.spec (apply_desired_to_device_with_timeout w delays m dev)

abbrev pub behind : List Effect → Updated → Updated
behind before u = record u { effects = before ++ u.effects }

unfoldable pub after_force : ℕ × List Twin × List Effect → Updated → Updated
after_force (zero, ts, effects) normal = behind effects normal
after_force (suc n, ts, effects) normal = record { status = ok; twins = ts; effects = effects }

unfoldable pub update_found : World → Delays → Option DeviceManager → CloudDevice → Updated
unfolding after_force twins_found
update_found w delays m dev =
    let normal = update_normally w delays m dev in
    elim dev.spec [
      | none ↦ normal
      | some ps ↦
          if is_forced w
          then after_force (force_all w ps (twins_found (local_device m dev))) normal
          else normal
    ]

-- `none` is a request that is null or has no device.
unfoldable pub update_device : World → Delays → Option DeviceManager → Option CloudDevice → Updated
update_device w delays m none = record {
  status = invalid_argument (codes "empty request");
  twins = [];
  effects = [];
}
update_device w delays m (some dev) = update_found w delays m dev
