-- ===== src/GrpcServer/DirectWrite/Registers.antt =====
-- What the command of the server tells by its code.
use mapper_framework_c.Prelude.{
  ◌≡◌, refl, Bool, true, false, not, Bool-cases, inl, inr, List, Option-cases, all,
}
use mapper_framework_c.Prelude.CString.{Str}
use mapper_framework_c.Common.Const.{is_zero}
use mapper_framework_c.Device.World.{World, Effect, run_command, record_row, publish_value}
use mapper_framework_c.GrpcServer.DirectWrite.{
  map_offset_by_prop, direct_command, ran, write_modbus_direct,
}

-- A command that did not end with 0.
abbrev pub is_failure : World → Effect → Bool
is_failure w (run_command c) = not (ran (w.system c))
is_failure w (record_row row) = false
is_failure w (publish_value row) = false

abbrev pub all_failed : World → List Effect → Bool
all_failed w effects = all (is_failure w) effects

pub write_modbus_direct-all_failed :
    (w : World) (prop val : Str)
    → is_zero (write_modbus_direct w prop val).0 ≡ false
    → all_failed w (write_modbus_direct w prop val).1 ≡ true
unfolding write_modbus_direct
write_modbus_direct-all_failed w prop val h = elim (Option-cases (map_offset_by_prop prop)) [
  | inl e ↦ rw (e, write_modbus_direct) refl
  | inr (offset, e) ↦ elim (Bool-cases (ran (w.system (direct_command w offset val)))) [
    | inl y ↦ cc
    | inr n ↦ rw (e, write_modbus_direct, n) refl
  ]
]
