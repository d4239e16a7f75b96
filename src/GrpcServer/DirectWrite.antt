-- ===== src/GrpcServer/DirectWrite.antt =====
-- grpcserver/server.cc, lines 28 to 33 and 256 to 317: the limits in milliseconds, and the command
-- that writes a register without the device.
pub mod Registers
use mapper_framework_c.Prelude.{
  ℕ, Bool, true, false, ◌==◌, if◌then◌else◌, Option, none, some, List, [], ◌∷◌, ◌++◌,
}
use mapper_framework_c.Prelude.Int.{ℤ, pos, ltb_ℤ, leb_ℤ}
use mapper_framework_c.Prelude.CString.{Str, codes, str_eq, snprintf, print_int, atoi}
use mapper_framework_c.Common.Const.{success, failure}
use mapper_framework_c.Device.World.{World, Effect, run_command}

-- A positive number in a variable of the environment, or else the default.
unfoldable pub positive_or : ℤ → Option Str → ℤ
positive_or default_value none = default_value
positive_or default_value (some []) = default_value
positive_or default_value (some (c ∷ s)) =
    let n = atoi (c ∷ s) in if ltb_ℤ (pos 0) n then n else default_value

unfoldable pub get_apply_timeout_ms : World → ℤ
get_apply_timeout_ms w = positive_or (pos 1500) (w.getenv (codes "MAPPER_APPLY_TIMEOUT_MS"))

unfoldable pub get_device_timeout_ms : World → ℤ
get_device_timeout_ms w = positive_or (pos 1000) (w.getenv (codes "MAPPER_DEVICE_TIMEOUT_MS"))

host_or_local : Option Str → Str
host_or_local none = codes "127.0.0.1"
host_or_local (some []) = codes "127.0.0.1"
host_or_local (some (c ∷ s)) = c ∷ s

unfoldable pub get_modbus_target : World → Str × ℤ
unfolding host_or_local
get_modbus_target w = (
  host_or_local (w.getenv (codes "MAPPER_MODBUS_ADDR")),
  positive_or (pos 1502) (w.getenv (codes "MAPPER_MODBUS_PORT")),
)

-- The register of a property; `none` is the code -1.
unfoldable pub map_offset_by_prop : Str → Option ℕ
map_offset_by_prop name =
    if str_eq name (codes "threshold")
    then some 2
    else if str_eq name (codes "temperature")
    then some 1
    else none

-- The text that `snprintf` prints, before it is cut to the buffer.
abbrev pub direct_text : (host : Str) (port : ℤ) (offset : ℕ) (value : ℤ) → Str
direct_text host port offset value =
    codes "/usr/bin/mbpoll -1 -m tcp "
    ++ (host
        ++ (codes " -p "
            ++ (print_int port
                ++ (codes " -a 1 -t 4 -r "
                    ++ (print_int (pos offset) ++ (codes " " ++ print_int value))))))

unfoldable pub direct_command : World → (offset : ℕ) (val : Str) → Str
direct_command w offset val =
    let (host, port) = get_modbus_target w in snprintf 512 (direct_text host port offset (atoi val))

-- `system` gives 0.
abbrev pub ran : Option ℕ → Bool
ran none = false
ran (some status) = status == 0

unfoldable pub write_modbus_direct : World → (prop val : Str) → ℤ × List Effect
write_modbus_direct w prop val = elim (map_offset_by_prop prop) [
  | none ↦ (failure, [])
  | some offset ↦ (
    if ran (w.system (direct_command w offset val)) then success else failure,
    run_command (direct_command w offset val) ∷ [],
  )
]
