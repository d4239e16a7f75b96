-- ===== src/Device/DealTwin/Command.antt =====
-- The command line that `device_deal_twin` hands to the shell.
use mapper_framework_c.Prelude.{
  ◌<◌, ◌≡◌, refl, Bool-cases, inl, inr, true, ◌&&◌, if◌then◌else◌, arith, Option, none, some, [],
  ◌∷◌, length, length-append, take_all,
}
use mapper_framework_c.Prelude.Int.{ℤ, pos, ltb_ℤ}
use mapper_framework_c.Prelude.CString.{Str, codes, atoi, print_int, length-print_int-le}
use mapper_framework_c.Common.ConfigMapType.{DeviceInstance}
use mapper_framework_c.Device.World.{World}
use mapper_framework_c.Device.Host.{normalize_host_port, is_port}
use mapper_framework_c.Device.Host.Bounds.{IsHost, normalize_host_port-bounds}
use mapper_framework_c.Device.DealTwin.{modbus_target, timeout_of, command_text, mbpoll_command}

length-command_text :
    (timeout : ℤ) (host : Str) (port offset value : ℤ)
    → length host < 128
    → length (command_text timeout host port offset value) < 512
length-command_text timeout host port offset value h = omega (
  arith,
  length-append {0} (print_int timeout),
  length-append {0} host,
  length-append {0} (print_int port),
  length-append {0} (print_int offset),
  length-append {0} (print_int value),
  length-print_int-le timeout,
  length-print_int-le port,
  length-print_int-le offset,
  length-print_int-le value,
)

timeout_of_bounds :
    (o : Option Str) → (ltb_ℤ (pos 0) (timeout_of o) && ltb_ℤ (timeout_of o) (pos 30)) ≡ true
unfolding timeout_of
timeout_of_bounds none = refl
timeout_of_bounds (some []) = refl
timeout_of_bounds (some (c ∷ s)) = in_range (atoi (c ∷ s))
  where
    in_range :
        (tv : ℤ)
        → let t : ℤ = if ltb_ℤ (pos 0) tv && ltb_ℤ tv (pos 30) then tv else pos 2 in
          (ltb_ℤ (pos 0) t && ltb_ℤ t (pos 30)) ≡ true
    in_range tv = elim (Bool-cases (ltb_ℤ (pos 0) tv && ltb_ℤ tv (pos 30))) [
      | inl y ↦ rw y y
      | inr n ↦ rw n refl
    ]

-- Whatever the configuration and the environment hold, the command is not cut by its buffer: it
-- is the fixed text, with a timeout from 1 to 29, a host that is not empty, shorter than 128 bytes
-- and of host characters only, and a port from 1 to 65535.
pub mbpoll_command-text :
    (w : World) (inst : DeviceInstance) (offset value : ℤ)
    → (timeout : ℤ) × (host : Str) × (port : ℤ) × (mbpoll_command w inst offset value
        ≡ command_text timeout host port offset value)
      × ((ltb_ℤ (pos 0) timeout && ltb_ℤ timeout (pos 30)) ≡ true)
      × IsHost 128 host
      × (is_port port ≡ true)
unfolding mbpoll_command
mbpoll_command-text w inst offset value =
    let target = modbus_target inst.p_protocol.config_data in
    let env_host = w.getenv (codes "MAPPER_MODBUS_ADDR") in
    let env_port = w.getenv (codes "MAPPER_MODBUS_PORT") in
    let hp = normalize_host_port 128 env_host env_port (some target.0) target.1 in
    let good =
      normalize_host_port-bounds 128 env_host env_port (some target.0) target.1 (omega arith) in
    let timeout = timeout_of (w.getenv (codes "MAPPER_MBPOLL_TIMEOUT_S")) in
    (
      timeout,
      hp.0,
      hp.1,
      take_all 511 (command_text timeout hp.0 hp.1 offset value)
          (omega (arith, length-command_text timeout hp.0 hp.1 offset value (good.0).fits)),
      timeout_of_bounds (w.getenv (codes "MAPPER_MBPOLL_TIMEOUT_S")),
      good.0,
      good.1,
    )
