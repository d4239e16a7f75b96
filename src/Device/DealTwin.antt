-- ===== src/Device/DealTwin.antt =====
-- device/device.c, lines 715 to 818: a twin's desired value is written to the device by a shell
-- command, and reported when that succeeds.
pub mod Command
pub mod Settles
use mapper_framework_c.Prelude.{
  ℕ, zero, suc, ◌+◌, ◌*◌, ◌/◌, ◌%◌, Bool, true, false, not, ◌&&◌, ltb, ◌==◌, if◌then◌else◌, Option,
  none, some, List, [], ◌∷◌, ◌++◌, or_default,
}
use mapper_framework_c.Prelude.Int.{ℤ, pos, negsuc, ltb_ℤ, leb_ℤ}
use mapper_framework_c.Prelude.CString.{Str, codes, str_eq, snprintf, print_int, atoi}
use mapper_framework_c.Common.Const.{success, failure, is_zero}
use mapper_framework_c.Common.ConfigMapType.{Twin, TwinProperty, Metadata, DeviceInstance}
use mapper_framework_c.Common.DataModel.{DataModel}
use mapper_framework_c.Device.Host.{normalize_host_port, cleanup_escape_prefix}
use mapper_framework_c.Device.JsonScan.{json_get_str, json_get_int, resolve_offset_by_name}
use mapper_framework_c.Device.World.{
  World, Effect, run_command, record_row, publish_value, sim_temperature_enabled,
}
use mapper_framework_c.Recorder.{recorder_row}

-- `sim_temperature_enabled()` and the property is the simulated one.
unfoldable pub is_simulated : World → Twin → Bool
is_simulated w t =
    sim_temperature_enabled w
    && elim t.property_name [ none ↦ false | some s ↦ str_eq s (codes "temperature") ]

-- The address and port that the protocol configuration names.
unfoldable pub modbus_target : Option Str → Str × ℤ
modbus_target none = (codes "127.0.0.1", pos 1502)
modbus_target (some config) = (
  cleanup_escape_prefix (json_get_str (some config) (codes "ip") (codes "127.0.0.1") 64).0,
  (json_get_int (some config) (codes "port") (pos 1502)).0,
)

timeout_of : Option Str → ℤ
timeout_of none = pos 2
timeout_of (some []) = pos 2
timeout_of (some (c ∷ s)) =
    let tv = atoi (c ∷ s) in if ltb_ℤ (pos 0) tv && ltb_ℤ tv (pos 30) then tv else pos 2

-- The text that `snprintf` prints, before it is cut to the buffer.
abbrev pub command_text : (timeout : ℤ) (host : Str) (port offset value : ℤ) → Str
command_text timeout host port offset value =
    codes "timeout "
    ++ (print_int timeout
        ++ (codes " /usr/bin/mbpoll -1 -m tcp "
            ++ (host
                ++ (codes " -p "
                    ++ (print_int port
                        ++ (codes " -a 1 -t 4 -r "
                            ++ (print_int offset
                                ++ (codes " "
                                    ++ (print_int value ++ codes " >/dev/null 2>&1")))))))))

unfoldable pub mbpoll_command : World → DeviceInstance → (offset value : ℤ) → Str
unfolding timeout_of
mbpoll_command w inst offset value =
    let (ip, port) = modbus_target inst.p_protocol.config_data in
    let (host, fixed) =
      normalize_host_port 128 (w.getenv (codes "MAPPER_MODBUS_ADDR"))
        (w.getenv (codes "MAPPER_MODBUS_PORT")) (some ip) port in
    snprintf 512 (
      command_text (timeout_of (w.getenv (codes "MAPPER_MBPOLL_TIMEOUT_S"))) host fixed offset
        value)

-- The desired value, where it is one that has to be written.
unfoldable pub pending : Twin → Option Str
pending t = by_value t.observed_desired.value t.reported.value
  where
    by_value : Option Str → Option Str → Option Str
    by_value none reported = none
    by_value (some []) reported = none
    by_value (some (c ∷ s)) none = some (c ∷ s)
    by_value (some (c ∷ s)) (some r) = if str_eq r (c ∷ s) then none else some (c ∷ s)

pub record Write : Type 0 where
  pub desired : Str
  pub command : Str

request_for : World → DeviceInstance → Twin → Option Str → Option Write
request_for w inst t none = none
request_for w inst t (some desired) =
    let offset = resolve_offset_by_name t.property_name in
    if leb_ℤ offset (pos 0)
    then none
    else some (record { desired = desired; command = mbpoll_command w inst offset (atoi desired) })

-- What is to be written for the twin; `none` for the calls that return 0 with nothing done.
unfoldable pub deal_request : World → DeviceInstance → Twin → Option Write
unfolding request_for
deal_request w inst t = if is_simulated w t then none else request_for w inst t (pending t)

-- The exit code that the wait status stands for.
unfoldable pub exit_code : Option ℕ → ℤ
exit_code none = negsuc 0
exit_code (some status) =
    if status % 128 == 0
    then pos (status / 256 % 256)
    else if status % 128 == 127
    then negsuc 0
    else pos (128 + status % 128)

pub record Deal : Type 0 where
  pub twin : Twin
  pub code : ℤ
  pub effects : List Effect

abbrev pub report : World → Twin → Str → Twin
report w t value = record t {
  reported = record {
    value = some value;
    metadata = record { timestamp = some w.iso_time; type_name = t.reported.metadata.type_name };
  };
}

abbrev pub recorded : Option DataModel → List Effect
recorded none = []
recorded (some row) = record_row row ∷ []

-- `p ? p : d` for a text that is passed on as a pointer.
abbrev or_text : Option Str → Str → Option Str
or_text s d = some (or_default s d)

unfoldable pub record_effects : World → DeviceInstance → Twin → Option Str → List Effect
record_effects w inst t value = recorded (
    recorder_row w.db (or_text inst.namespace (codes "default"))
      (or_text inst.name (codes "unknown")) (or_text t.property_name (codes "unknown")) value
      (pos w.seconds))

unfoldable pub publish_effects : World → DeviceInstance → Twin → Str → List Effect
publish_effects w inst t value =
    if w.has_publisher
    then publish_value (record {
      device_name = or_text inst.name (codes "unknown");
      property_name = or_text t.property_name (codes "unknown");
      namespace = or_text inst.namespace (codes "default");
      value = some value;
      type_name = some (codes "string");
      time_stamp = pos (w.seconds * 1000);
    })
      ∷ []
    else []

deal_with : World → DeviceInstance → Twin → Option Write → Deal
deal_with w inst t none = record { twin = t; code = success; effects = [] }
deal_with w inst t (some r) =
    if is_zero (exit_code (w.system r.command))
    then record {
      twin = report w t r.desired;
      code = success;
      effects =
          run_command r.command
          ∷ (record_effects w inst t (some r.desired) ++ publish_effects w inst t r.desired);
    }
    else record { twin = t; code = failure; effects = run_command r.command ∷ [] }

-- The device is read only through its instance.
unfoldable pub device_deal_twin : World → DeviceInstance → Twin → Deal
unfolding deal_with
device_deal_twin w inst t = deal_with w inst t (deal_request w inst t)
