-- ===== src/Driver.antt =====
-- driver/driver.c: the protocol client. Its device accesses are the sample ones of the source; the
-- mutex is held only inside each call, so it leaves no trace here.
use mapper_framework_c.Prelude.{Bool, true, false, Option, none, some}
use mapper_framework_c.Prelude.Int.{ℤ}
use mapper_framework_c.Prelude.CString.{Str, codes}
use mapper_framework_c.Common.Const.{success, failure, device_status_ok, device_status_unknown}
use mapper_framework_c.Common.ConfigMapType.{ProtocolConfig}

pub record CustomizedClient : Type 0 where
  pub protocol_config : ProtocolConfig

pub record VisitorConfig : Type 0 where
  pub protocol_name : Option Str
  pub property_name : Option Str
  pub config_data : Option Str

abbrev empty_protocol : ProtocolConfig
empty_protocol = record { protocol_name = none; config_data = none }

-- `NewClient`; the flag says whether `calloc` returns memory.
unfoldable pub new_client : Bool → Option ProtocolConfig → Option CustomizedClient
new_client false protocol = none
new_client true none = some (record { protocol_config = empty_protocol })
new_client true (some p) = some (record {
  protocol_config = record { protocol_name = p.protocol_name; config_data = p.config_data };
})

unfoldable pub init_device : Option CustomizedClient → ℤ
init_device none = failure
init_device (some c) = success

-- `GetDeviceData`: the return code, and what `*out_data` is afterwards if it was null.
unfoldable pub get_device_data : Option CustomizedClient → Option VisitorConfig → ℤ × Option Str
get_device_data none visitor = (failure, none)
get_device_data (some c) none = (failure, none)
get_device_data (some c) (some v) = (success, some (codes "sample_device_data_value"))

unfoldable pub device_data_write : Option CustomizedClient → Option VisitorConfig → ℤ
device_data_write none visitor = failure
device_data_write (some c) none = failure
device_data_write (some c) (some v) = success

unfoldable pub set_device_data : Option CustomizedClient → Option VisitorConfig → ℤ
set_device_data none visitor = failure
set_device_data (some c) none = failure
set_device_data (some c) (some v) = success

unfoldable pub stop_device : Option CustomizedClient → ℤ
stop_device none = failure
stop_device (some c) = success

unfoldable pub get_device_states : Option CustomizedClient → Str
get_device_states none = device_status_unknown
get_device_states (some c) = device_status_ok
