-- ===== src/Http/Server.antt =====
-- httpserver/httpserver.c, lines 312 to 339: making, starting and stopping the REST server.
use mapper_framework_c.Prelude.{Bool, ltb, length, if◌then◌else◌, Option, none, some, or_default}
use mapper_framework_c.Prelude.Int.{ℤ}
use mapper_framework_c.Prelude.CString.{Str, codes, atoi}
use mapper_framework_c.Common.Outcome.{Outcome, fault, done}
use mapper_framework_c.Device.Types.{DeviceManager}

-- `daemon` is the port that the daemon of libmicrohttpd listens on, `none` for a null pointer.
pub record RestServer : Type 0 where
  pub ip : Str
  pub port : Str
  pub daemon : Option ℤ
  pub dev_panel : Option DeviceManager

-- `strcpy` into the array of 8: a port that does not fit is written over what is behind it.
unfoldable pub rest_server_new : Option DeviceManager → (port : Option Str) → Outcome RestServer
rest_server_new panel port =
    let text = or_default port (codes "7777") in
    if ltb (length text) 8
    then done (record { ip = codes "0.0.0.0"; port = text; daemon = none; dev_panel = panel })
    else fault

-- `start_ok` says whether the daemon starts.
unfoldable pub rest_server_start : (start_ok : Bool) → RestServer → RestServer
rest_server_start start_ok s = record s { daemon = if start_ok then some (atoi s.port) else none }

unfoldable pub rest_server_stop : RestServer → RestServer
rest_server_stop s = record s { daemon = none }
