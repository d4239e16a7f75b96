-- ===== src/Device/World.antt =====
-- What the device code meets outside the program: the environment variables, the shell, the clock,
-- the database and the publisher. And what it does to them.
use mapper_framework_c.Prelude.{ℕ, Bool, false, ◌||◌, ◌==◌, Option, none, some, [], ◌∷◌}
use mapper_framework_c.Prelude.CString.{Str, codes, str_case_eq}
use mapper_framework_c.Common.DataModel.{DataModel}
use mapper_framework_c.Recorder.{MysqlDb}

-- `system` gives the wait status of a command, `none` for -1. `iso_time` is the text of
-- `now_iso8601`, `seconds` the value of `time(NULL)`.
pub record World : Type 0 where
  pub getenv : Str → Option Str
  pub system : Str → Option ℕ
  pub iso_time : Str
  pub seconds : ℕ
  pub db : MysqlDb
  pub has_publisher : Bool

pub data Effect : Type 0 where
  run_command : Str → Effect
  record_row : DataModel → Effect
  publish_value : DataModel → Effect

abbrev switched_on : Option Str → Bool
switched_on none = false
switched_on (some []) = false
switched_on (some (c ∷ s)) =
    c == b'1' || str_case_eq (c ∷ s) (codes "true") || str_case_eq (c ∷ s) (codes "on")

unfoldable pub sim_temperature_enabled : World → Bool
sim_temperature_enabled w = switched_on (w.getenv (codes "MAPPER_SIM_TEMPERATURE"))
