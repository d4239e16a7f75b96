-- ===== src/Database/Influxdb/Handler.antt =====
-- data/dbmethod/influxdb2/handler.c: the thread that reads a device and writes to InfluxDB, and how
-- it is started.
use mapper_framework_c.Prelude.{
  ℕ, zero, suc, Bool, true, Option, none, some, List, [], ◌∷◌, if◌then◌else◌,
}
use mapper_framework_c.Prelude.Int.{ℤ}
use mapper_framework_c.Prelude.CString.{Str}
use mapper_framework_c.Common.Const.{is_zero}
use mapper_framework_c.Common.Cjson.{CjsonReader}
use mapper_framework_c.Common.DataModel.{DataModel}
use mapper_framework_c.Common.Outcome.{Outcome, done, ◌>>=◌}
use mapper_framework_c.Driver.{CustomizedClient, VisitorConfig, get_device_data}
use mapper_framework_c.Database.Env.{Env}
use mapper_framework_c.Database.Handler.{cycle_or_default, with_row}
use mapper_framework_c.Database.Influxdb.{
  InfluxdbClientConfig, InfluxdbDataConfig, influxdb2_parse_client_config,
  influxdb2_parse_data_config, influxdb2_add_data,
}

-- The arguments of the thread; the handle of libcurl is there.
pub record InfluxdbArgs : Type 0 where
  pub client_config : InfluxdbClientConfig
  pub data_config : InfluxdbDataConfig
  pub data_model : DataModel
  pub report_cycle_ms : ℤ
  pub customized_client : CustomizedClient
  pub visitor_config : VisitorConfig

-- `running` is the flag and `time` the clock in each cycle, `perform` what libcurl does in it.
module _ (running : ℕ → Bool) (time : ℕ → ℤ) (perform : ℕ → Str → Str → Str → Bool) where
  influxdb_row : InfluxdbArgs → ℕ → DataModel → DataModel
  influxdb_row args n dm =
      let read = (get_device_data (some args.customized_client) (some args.visitor_config)).1 in
      record dm { value = elim read [ none ↦ dm.value | some v ↦ some v ]; time_stamp = time n }

  -- The rows that are given to the client from the cycle numbered `n` on; `none` where the fuel is
  -- used up. The client is closed behind the loop.
  unfoldable pub influxdb_handler_thread :
      InfluxdbArgs → (fuel n : ℕ) → DataModel → Outcome (Option (List DataModel))
  unfolding influxdb_row
  influxdb_handler_thread args zero n dm = done none
  influxdb_handler_thread args (suc fuel) n dm =
      let row = influxdb_row args n dm in
      let skipped = influxdb_handler_thread args fuel (suc n) dm in
      let rest = influxdb_handler_thread args fuel (suc n) row in
      let written = influxdb2_add_data true (perform n) args.client_config args.data_config row in
      let read = (get_device_data (some args.customized_client) (some args.visitor_config)).0 in
      if running n
      then if is_zero read
        then written >>= (λ code.
          if is_zero code
          then rest >>= (λ rows. done (with_row row rows))
          else done (some (row ∷ [])))
        else skipped
      else done (some [])

influxdb_args :
    (has_curl alloc_ok has_thread : Bool)
    → DataModel
    → CustomizedClient
    → VisitorConfig
    → ℤ
    → Option InfluxdbClientConfig
    → Option InfluxdbDataConfig
    → Option InfluxdbArgs
influxdb_args true true true dm c v ms (some client) (some config) = some (record {
  client_config = client;
  data_config = config;
  data_model = dm;
  report_cycle_ms = cycle_or_default ms;
  customized_client = c;
  visitor_config = v;
})
influxdb_args _ _ _ dm c v ms _ _ = none

-- The arguments of the thread that was started, with the code 0; `none` is -1. The flags are what
-- `curl_easy_init`, `calloc` and `pthread_create` give. The data configuration is read only if the
-- client's is there.
unfoldable pub start_data_handler :
    Env
    → CjsonReader
    → (has_curl alloc_ok has_thread : Bool) → (client_json data_json : Option Str)
    → Option DataModel
    → Option CustomizedClient
    → Option VisitorConfig
    → (report_cycle_ms : ℤ) → Outcome (Option InfluxdbArgs)
unfolding influxdb_args
start_data_handler env r has_curl alloc_ok has_thread (some cj) (some dj) (some dm) (some c)
      (some v) ms =
    do
      client ← influxdb2_parse_client_config env r cj
      elim client [
        | none ↦ done none
        | some cfg ↦ influxdb2_parse_data_config r dj >>= (λ config.
            done (influxdb_args has_curl alloc_ok has_thread dm c v ms (some cfg) config))
      ]
start_data_handler env r has_curl alloc_ok has_thread _ _ _ _ _ ms = done none
