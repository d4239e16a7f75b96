-- ===== src/Database/Tdengine/Start.antt =====
-- data/dbmethod/tdengine/handler.c: how the client and its thread are started.
use mapper_framework_c.Prelude.{ℕ, Bool, false, Option, none, some, if◌then◌else◌}
use mapper_framework_c.Prelude.Int.{ℤ}
use mapper_framework_c.Prelude.CString.{Str}
use mapper_framework_c.Common.Const.{is_zero}
use mapper_framework_c.Common.Cjson.{CjsonReader}
use mapper_framework_c.Common.DataModel.{DataModel}
use mapper_framework_c.Common.Outcome.{Outcome, done, ◌>>=◌}
use mapper_framework_c.Driver.{CustomizedClient, VisitorConfig}
use mapper_framework_c.Database.Env.{Env}
use mapper_framework_c.Database.Handler.{Sink, HandlerArgs, cycle_or_default}
use mapper_framework_c.Database.Tdengine.{
  TdengineDataBaseConfig, Taos, tdengine_parse_client_config, tdengine_init_client,
  tdengine_close_client, tdengine_add_data,
}

-- The client as the thread uses it; `servers` is what the library gives in each cycle.
abbrev pub tdengine_sink : (servers : ℕ → Taos) → (datetime : ℤ → Str) → Sink
tdengine_sink servers datetime = record {
  Client = TdengineDataBaseConfig;
  add_data = λ n d dm. (tdengine_add_data (servers n) datetime d (some dm)).1;
  close = tdengine_close_client;
}

-- A client that is configured and connected.
unfoldable pub new_tdengine_data_base_client :
    Env → CjsonReader → Taos → Option Str → Outcome (Option TdengineDataBaseConfig)
unfolding tdengine_parse_client_config tdengine_init_client
new_tdengine_data_base_client env r t none = done none
new_tdengine_data_base_client env r t (some json) = do
  parsed ← tdengine_parse_client_config env r (some json)
  elim parsed [
    | none ↦ done none
    | some c ↦
        let started = tdengine_init_client t (record { config = c; conn = false }) in
        if is_zero started.1 then done (some started.0) else done none
  ]

abbrev td_handler_args :
    (servers : ℕ → Taos)
    → (datetime : ℤ → Str) → DataModel
    → CustomizedClient
    → VisitorConfig
    → ℤ
    → TdengineDataBaseConfig
    → HandlerArgs (tdengine_sink servers datetime)
td_handler_args servers datetime dm c v ms d = record {
  db = d;
  data_model = dm;
  report_cycle_ms = cycle_or_default ms;
  customized_client = some c;
  visitor_config = some v;
}

-- The arguments of the thread that was started, with the code 0; `none` is -1. `has_thread` says
-- whether `pthread_create` makes one.
unfoldable pub start_tdengine_data_handler :
    Env
    → CjsonReader
    → (servers : ℕ → Taos) → (datetime : ℤ → Str) → (has_thread : Bool) → Option Str
    → Option DataModel
    → Option CustomizedClient
    → Option VisitorConfig
    → ℤ
    → Outcome (Option (HandlerArgs (tdengine_sink servers datetime)))
unfolding new_tdengine_data_base_client
start_tdengine_data_handler env r servers datetime has_thread (some json) (some dm) (some c)
      (some v) ms =
    do
      started ← new_tdengine_data_base_client env r (servers 0) (some json)
      elim started [
        | none ↦ done none
        | some d ↦
            if has_thread
            then done (some (td_handler_args servers datetime dm c v ms d))
            else done none
      ]
start_tdengine_data_handler env r servers datetime has_thread json dm c v ms = done none
