-- ===== src/Database/Redis/Start.antt =====
-- data/dbmethod/redis/handler.c: how the client and its thread are started.
use mapper_framework_c.Prelude.{ℕ, Bool, false, Option, none, some, if◌then◌else◌}
use mapper_framework_c.Prelude.Int.{ℤ}
use mapper_framework_c.Prelude.CString.{Str}
use mapper_framework_c.Common.Const.{is_zero}
use mapper_framework_c.Common.Cjson.{CjsonReader}
use mapper_framework_c.Common.DataModel.{DataModel}
use mapper_framework_c.Common.Outcome.{Outcome, done, ◌>>=◌}
use mapper_framework_c.Driver.{CustomizedClient, VisitorConfig}
use mapper_framework_c.Database.Env.{Env}
use mapper_framework_c.Database.Handler.{Sink, HandlerArgs, cycle_or_default}
use mapper_framework_c.Database.Redis.{
  RedisDataBaseConfig, Hiredis, redis_parse_client_config, redis_init_client, redis_close_client,
  redis_add_data,
}

-- The client as the thread uses it; `servers` is what the library gives in each cycle.
abbrev pub redis_sink : (servers : ℕ → Hiredis) → Sink
redis_sink servers = record {
  Client = RedisDataBaseConfig;
  add_data = λ n d dm. redis_add_data (servers n) d (some dm);
  close = redis_close_client;
}

-- A client that is configured and connected.
unfoldable pub new_redis_data_base_client :
    Env → CjsonReader → Hiredis → Option Str → Outcome (Option RedisDataBaseConfig)
unfolding redis_parse_client_config redis_init_client
new_redis_data_base_client env r h none = done none
new_redis_data_base_client env r h (some json) = do
  parsed ← redis_parse_client_config env r (some json)
  elim parsed [
    | none ↦ done none
    | some c ↦
        let started = redis_init_client h (record { config = c; conn = false }) in
        if is_zero started.1 then done (some started.0) else done none
  ]

abbrev handler_args :
    (servers : ℕ → Hiredis)
    → DataModel
    → CustomizedClient
    → VisitorConfig
    → ℤ
    → RedisDataBaseConfig
    → HandlerArgs (redis_sink servers)
handler_args servers dm c v ms d = record {
  db = d;
  data_model = dm;
  report_cycle_ms = cycle_or_default ms;
  customized_client = some c;
  visitor_config = some v;
}

-- The arguments of the thread that was started, with the code 0; `none` is -1. `has_thread` says
-- whether `pthread_create` makes one.
unfoldable pub start_redis_data_handler :
    Env
    → CjsonReader
    → (servers : ℕ → Hiredis) → (has_thread : Bool) → Option Str
    → Option DataModel
    → Option CustomizedClient
    → Option VisitorConfig
    → ℤ
    → Outcome (Option (HandlerArgs (redis_sink servers)))
unfolding new_redis_data_base_client
start_redis_data_handler env r servers has_thread (some json) (some dm) (some c) (some v) ms = do
  started ← new_redis_data_base_client env r (servers 0) (some json)
  elim started [
    | none ↦ done none
    | some d ↦ if has_thread then done (some (handler_args servers dm c v ms d)) else done none
  ]
start_redis_data_handler env r servers has_thread json dm c v ms = done none
