-- ===== src/Main/Setup.antt =====
-- main.c, lines 215 to 293: what `main` does with the configuration and the environment before it
-- makes the devices.
pub mod Chosen
use mapper_framework_c.Prelude.{
  ◌++◌, Bool, true, false, ◌||◌, ◌==◌, Option, none, some, List, [], ◌∷◌, if◌then◌else◌, or_default,
}
use mapper_framework_c.Prelude.Int.{ℤ, pos, ltb_ℤ}
use mapper_framework_c.Prelude.CString.{Str, codes, str_case_eq, snprintf, print_int}
use mapper_framework_c.Common.Const.{is_zero}
use mapper_framework_c.Common.Cjson.{CjsonReader}
use mapper_framework_c.Common.DataModel.{DataModel}
use mapper_framework_c.Common.Outcome.{Outcome, done}
use mapper_framework_c.Config.{DatabaseMysqlConfig}
use mapper_framework_c.Database.Env.{Env, setenv, non_empty}
use mapper_framework_c.Database.Mysql.{
  MysqlDataBaseConfig, MysqlLibrary, Statement, mysql_parse_client_config, mysql_init_client,
  mysql_add_data,
}
use mapper_framework_c.Publish.Publisher.{
  Publisher, Libraries, publisher_get_type_from_string, publisher_new,
}

-- `MYSQL_ENABLED` over the value of the configuration.
unfoldable pub mysql_enabled : Option Str → (configured : Bool) → Bool
mysql_enabled none configured = configured
mysql_enabled (some []) configured = configured
mysql_enabled (some (c ∷ s)) configured =
    if c == b'0' || str_case_eq (c ∷ s) (codes "false")
    then false
    else if c == b'1' || str_case_eq (c ∷ s) (codes "true")
    then true
    else configured

-- `field[0] ? field : default`
abbrev pub or_text : Str → Str → Str
or_text field default = or_default (non_empty (some field)) default

unfoldable pub mysql_json_text : DatabaseMysqlConfig → Str
mysql_json_text c =
    codes "{\"addr\":\""
    ++ or_text c.addr (codes "127.0.0.1")
    ++ codes "\",\"database\":\""
    ++ or_text c.database (codes "testdb")
    ++ codes "\",\"userName\":\""
    ++ or_text c.username (codes "mapper")
    ++ codes "\",\"password\":\""
    ++ c.password
    ++ codes "\",\"port\":"
    ++ print_int (if ltb_ℤ (pos 0) c.port then c.port else pos 3306)
    ++ codes ",\"ssl_mode\":\""
    ++ or_text c.ssl_mode (codes "DISABLED")
    ++ codes "\"}"

unfoldable pub mysql_json : DatabaseMysqlConfig → Str
mysql_json c = snprintf 512 (mysql_json_text c)

-- The environment, the client that `g_mysql` points at, whether the recorder has it, and what was
-- sent to the server.
pub record MysqlSetup : Type 0 where
  pub env : Env
  pub mysql : Option MysqlDataBaseConfig
  pub recorder : Bool
  pub sent : List Statement

unfoldable pub selftest_row : (now : ℤ) → DataModel
selftest_row now = record {
  device_name = some (codes "mysql-selftest");
  property_name = some (codes "ping");
  namespace = some (codes "default");
  value = some (codes "ok");
  type_name = some (codes "string");
  time_stamp = now;
}

abbrev with_password : Str → Env → Env
with_password password env = elim (non_empty (some password)) [
  | none ↦ env
  | some p ↦ setenv env (codes "MYSQL_PASSWORD") p
]

abbrev connected :
    MysqlLibrary → (datetime : ℤ → Str) → (now : ℤ) → Env → MysqlDataBaseConfig × ℤ → MysqlSetup
connected l datetime now env started =
    if is_zero started.1
    then record {
      env = env;
      mysql = some started.0;
      recorder = true;
      sent = (mysql_add_data l datetime started.0 (some (selftest_row now))).0;
    }
    else record { env = env; mysql = some started.0; recorder = false; sent = [] }

abbrev connect_mysql :
    CjsonReader
    → MysqlLibrary
    → (datetime : ℤ → Str) → (now : ℤ) → DatabaseMysqlConfig
    → Env
    → MysqlSetup
connect_mysql r l datetime now c env =
    let (config, env') = mysql_parse_client_config env r (some (mysql_json c)) (pos 0) in
    connected l datetime now env'
      (mysql_init_client l env' (record { config = config; conn = false }))

unfoldable pub setup_mysql :
    CjsonReader
    → MysqlLibrary
    → (datetime : ℤ → Str) → (now : ℤ) → DatabaseMysqlConfig
    → Env
    → MysqlSetup
setup_mysql r l datetime now c env =
    let env' = setenv env (codes "MYSQL_SSL_MODE") (or_text c.ssl_mode (codes "DISABLED")) in
    if mysql_enabled (env' (codes "MYSQL_ENABLED")) c.enabled
    then connect_mysql r l datetime now c (with_password c.password env')
    else record { env = env'; mysql = none; recorder = false; sent = [] }

abbrev pub publisher_for : Libraries → Option Str → Option Str → Outcome (Option Publisher)
publisher_for l (some method) (some config) =
    publisher_new l (publisher_get_type_from_string (some method)) (some config)
publisher_for l method config = done none

unfoldable pub setup_publisher : Libraries → Env → Outcome (Option Publisher)
setup_publisher l env =
    publisher_for l (non_empty (env (codes "PUBLISH_METHOD")))
      (non_empty (env (codes "PUBLISH_CONFIG")))
