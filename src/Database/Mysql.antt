-- ===== src/Database/Mysql.antt =====
-- data/dbmethod/mysql/mysql_client.c: the configuration, the connection and the writes.
pub mod Configuration
pub mod Statements
use mapper_framework_c.Prelude.{
  ℕ, ◌++◌, Bool, true, false, not, ◌&&◌, Option, none, some, List, [], ◌∷◌, if◌then◌else◌,
  or_default,
}
use mapper_framework_c.Prelude.Int.{ℤ, pos, pos_part, ltb_ℤ}
use mapper_framework_c.Prelude.CString.{Str, codes, str_case_eq, atoi, snprintf}
use mapper_framework_c.Common.Const.{success, failure}
use mapper_framework_c.Common.Cjson.{CjsonReader, Item}
use mapper_framework_c.Common.DataModel.{DataModel}
use mapper_framework_c.Database.Env.{Env, setenv, non_empty}

unfoldable pub getenv_def : Env → Str → Str → Str
getenv_def env k defv = or_default (non_empty (env k)) defv

unfoldable pub normalize_ssl_mode : Option Str → Str
normalize_ssl_mode m = elim (non_empty m) [
  | none ↦ codes "DISABLED"
  | some t ↦
      if str_case_eq t (codes "DISABLED")
      then codes "DISABLED"
      else if str_case_eq t (codes "PREFERRED")
      then codes "PREFERRED"
      else if str_case_eq t (codes "REQUIRED")
      then codes "REQUIRED"
      else if str_case_eq t (codes "VERIFY_CA")
      then codes "VERIFY_CA"
      else if str_case_eq t (codes "VERIFY_IDENTITY")
      then codes "VERIFY_IDENTITY"
      else codes "DISABLED"
]

pub record MysqlClientConfig : Type 0 where
  pub addr : Option Str
  pub database : Option Str
  pub user_name : Option Str
  pub password : Option Str
  pub port : ℤ

-- The text of an item that is one: `j && cJSON_IsString(j)`.
abbrev pub text_of : Option Item → Option Str
text_of none = none
text_of (some i) = i.value_string

-- `if (j && cJSON_IsString(j)) field = strdup(j->valuestring);`
abbrev pub overwrite : Option Str → Option Item → Option Str
overwrite old item = elim (text_of item) [ none ↦ old | some t ↦ some t ]

abbrev pub overwrite_port : ℤ → Option Item → ℤ
overwrite_port old none = old
overwrite_port old (some i) = if i.is_number then i.value_double else old

abbrev mysql_password : Env → Option Str
mysql_password env = elim (non_empty (env (codes "MYSQL_PASSWORD"))) [
  | none ↦ env (codes "PASSWORD")
  | some p ↦ some p
]

-- The values of the environment; `port` is what the structure held before.
unfoldable pub env_config : Env → (port : ℤ) → MysqlClientConfig
unfolding getenv_def
env_config env port = record {
  addr = some (getenv_def env (codes "MYSQL_HOST") (codes "127.0.0.1"));
  database = some (getenv_def env (codes "MYSQL_DB") (codes "testdb"));
  user_name = some (getenv_def env (codes "MYSQL_USER") (codes "mapper"));
  password = mysql_password env;
  port = port;
}

unfoldable pub env_port : Env → ℤ
unfolding atoi
env_port env = elim (non_empty (env (codes "MYSQL_PORT"))) [ none ↦ pos 3306 | some t ↦ atoi t ]

-- The values of the JSON text, over those there are.
unfoldable pub json_config : (r : CjsonReader) → r.Root → MysqlClientConfig → MysqlClientConfig
json_config r root c = record {
  addr = overwrite c.addr (r.get_object_item root (codes "addr"));
  database = overwrite c.database (r.get_object_item root (codes "database"));
  user_name = overwrite c.user_name (r.get_object_item root (codes "userName"));
  password = overwrite c.password (r.get_object_item root (codes "password"));
  port = overwrite_port c.port (r.get_object_item root (codes "port"));
}

abbrev ssl_env : (r : CjsonReader) → r.Root → Env → Env
ssl_env r root env = elim (text_of (r.get_object_item root (codes "ssl_mode"))) [
  | none ↦ env
  | some t ↦ setenv env (codes "MYSQL_SSL_MODE") t
]

abbrev pub parse_non_empty : (r : CjsonReader) → Option Str → Option r.Root
parse_non_empty r json = elim (non_empty json) [ none ↦ none | some t ↦ r.parse t ]

abbrev with_port : ℤ → MysqlClientConfig → MysqlClientConfig
with_port p c = record c { port = if ltb_ℤ (pos 0) p then p else pos 3306 }

-- The configuration and the environment afterwards; the code is 0. `port` is what the structure held
-- before.
unfoldable pub mysql_parse_client_config :
    Env → CjsonReader → (json : Option Str) → (port : ℤ) → MysqlClientConfig × Env
unfolding env_config env_port json_config
mysql_parse_client_config env r json port = elim (parse_non_empty r json) [
  | none ↦ (with_port (env_port env) (env_config env port), env)
  | some root ↦
      (with_port (env_port env) (json_config r root (env_config env port)), ssl_env r root env)
]

-- `conn` says whether there is a connection.
pub record MysqlDataBaseConfig : Type 0 where
  pub config : MysqlClientConfig
  pub conn : Bool

-- The arguments of `mysql_real_connect`, and the mode that the connection was set to.
pub record Connect : Type 0 where
  pub host : Str
  pub user : Str
  pub passwd : Str
  pub db : Str
  pub port : ℕ
  pub unix_socket : Option Str
  pub ssl_mode : Str

-- What the client library gives: a handle, a connection, and whether its calls succeed.
pub record MysqlLibrary : Type 0 where
  pub init : Bool
  pub real_connect : Connect → Bool
  pub query : Str → Bool
  pub stmt_init : Bool
  pub stmt_prepare : Str → Bool
  pub stmt_bind_param : Str → Str → Bool
  pub stmt_execute : Str → Str → Bool

abbrev client_port : ℤ → ℕ
client_port p = if ltb_ℤ (pos 0) p then pos_part p else 3306

abbrev client_password : Env → Option Str → Str
client_password env password = elim (non_empty password) [
  | none ↦ or_default (non_empty (env (codes "MYSQL_PASSWORD"))) (or_default password [])
  | some p ↦ p
]

unfoldable pub connect_arguments : Env → MysqlClientConfig → Connect
unfolding normalize_ssl_mode
connect_arguments env c =
    let unix_socket = non_empty (env (codes "MYSQL_UNIX_SOCKET")) in
    record {
      host = or_default (non_empty c.addr) (codes "127.0.0.1");
      user = or_default c.user_name (codes "mapper");
      passwd = client_password env c.password;
      db = or_default c.database (codes "testdb");
      port = elim unix_socket [ none ↦ client_port c.port | some s ↦ 0 ];
      unix_socket = unix_socket;
      ssl_mode = normalize_ssl_mode (non_empty (env (codes "MYSQL_SSL_MODE")));
    }

unfoldable pub mysql_init_client :
    MysqlLibrary → Env → MysqlDataBaseConfig → MysqlDataBaseConfig × ℤ
unfolding connect_arguments
mysql_init_client l env d =
    if l.init && l.real_connect (connect_arguments env d.config)
    then (record d { conn = true }, success)
    else (record d { conn = false }, failure)

pub mysql_close_client : MysqlDataBaseConfig → MysqlDataBaseConfig
mysql_close_client d = record d { conn = false }

-- What reaches the server: a text, or a prepared text with its values.
pub data Statement : Type 0 where
  text : Str → Statement
  prepared : Str → List Str → Statement

unfoldable pub table_name : DataModel → Str
table_name dm = snprintf 256 (
    or_default dm.namespace (codes "default")
    ++ b'/' ∷ or_default dm.device_name (codes "device")
    ++ b'/' ∷ or_default dm.property_name (codes "property"))

abbrev pub create_head : Str
create_head = codes "CREATE TABLE IF NOT EXISTS `"

abbrev pub create_tail : Str
create_tail = codes "` (  id INT AUTO_INCREMENT PRIMARY KEY,  ts DATETIME NOT NULL,  field TEXT)"

abbrev pub insert_head : Str
insert_head = codes "INSERT INTO `"

abbrev pub insert_tail : Str
insert_tail = codes "` (ts, field) VALUES (?, ?)"

unfoldable pub create_table : DataModel → Str
unfolding table_name
create_table dm = snprintf 512 (create_head ++ table_name dm ++ create_tail)

unfoldable pub insert_sql : DataModel → Str
unfolding table_name
insert_sql dm = snprintf 512 (insert_head ++ table_name dm ++ insert_tail)

abbrev run_insert : MysqlLibrary → Str → (datetime value : Str) → List Statement × ℤ
run_insert l sql datetime value =
    if l.stmt_init && l.stmt_prepare sql && l.stmt_bind_param datetime value
    then (
      prepared sql (datetime ∷ value ∷ []) ∷ [],
      if l.stmt_execute datetime value then success else failure,
    )
    else ([], failure)

-- What is sent, in order, and the code. `datetime` is the text of `strftime` for a time.
unfoldable pub mysql_add_data :
    MysqlLibrary
    → (datetime : ℤ → Str) → MysqlDataBaseConfig
    → Option DataModel
    → List Statement × ℤ
mysql_add_data l datetime d none = ([], failure)
mysql_add_data l datetime d (some dm) =
    if d.conn
    then if l.query (create_table dm)
      then (
        text (create_table dm)
            ∷ (run_insert l (insert_sql dm) (datetime dm.time_stamp) (or_default dm.value [])).0,
        (run_insert l (insert_sql dm) (datetime dm.time_stamp) (or_default dm.value [])).1,
      )
      else (text (create_table dm) ∷ [], failure)
    else ([], failure)
