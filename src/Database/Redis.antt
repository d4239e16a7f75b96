-- ===== src/Database/Redis.antt =====
-- data/dbmethod/redis/redis_client.c and data/dbmethod/redis/handler.c: the client of Redis.
pub mod Address
pub mod Start
use mapper_framework_c.Prelude.{
  ℕ, ◌++◌, Bool, true, false, not, ◌||◌, ◌==◌, Option, none, some, List, [], ◌∷◌, map,
  if◌then◌else◌, or_default, length,
}
use mapper_framework_c.Prelude.Int.{ℤ, pos}
use mapper_framework_c.Prelude.CString.{Str, codes, str_eq, atoi, print_int, snprintf}
use mapper_framework_c.Common.Const.{success, failure, is_zero}
use mapper_framework_c.Common.Cjson.{CjsonReader}
use mapper_framework_c.Common.DataModel.{DataModel}
use mapper_framework_c.Common.Outcome.{Outcome, fault, done, ◌>>=◌, deref}
use mapper_framework_c.Publish.Fields.{text_field, int_field}
use mapper_framework_c.Database.Env.{Env}

pub record RedisClientConfig : Type 0 where
  pub addr : Str
  pub db : ℤ
  pub pool_size : ℤ
  pub min_idle_conns : ℤ
  pub password : Option Str

-- `some` is the code 0, `none` is -1.
unfoldable pub redis_parse_client_config :
    Env → CjsonReader → Option Str → Outcome (Option RedisClientConfig)
redis_parse_client_config env r none = done none
redis_parse_client_config env r (some json) = elim (r.parse json) [
  | none ↦ done none
  | some root ↦ do
    let item = r.get_object_item root
    addr ← text_field (item (codes "addr")) (codes "localhost:6379")
    done (
        some (record {
          addr = addr;
          db = int_field (item (codes "db")) (pos 0);
          pool_size = int_field (item (codes "poolSize")) (pos 10);
          min_idle_conns = int_field (item (codes "minIdleConns")) (pos 3);
          password = env (codes "PASSWORD");
        }))
]

-- `conn` says whether there is a connection.
pub record RedisDataBaseConfig : Type 0 where
  pub config : RedisClientConfig
  pub conn : Bool

-- An answer of the server: a null reply, or one of the types that the code tells apart. The text of
-- an element of an array may be null.
pub data RedisReply : Type 0 where
  reply_null reply_error reply_other : RedisReply
  reply_status : Str → RedisReply
  reply_array : List (Option Str) → RedisReply

-- What the client library gives. A command is the list of its arguments.
pub record Hiredis : Type 0 where
  pub connect : Option Str → ℤ → Bool
  pub command : List Str → RedisReply

-- `strtok(s, ":")`: the token, where there is one, and what is behind the colon that ends it.
unfoldable pub skip_colons : Str → Str
skip_colons [] = []
skip_colons (c ∷ s) = let rest = skip_colons s in if c == b':' then rest else c ∷ s

unfoldable pub to_colon : Str → Str
to_colon [] = []
to_colon (c ∷ s) = let rest = to_colon s in if c == b':' then [] else c ∷ rest

unfoldable pub behind_colon : Str → Str
behind_colon [] = []
behind_colon (c ∷ s) = let rest = behind_colon s in if c == b':' then s else rest

abbrev pub token_of : Str → Option Str
token_of [] = none
token_of (c ∷ s) = some (c ∷ s)

-- The host, which may be null, and the port.
unfoldable pub redis_address : Str → Option Str × ℤ
redis_address addr =
    let host = token_of (to_colon (skip_colons addr)) in
    let port = token_of (to_colon (skip_colons (behind_colon (skip_colons addr)))) in
    (host, elim port [ none ↦ pos 6379 | some t ↦ atoi t ])

abbrev is_refused : RedisReply → Bool
is_refused reply_null = true
is_refused reply_error = true
is_refused r = false

abbrev is_pong : RedisReply → Bool
is_pong (reply_status t) = str_eq t (codes "PONG")
is_pong r = false

-- The commands of a connection, each sent if those before it went well.
abbrev login : Hiredis → Option Str → Bool
login h none = true
login h (some p) = not (is_refused (h.command (codes "AUTH" ∷ p ∷ [])))

abbrev select_db : Hiredis → ℤ → Bool
select_db h db =
    if is_zero db then true else not (is_refused (h.command (codes "SELECT" ∷ print_int db ∷ [])))

unfoldable pub redis_init_client : Hiredis → RedisDataBaseConfig → RedisDataBaseConfig × ℤ
redis_init_client h d =
    let addr = redis_address d.config.addr in
    if h.connect addr.0 addr.1
    then if login h d.config.password
      then if select_db h d.config.db
        then if is_pong (h.command (codes "PING" ∷ []))
          then (record d { conn = true }, success)
          else (record d { conn = false }, failure)
        else (record d { conn = false }, failure)
      else (record d { conn = false }, failure)
    else (record d { conn = false }, failure)

abbrev pub redis_close_client : RedisDataBaseConfig → RedisDataBaseConfig
redis_close_client d = record d { conn = false }

unfoldable pub device_data_text : DataModel → Str
device_data_text dm = snprintf 1024 (
    codes "TimeStamp: "
    ++ print_int dm.time_stamp
    ++ codes " PropertyName: "
    ++ or_default dm.property_name []
    ++ codes " data: "
    ++ or_default dm.value [])

unfoldable pub zadd_command : DataModel → List Str
zadd_command dm =
    codes "ZADD"
    ∷ or_default dm.device_name (codes "unknown_device")
    ∷ print_int dm.time_stamp
    ∷ device_data_text dm
    ∷ []

unfoldable pub redis_add_data : Hiredis → RedisDataBaseConfig → Option DataModel → ℤ
redis_add_data h d none = failure
redis_add_data h d (some dm) =
    if d.conn
    then if is_refused (h.command (zadd_command dm)) then failure else success
    else failure

abbrev read_row : Str → Str → DataModel
read_row device_id value = record {
  device_name = some device_id;
  property_name = none;
  namespace = none;
  value = some value;
  type_name = none;
  time_stamp = pos 0;
}

-- An element with a null text is passed to strdup.
unfoldable pub read_rows : Str → List (Option Str) → Outcome (List DataModel)
read_rows device_id [] = done []
read_rows device_id (e ∷ es) = do
  value ← deref e
  rows ← read_rows device_id es
  done (read_row device_id value ∷ rows)

-- `some` are the rows with the code 0, `none` is -1.
unfoldable pub redis_get_data_by_device_id :
    Hiredis → RedisDataBaseConfig → Option Str → Outcome (Option (List DataModel))
unfolding read_rows
redis_get_data_by_device_id h d none = done none
redis_get_data_by_device_id h d (some id) =
    if d.conn
    then elim (h.command (codes "ZREVRANGE" ∷ id ∷ codes "0" ∷ codes "-1" ∷ [])) [
      | reply_array es ↦ do rows ← read_rows id es; done (some rows)
      | _ ↦ done none
    ]
    else done none
