-- ===== src/Database/Tdengine.antt =====
-- data/dbmethod/tdengine/tdengine_client.c and data/dbmethod/tdengine/handler.c: the client of
-- TDengine.
pub mod Rows
pub mod Start
use mapper_framework_c.Prelude.{
  ℕ, zero, suc, ◌++◌, ◌*◌, ◌-◌, ◌/◌, Bool, true, false, ◌==◌, Option, none, some, List, [], ◌∷◌,
  map, if◌then◌else◌, or_default, length,
}
use mapper_framework_c.Prelude.Int.{ℤ, pos, negsuc, sub_ℕ}
use mapper_framework_c.Prelude.CString.{Str, codes, snprintf}
use mapper_framework_c.Common.Const.{success, failure}
use mapper_framework_c.Common.Cjson.{CjsonReader}
use mapper_framework_c.Common.DataModel.{DataModel}
use mapper_framework_c.Common.Outcome.{Outcome, fault, done, ◌>>=◌}
use mapper_framework_c.Publish.Fields.{text_field}
use mapper_framework_c.Database.Env.{Env}

unfoldable pub replace_char : (old_char new_char : ℕ) → Str → Str
replace_char old_char new_char s = map (λ c. if c == old_char then new_char else c) s

pub record TdengineClientConfig : Type 0 where
  pub addr : Str
  pub db_name : Str
  pub username : Str
  pub password : Str

-- `some` is the code 0, `none` is -1.
unfoldable pub tdengine_parse_client_config :
    Env → CjsonReader → Option Str → Outcome (Option TdengineClientConfig)
tdengine_parse_client_config env r none = done none
tdengine_parse_client_config env r (some json) = elim (r.parse json) [
  | none ↦ done none
  | some root ↦ do
    addr ← text_field (r.get_object_item root (codes "addr")) (codes "localhost:6041")
    db_name ← text_field (r.get_object_item root (codes "dbName")) (codes "test")
    done (
        some (record {
          addr = addr;
          db_name = db_name;
          username = or_default (env (codes "USERNAME")) (codes "root");
          password = or_default (env (codes "PASSWORD")) (codes "taosdata");
        }))
]

-- `conn` says whether the handle is not null.
pub record TdengineDataBaseConfig : Type 0 where
  pub config : TdengineClientConfig
  pub conn : Bool

-- A row of a result, with null cells.
pub record TaosRow : Type 0 where
  pub ts : Option ℤ
  pub device_id : Option Str
  pub property : Option Str
  pub content : Option Str
  pub kind : Option Str

-- The answer to a statement.
pub record TaosResult : Type 0 where
  pub no_error : Bool
  pub rows : List TaosRow

-- What the client library gives; the answer to a statement depends on how many were sent before by
-- the same call.
pub record Taos : Type 0 where
  pub init : Bool
  pub connect : TdengineClientConfig → Bool
  pub query : ℕ → Str → TaosResult

unfoldable pub tdengine_init_client : Taos → TdengineDataBaseConfig → TdengineDataBaseConfig × ℤ
tdengine_init_client t d =
    if t.init
    then if t.connect d.config
      then if (t.query 0
          (snprintf 256 (codes "CREATE DATABASE IF NOT EXISTS " ++ d.config.db_name))).no_error
        then if (t.query 1 (snprintf 256 (codes "USE " ++ d.config.db_name))).no_error
          then (record d { conn = true }, success)
          else (record d { conn = true }, failure)
        else (record d { conn = true }, failure)
      else (record d { conn = false }, failure)
    else (d, failure)

abbrev pub tdengine_close_client : TdengineDataBaseConfig → TdengineDataBaseConfig
tdengine_close_client d = record d { conn = false }

unfoldable pub td_table_name : DataModel → Str
td_table_name dm = snprintf 256 (
    or_default dm.namespace (codes "default") ++ b'/' ∷ or_default dm.device_name (codes "unknown"))

unfoldable pub legal_table : DataModel → Str
unfolding replace_char td_table_name
legal_table dm = replace_char b'-' b'_' (td_table_name dm)

unfoldable pub legal_tag : DataModel → Str
unfolding replace_char
legal_tag dm = replace_char b'-' b'_' (or_default dm.property_name (codes "property"))

unfoldable pub show_stable_sql : DataModel → Str
show_stable_sql dm = snprintf 512 (codes "SHOW STABLES LIKE '" ++ legal_table dm ++ codes "'")

unfoldable pub create_stable_sql : DataModel → Str
create_stable_sql dm = snprintf 1024 (
    codes "CREATE STABLE "
    ++ legal_table dm
    ++ codes
        " (ts timestamp, deviceid binary(64), propertyname binary(64), data binary(64), type binary(64)) TAGS (location binary(64))")

-- `timeStamp / 1000`
unfoldable pub to_seconds : ℤ → ℤ
to_seconds (pos n) = pos (n / 1000)
to_seconds (negsuc n) = sub_ℕ 0 (suc n / 1000)

unfoldable pub td_insert_sql : (datetime : ℤ → Str) → DataModel → Str
td_insert_sql datetime dm = snprintf 2048 (
    codes "INSERT INTO "
    ++ legal_tag dm
    ++ codes " USING "
    ++ legal_table dm
    ++ codes " TAGS ('"
    ++ legal_tag dm
    ++ codes "') VALUES('"
    ++ datetime (to_seconds dm.time_stamp)
    ++ codes "','"
    ++ td_table_name dm
    ++ codes "', '"
    ++ or_default dm.property_name []
    ++ codes "', '"
    ++ or_default dm.value []
    ++ codes "', '"
    ++ or_default dm.type_name (codes "string")
    ++ codes "')")

abbrev td_insert : Taos → (n : ℕ) → Str → List Str × ℤ
td_insert t n sql = (sql ∷ [], if (t.query n sql).no_error then success else failure)

abbrev td_create_and_insert : Taos → (create insert : Str) → List Str × ℤ
td_create_and_insert t create insert =
    if (t.query 1 create).no_error
    then (create ∷ (td_insert t 2 insert).0, (td_insert t 2 insert).1)
    else (create ∷ [], failure)

abbrev td_store : Taos → (create insert : Str) → (exists : List TaosRow) → List Str × ℤ
td_store t create insert [] = td_create_and_insert t create insert
td_store t create insert (row ∷ rows) = td_insert t 1 insert

-- The statements that are sent, in order, and the code. `datetime` is the text of `strftime` for a
-- time.
unfoldable pub tdengine_add_data :
    Taos → (datetime : ℤ → Str) → TdengineDataBaseConfig → Option DataModel → List Str × ℤ
tdengine_add_data t datetime d none = ([], failure)
tdengine_add_data t datetime d (some dm) =
    let shown = t.query 0 (show_stable_sql dm) in
    let stored = td_store t (create_stable_sql dm) (td_insert_sql datetime dm) shown.rows in
    if d.conn
    then if shown.no_error
      then (show_stable_sql dm ∷ stored.0, stored.1)
      else (show_stable_sql dm ∷ [], failure)
    else ([], failure)

-- `*(int64_t*)row[0] * 1000`, within 64 bits.
abbrev times_1000 : ℤ → ℤ
times_1000 (pos n) = pos (n * 1000)
times_1000 (negsuc n) = sub_ℕ 0 (suc n * 1000)

unfoldable pub row_model : TaosRow → DataModel
row_model row = record {
  device_name = row.device_id;
  property_name = row.property;
  namespace = none;
  value = row.content;
  type_name = row.kind;
  time_stamp = elim row.ts [ none ↦ pos 0 | some t ↦ times_1000 t ];
}

-- The loop that fills an array of `count` null pointers.
unfoldable pub fill_models : (count : ℕ) → List TaosRow → List (Option DataModel)
unfolding row_model
fill_models zero rows = []
fill_models (suc count) [] = none ∷ fill_models count []
fill_models (suc count) (row ∷ rows) = some (row_model row) ∷ fill_models count rows

-- What a query gives: the code, and what it writes to `*count` and `*dataModels`, a null array as the
-- empty one.
pub record Query : Type 0 where
  pub code : ℤ
  pub count : Option ℕ
  pub data_models : Option (List (Option DataModel))

abbrev no_query : Query
no_query = record { code = failure; count = none; data_models = none }

-- Behind the first pass over the rows, which counts them.
abbrev query_again : TaosResult → (count : ℕ) → Query
query_again again zero = record { code = success; count = some 0; data_models = some [] }
query_again again (suc n) =
    if again.no_error
    then record {
      code = success;
      count = some (suc n);
      data_models = some (fill_models (suc n) again.rows);
    }
    else record { code = failure; count = some (suc n); data_models = none }

unfoldable pub select_sql : Str → Str
select_sql id =
    snprintf 512
      (codes "SELECT ts, deviceid, propertyname, data, type FROM " ++ replace_char b'-' b'_' id)

unfoldable pub tdengine_get_data_by_device_id : Taos → TdengineDataBaseConfig → Option Str → Query
tdengine_get_data_by_device_id t d none = no_query
tdengine_get_data_by_device_id t d (some id) =
    let first = t.query 0 (select_sql id) in
    if d.conn
    then if first.no_error
      then query_again (t.query 1 (select_sql id)) (length first.rows)
      else no_query
    else no_query

unfoldable pub select_range_sql : Str → (start_str end_str : Str) → Str
select_range_sql id start_str end_str = snprintf 1024 (
    codes "SELECT ts, deviceid, propertyname, data, type FROM "
    ++ replace_char b'-' b'_' id
    ++ codes " WHERE ts >= '"
    ++ start_str
    ++ codes "' AND ts <= '"
    ++ end_str
    ++ codes "'")

abbrev counted : (count : ℕ) → Query
counted zero = record { code = success; count = some 0; data_models = some [] }
counted (suc n) = record { code = success; count = some (suc n); data_models = none }

-- `utc` is the text of `strftime` for a time of `gmtime`.
unfoldable pub tdengine_get_data_by_time_range :
    Taos → (utc : ℤ → Str) → TdengineDataBaseConfig → Option Str → (start stop : ℤ) → Query
tdengine_get_data_by_time_range t utc d none start stop = no_query
tdengine_get_data_by_time_range t utc d (some id) start stop =
    let first = t.query 0 (select_range_sql id (utc start) (utc stop)) in
    if d.conn then if first.no_error then counted (length first.rows) else no_query else no_query
