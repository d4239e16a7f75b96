-- ===== src/Tests/Databases.antt =====
-- Witnesses of what holds for the clients of the databases.
use mapper_framework_c.Prelude.{
  if◌then◌else◌, ℕ, suc, ◌≤◌, ◌<◌, ◌≡◌, refl, true, ltb, none, some, [], ◌∷◌, ◌++◌, all, length,
  or_default, arith,
}
use mapper_framework_c.Prelude.Int.{ℤ, pos}
use mapper_framework_c.Prelude.CString.{Str, codes}
use mapper_framework_c.Common.Const.{success, failure, is_zero}
use mapper_framework_c.Common.DataModel.{DataModel}
use mapper_framework_c.Common.Outcome.{fault, done}
use mapper_framework_c.Recorder.{MysqlDb, recorder_row, is_id_char}
use mapper_framework_c.Database.Env.{Env}
use mapper_framework_c.Database.Mysql.{
  MysqlDataBaseConfig, create_head, create_tail, insert_head, insert_tail, table_name,
  mysql_add_data, mysql_parse_client_config,
}
use mapper_framework_c.Database.Mysql.Statements.{Sends, mysql_add_data-recorder_row}
use mapper_framework_c.Database.Handler.{Sink, data_handler_thread}
use mapper_framework_c.Database.Handler.Runs.{started_args, rows_from, data_handler_thread-ends}
use mapper_framework_c.Driver.{CustomizedClient, VisitorConfig}
use mapper_framework_c.Tests.Samples.{modbus}
use mapper_framework_c.Database.Influxdb.{InfluxdbDataConfig, append_pieces, line_pieces}
use mapper_framework_c.Database.Influxdb.Line.{length_before_last, whole_line, append_pieces_lem}
use mapper_framework_c.Tests.Libraries.{empty_reader, mysql_library, reading}

abbrev accepting : MysqlDb
accepting = record { connected = true; add_data = λ dm. success }

abbrev row : DataModel
row =
    or_default
      (recorder_row accepting none (some (codes "My Sensor!")) (some (codes "t`x"))
        (some (codes "1'")) (pos 5))
      reading

abbrev no_env : Env
no_env = λ n. none

abbrev client : MysqlDataBaseConfig
client = record {
  config = (mysql_parse_client_config no_env empty_reader none (pos 0)).0;
  conn = true;
}

recorded :
    recorder_row accepting none
      (some (codes "My Sensor!"))
      (some (codes "t`x"))
      (some (codes "1'"))
      (pos 5)
    ≡ some row
unfolding recorder_row
recorded = refl

abbrev noon : ℤ → Str
noon t = codes "2024-01-01 12:00:00"

mysql_add_data-recorder_row_example :
    (all is_id_char (table_name row) ≡ true)
    × (length (table_name row) ≤ 255)
    × Sends
        (create_head ++ table_name row ++ create_tail)
        (insert_head ++ table_name row ++ insert_tail)
        (noon row.time_stamp)
        (or_default row.value [])
        (mysql_add_data mysql_library noon client (some row))
mysql_add_data-recorder_row_example =
    mysql_add_data-recorder_row mysql_library noon client accepting none (some (codes "My Sensor!"))
      (some (codes "t`x")) (some (codes "1'")) (pos 5) recorded

abbrev sample_client : CustomizedClient
sample_client = record { protocol_config = modbus }

abbrev sample_visitor : VisitorConfig
sample_visitor = record { protocol_name = none; property_name = none; config_data = none }

-- A client that counts its closes and refuses the third row.
abbrev two_rows : Sink
two_rows = record {
  Client = ℕ;
  add_data = λ n c dm. if ltb n 2 then success else failure;
  close = suc;
}

two_stored : (i : ℕ) → i < 2 → is_zero (if ltb i 2 then success else failure) ≡ true
two_stored i h = ground arith

data_handler_thread-ends_example :
    data_handler_thread two_rows
      (λ i. true)
      pos
      (started_args two_rows pos 0 reading (pos 1000) sample_client sample_visitor)
      9
    ≡ some (record {
      rows = rows_from two_rows pos 0 reading (pos 1000) sample_client sample_visitor 0 2;
      db = 1;
    })
data_handler_thread-ends_example =
    data_handler_thread-ends two_rows pos 0 reading (pos 1000) sample_client sample_visitor
      (λ i. true) 9 2 (λ i. refl) two_stored refl (omega arith)

abbrev tagged : InfluxdbDataConfig
tagged = record {
  measurement = some (codes "m");
  tags = (codes "room", codes "1") ∷ [];
  field_key = none;
}

append_pieces_lem_example :
    (length_before_last (line_pieces tagged reading) ≤ 1024
      → append_pieces 0 [] (line_pieces tagged reading)
        ≡ done (whole_line 0 [] (line_pieces tagged reading)))
    × (1024 < length_before_last (line_pieces tagged reading)
        → append_pieces 0 [] (line_pieces tagged reading) ≡ fault)
append_pieces_lem_example = append_pieces_lem tagged reading
