-- ===== src/Database/Tdengine/Rows.antt =====
-- What a query of TDengine gives back, and which tables it writes to.
use mapper_framework_c.Prelude.{
  suc, ◌≡◌, refl, ap, true, Option, none, some, List, [], ◌∷◌, map, length,
}
use mapper_framework_c.Prelude.Int.{ℤ}
use mapper_framework_c.Prelude.CString.{Str}
use mapper_framework_c.Common.Const.{success}
use mapper_framework_c.Common.DataModel.{DataModel}
use mapper_framework_c.Database.Tdengine.{
  Taos, TaosRow, TaosResult, TdengineDataBaseConfig, row_model, fill_models, query_again,
  select_sql, tdengine_get_data_by_device_id, select_range_sql, tdengine_get_data_by_time_range,
}

abbrev pub filled : TaosRow → Option DataModel
filled row = some (row_model row)

fill_models-all : (rows : List TaosRow) → fill_models (length rows) rows ≡ map filled rows
unfolding fill_models
fill_models-all [] = refl
fill_models-all (row ∷ rows) = ap (λ x. filled row ∷ x) (fill_models-all rows)

again-all :
    (again : TaosResult) (rows : List TaosRow)
    → again.no_error ≡ true
    → again.rows ≡ rows
    → query_again again (length rows)
      ≡ record { code = success; count = some (length rows); data_models = some (map filled rows) }
again-all again [] n e = refl
again-all again (row ∷ rows) n e =
    rw (n, e)
      (ap (λ x. record { code = success; count = some (suc (length rows)); data_models = some x })
        (fill_models-all (row ∷ rows)))

-- On a connection, where both sendings of the statement are answered without an error and by the same
-- rows, a query by device gives 0, the number of the rows, and for each row in order a record with
-- its fields.
pub tdengine_get_data_by_device_id_lem :
    (t : Taos) (d : TdengineDataBaseConfig) (id : Str) (rows : List TaosRow)
    → d.conn ≡ true
    → (t.query 0 (select_sql id)).no_error ≡ true
    → (t.query 0 (select_sql id)).rows ≡ rows
    → (t.query 1 (select_sql id)).no_error ≡ true
    → (t.query 1 (select_sql id)).rows ≡ rows
    → tdengine_get_data_by_device_id t d (some id)
      ≡ record { code = success; count = some (length rows); data_models = some (map filled rows) }
unfolding tdengine_get_data_by_device_id
tdengine_get_data_by_device_id_lem t d id rows c n e n' e' =
    rw (c, n, e) (again-all (t.query 1 (select_sql id)) rows n' e')

-- A query by time gives 0 and the number of the rows but writes no array of records where there are
-- rows, whatever the database answers.
pub tdengine_get_data_by_time_range-unfilled :
    (t : Taos) (utc : ℤ → Str) (d : TdengineDataBaseConfig) (id : Str) (start stop : ℤ)
    (row : TaosRow) (rows : List TaosRow)
    → d.conn ≡ true
    → (t.query 0 (select_range_sql id (utc start) (utc stop))).no_error ≡ true
    → (t.query 0 (select_range_sql id (utc start) (utc stop))).rows ≡ row ∷ rows
    → tdengine_get_data_by_time_range t utc d (some id) start stop
      ≡ record { code = success; count = some (suc (length rows)); data_models = none }
unfolding tdengine_get_data_by_time_range
tdengine_get_data_by_time_range-unfilled t utc d id start stop row rows c n e = rw (c, n, e) refl
