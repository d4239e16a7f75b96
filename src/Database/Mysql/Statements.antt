-- ===== src/Database/Mysql/Statements.antt =====
-- The statements that a write sends: no text is cut, and none depends on the value.
use mapper_framework_c.Prelude.{
  ℕ, ◌+◌, ◌≤◌, ◌<◌, ◌≡◌, ◌≢◌, refl, inl, inr, subst, Bool, true, ◌&&◌, Option, none, some, List, [],
  ◌∷◌, ◌++◌, arith, or_default, Bool-cases, if_holds, length, take, all, length-append,
  length-take-le, take_all, all-append, all-take,
}
use mapper_framework_c.Prelude.Int.{ℤ}
use mapper_framework_c.Prelude.CString.{Str, codes, snprintf}
use mapper_framework_c.Common.Const.{success}
use mapper_framework_c.Common.DataModel.{DataModel}
use mapper_framework_c.Recorder.{MysqlDb, recorder_row, is_id_char, sanitize_id}
use mapper_framework_c.Recorder.Names.{sanitize_id-IsId}
use mapper_framework_c.Database.Mysql.{
  MysqlDataBaseConfig, MysqlLibrary, Statement, text, prepared, table_name, create_head,
  create_tail, insert_head, insert_tail, create_table, insert_sql, mysql_add_data,
}

-- A text of three parts that fits is not cut.
three_parts :
    (a t b : Str)
    → length t ≤ 255
    → length a + length b < 250
    → snprintf 512 (a ++ t ++ b) ≡ a ++ t ++ b
three_parts a t b h k =
    take_all 511 (a ++ t ++ b) (omega (arith, length-append a t, length-append (a ++ t) b))

length-table_name-le : (dm : DataModel) → length (table_name dm) ≤ 255
unfolding table_name
length-table_name-le dm = length-take-le 255 _

pub create_table_lem :
    (dm : DataModel) → create_table dm ≡ create_head ++ table_name dm ++ create_tail
unfolding create_table
create_table_lem dm =
    three_parts create_head (table_name dm) create_tail (length-table_name-le dm) (omega arith)

pub insert_sql_lem : (dm : DataModel) → insert_sql dm ≡ insert_head ++ table_name dm ++ insert_tail
unfolding insert_sql
insert_sql_lem dm =
    three_parts insert_head (table_name dm) insert_tail (length-table_name-le dm) (omega arith)

-- The three names of a row are identifiers.
record HasIds (dm : DataModel) : Type 0 where
  namespace_id : all is_id_char (or_default dm.namespace (codes "default")) ≡ true
  device_id : all is_id_char (or_default dm.device_name (codes "device")) ≡ true
  property_id : all is_id_char (or_default dm.property_name (codes "property")) ≡ true

slash : is_id_char b'/' ≡ true
unfolding is_id_char
slash = refl

all-three :
    (p : ℕ → Bool) (a b c : Str)
    → p b'/' ≡ true
    → all p a ≡ true
    → all p b ≡ true
    → all p c ≡ true
    → all p (a ++ b'/' ∷ b ++ b'/' ∷ c) ≡ true
all-three p a b c s h i j =
    ground (arith, all-append p (a ++ b'/' ∷ b) (b'/' ∷ c), all-append p a (b'/' ∷ b))

HasIds-table_name : (dm : DataModel) → HasIds dm → all is_id_char (table_name dm) ≡ true
unfolding table_name
HasIds-table_name dm h = all-take is_id_char 255 _ (
    all-three is_id_char (or_default dm.namespace (codes "default"))
      (or_default dm.device_name (codes "device")) (or_default dm.property_name (codes "property"))
      slash h.namespace_id h.device_id h.property_id)

clean_id :
    (name : Option Str) (fallback : Str)
    → fallback ≢ []
    → all is_id_char fallback ≡ true
    → all is_id_char (sanitize_id name 128 fallback) ≡ true
clean_id name fallback n a = (sanitize_id-IsId name 128 fallback (omega arith) n a).clean

abbrev made_row : Option Str → (d p v : Str) → ℤ → DataModel
made_row ns d p v seconds = record {
  device_name = some (sanitize_id (some d) 128 (codes "device"));
  property_name = some (sanitize_id (some p) 128 (codes "property"));
  namespace = some (sanitize_id ns 128 (codes "default"));
  value = some v;
  type_name = some (codes "string");
  time_stamp = seconds;
}

made_row-HasIds : (ns : Option Str) (d p v : Str) (seconds : ℤ) → HasIds (made_row ns d p v seconds)
unfolding is_id_char
made_row-HasIds ns d p v seconds = record {
  namespace_id = clean_id ns (codes "default") (cc) (refl {a = true});
  device_id = clean_id (some d) (codes "device") (cc) (refl {a = true});
  property_id = clean_id (some p) (codes "property") (cc) (refl {a = true});
}

recorder_row-HasIds :
    {row : DataModel} (db : MysqlDb) (ns device_name property_name value : Option Str) (seconds : ℤ)
    → recorder_row db ns device_name property_name value seconds ≡ some row
    → HasIds row
unfolding recorder_row
recorder_row-HasIds {row = row} db ns (some d) (some p) (some v) seconds e =
    elim (Bool-cases db.connected) [
      | inl y ↦
          let made = made_row ns d p v seconds in
          let same : made ≡ row = ground arith in
          subst HasIds same (made_row-HasIds ns d p v seconds)
      | inr n ↦ absurd (ground arith)
    ]
recorder_row-HasIds db ns none p v seconds e = absurd cc
recorder_row-HasIds db ns (some d) none v seconds e = absurd cc
recorder_row-HasIds db ns (some d) (some p) none seconds e = absurd cc

-- What a write sends is the beginning of these two statements, and both where it succeeds.
pub record Sends (create insert datetime value : Str) (r : List Statement × ℤ) : Type 0 where
  pub sent : ℕ
  pub statements : r.0 ≡ take sent (text create ∷ prepared insert (datetime ∷ value ∷ []) ∷ [])
  pub complete : r.1 ≡ success → sent ≡ 2

mysql_add_data-Sends :
    (l : MysqlLibrary) (datetime : ℤ → Str) (d : MysqlDataBaseConfig) (dm : DataModel)
    → Sends
        (create_table dm)
        (insert_sql dm)
        (datetime dm.time_stamp)
        (or_default dm.value [])
        (mysql_add_data l datetime d (some dm))
unfolding mysql_add_data
mysql_add_data-Sends l datetime d dm =
    let P =
      Sends (create_table dm) (insert_sql dm) (datetime dm.time_stamp) (or_default dm.value []) in
    let at = datetime dm.time_stamp in
    let value = or_default dm.value [] in
    if_holds P d.conn
      (λ y.
        if_holds P (l.query (create_table dm))
          (λ z.
            elim (Bool-cases
              (l.stmt_init && l.stmt_prepare (insert_sql dm) && l.stmt_bind_param at value)) [
                | inl b ↦ record { sent = 2; statements = rw b refl; complete = λ e. refl }
                | inr b ↦ record { sent = 1; statements = rw b refl; complete = λ e. absurd cc }
              ])
          (λ z. record { sent = 1; statements = refl; complete = λ e. absurd cc }))
      (λ n. record { sent = 0; statements = refl; complete = λ e. absurd cc })

-- For every row that the recorder makes, a write creates the table and inserts into it, or sends only
-- the first statement or none and fails. Both texts are whole, the table in both is one name of
-- identifier characters with at most 255 bytes, so that no back quote is in it, and the time and the
-- value are sent only as the values of the prepared text.
pub mysql_add_data-recorder_row :
    {row : DataModel} (l : MysqlLibrary) (datetime : ℤ → Str) (d : MysqlDataBaseConfig)
    (db : MysqlDb) (ns device_name property_name value : Option Str) (seconds : ℤ)
    → recorder_row db ns device_name property_name value seconds ≡ some row
    → (all is_id_char (table_name row) ≡ true)
      × (length (table_name row) ≤ 255)
      × Sends
          (create_head ++ table_name row ++ create_tail)
          (insert_head ++ table_name row ++ insert_tail)
          (datetime row.time_stamp)
          (or_default row.value [])
          (mysql_add_data l datetime d (some row))
mysql_add_data-recorder_row {row = row} l datetime d db ns n p v seconds e = (
  HasIds-table_name row (recorder_row-HasIds db ns n p v seconds e),
  length-table_name-le row,
  subst
      (λ i.
        Sends (create_head ++ table_name row ++ create_tail) i (datetime row.time_stamp)
          (or_default row.value []) (mysql_add_data l datetime d (some row)))
      (insert_sql_lem row)
      (subst
        (λ c.
          Sends c (insert_sql row) (datetime row.time_stamp) (or_default row.value [])
            (mysql_add_data l datetime d (some row)))
        (create_table_lem row) (mysql_add_data-Sends l datetime d row)),
)
