-- ===== src/Recorder.antt =====
-- data/dbmethod/mysql/recorder.c: the recorder between a device and the MySQL client.
pub mod Names
use mapper_framework_c.Prelude.{
  ℕ, zero, suc, ◌+◌, ◌-◌, Bool, true, false, ◌&&◌, ◌||◌, ltb, leb, ◌==◌, if◌then◌else◌, Option,
  none, some, List, [], ◌∷◌,
}
use mapper_framework_c.Prelude.Int.{ℤ}
use mapper_framework_c.Prelude.CString.{Str, codes, snprintf, to_lower}
use mapper_framework_c.Common.Const.{failure}
use mapper_framework_c.Common.DataModel.{DataModel}

-- The letters, digits and signs that an identifier keeps.
unfoldable pub is_id_char : ℕ → Bool
is_id_char c =
    (leb b'a' c && leb c b'z') || (leb b'0' c && leb c b'9') || c == b'-' || c == b'_' || c == b'/'

unfoldable pub id_char : ℕ → ℕ
unfolding is_id_char
id_char c = let l = to_lower c in if is_id_char l then l else b'_'

-- The loop; `room` is `outsz - 1 - j`.
unfoldable pub id_loop : (room : ℕ) → Str → Str
unfolding id_char
id_loop room [] = []
id_loop zero (c ∷ s) = []
id_loop (suc room) (c ∷ s) = id_char c ∷ id_loop room s

-- `strlcpy(out, fallback, outsz)` where nothing was written.
abbrev or_fallback : (outsz : ℕ) (fallback : Str) → Str → Str
or_fallback outsz fallback [] = snprintf outsz fallback
or_fallback outsz fallback (c ∷ s) = c ∷ s

unfoldable pub sanitize_id : Option Str → (outsz : ℕ) (fallback : Str) → Str
unfolding id_loop
sanitize_id none outsz fallback = snprintf outsz fallback
sanitize_id (some []) outsz fallback = snprintf outsz fallback
sanitize_id (some (c ∷ s)) outsz fallback = or_fallback outsz fallback (id_loop (outsz - 1) (c ∷ s))

-- What stands behind the recorder: whether a connected client is attached, and what
-- `mysql_add_data` returns for a row.
pub record MysqlDb : Type 0 where
  pub connected : Bool
  pub add_data : DataModel → ℤ

-- The row that the call builds, or none where a guard returns first. `seconds` is `ts_ms / 1000`.
unfoldable pub recorder_row :
    MysqlDb → (ns device_name property_name value : Option Str) (seconds : ℤ) → Option DataModel
recorder_row db ns (some d) (some p) (some v) seconds =
    if db.connected
    then some (record {
      device_name = some (sanitize_id (some d) 128 (codes "device"));
      property_name = some (sanitize_id (some p) 128 (codes "property"));
      namespace = some (sanitize_id ns 128 (codes "default"));
      value = some v;
      type_name = some (codes "string");
      time_stamp = seconds;
    })
    else none
recorder_row db ns _ _ _ seconds = none

-- The code returned.
unfoldable pub mysql_recorder_record :
    MysqlDb → (ns device_name property_name value : Option Str) (seconds : ℤ) → ℤ
unfolding recorder_row
mysql_recorder_record db ns device_name property_name value seconds =
    elim (recorder_row db ns device_name property_name value seconds) [
      | none ↦ failure
      | some row ↦ db.add_data row
    ]
