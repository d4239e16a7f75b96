-- ===== src/Database/Influxdb.antt =====
-- data/dbmethod/influxdb2/influxdb2_client.c and data/dbmethod/influxdb2/handler.c: the client of
-- InfluxDB.
pub mod Handler
pub mod Line
use mapper_framework_c.Prelude.{
  ℕ, ◌+◌, ◌-◌, ◌++◌, Bool, true, false, leb, Option, none, some, List, [], ◌∷◌, map, if◌then◌else◌,
  or_default, length, take,
}
use mapper_framework_c.Prelude.Int.{ℤ}
use mapper_framework_c.Prelude.CString.{Str, codes, snprintf}
use mapper_framework_c.Common.Const.{success, failure}
use mapper_framework_c.Common.Cjson.{CjsonReader, Item}
use mapper_framework_c.Common.DataModel.{DataModel}
use mapper_framework_c.Common.Outcome.{Outcome, fault, done, ◌>>=◌, deref}
use mapper_framework_c.Driver.{CustomizedClient, VisitorConfig}
use mapper_framework_c.Publish.Fields.{optional_field}
use mapper_framework_c.Database.Env.{Env}
use mapper_framework_c.Database.Handler.{Sink, HandlerArgs, cycle_or_default}

pub record InfluxdbClientConfig : Type 0 where
  pub url : Option Str
  pub org : Option Str
  pub bucket : Option Str
  pub token : Option Str

-- `some` is the code 0, `none` is -1.
unfoldable pub influxdb2_parse_client_config :
    Env → CjsonReader → Str → Outcome (Option InfluxdbClientConfig)
influxdb2_parse_client_config env r json = elim (r.parse json) [
  | none ↦ done none
  | some root ↦ do
    url ← optional_field (r.get_object_item root (codes "url"))
    org ← optional_field (r.get_object_item root (codes "org"))
    bucket ← optional_field (r.get_object_item root (codes "bucket"))
    done (some (record { url = url; org = org; bucket = bucket; token = env (codes "TOKEN") }))
]

-- `tags` are the keys with their values.
pub record InfluxdbDataConfig : Type 0 where
  pub measurement : Option Str
  pub tags : List (Str × Str)
  pub field_key : Option Str

-- The loop over the members of the object; a value that is no text is passed to strdup as null.
unfoldable pub parse_tags : List (Str × Item) → Outcome (List (Str × Str))
parse_tags [] = done []
parse_tags (m ∷ ms) = do
  value ← deref m.1.value_string
  rest ← parse_tags ms
  done ((m.0, value) ∷ rest)

unfoldable pub influxdb2_parse_data_config : CjsonReader → Str → Outcome (Option InfluxdbDataConfig)
unfolding parse_tags
influxdb2_parse_data_config r json = elim (r.parse json) [
  | none ↦ done none
  | some root ↦ do
    measurement ← optional_field (r.get_object_item root (codes "measurement"))
    field_key ← optional_field (r.get_object_item root (codes "fieldKey"))
    tags ← parse_tags (or_default (r.object_items root (codes "tag")) [])
    done (some (record { measurement = measurement; tags = tags; field_key = field_key }))
]

-- What is written to the array `line` of 1024 bytes, with the pieces one behind the other, and what
-- `offset` is then. Where `offset` is beyond the array, `sizeof(line) - offset` wraps around and the
-- write is outside of it.
unfoldable pub append_pieces : (offset : ℕ) (line : Str) → List Str → Outcome (Str × ℕ)
append_pieces offset line [] = done (line, offset)
append_pieces offset line (p ∷ ps) =
    let rest = append_pieces (offset + length p) (take 1023 (line ++ p)) ps in
    if leb offset 1024 then rest else fault

unfoldable pub line_pieces : InfluxdbDataConfig → DataModel → List Str
line_pieces c dm =
    or_default c.measurement (codes "measurement") ∷ map (λ t. b',' ∷ t.0 ++ b'=' ∷ t.1) c.tags
    ++ (b' ' ∷ or_default c.field_key (codes "value")
        ++ codes "=\""
        ++ or_default dm.value []
        ++ codes "\"")
      ∷ []

-- How a null pointer is printed.
abbrev or_null : Option Str → Str
or_null t = or_default t (codes "(null)")

unfoldable pub write_url : InfluxdbClientConfig → Str
write_url c = snprintf 512 (
    or_null c.url
    ++ codes "/api/v2/write?org="
    ++ or_null c.org
    ++ codes "&bucket="
    ++ or_null c.bucket
    ++ codes "&precision=ns")

unfoldable pub auth_header : InfluxdbClientConfig → Str
auth_header c = snprintf 256 (codes "Authorization: Token " ++ or_default c.token [])

-- `has_curl` says whether there is a handle, `perform` whether the transfer of a line to an address
-- with a header succeeds.
unfoldable pub influxdb2_add_data :
    (has_curl : Bool)
    → (perform : Str → Str → Str → Bool) → InfluxdbClientConfig
    → InfluxdbDataConfig
    → DataModel
    → Outcome ℤ
unfolding append_pieces line_pieces
influxdb2_add_data false perform c data_config dm = done failure
influxdb2_add_data true perform c data_config dm = do
  line ← append_pieces 0 [] (line_pieces data_config dm)
  done (if perform (write_url c) (auth_header c) line.0 then success else failure)
