-- ===== src/Tests/Libraries.antt =====
-- The client libraries that the witnesses use.
use mapper_framework_c.Prelude.{ℕ, ◌==◌, true, none, some, [], ◌++◌, ◌∷◌, Option, if◌then◌else◌}
use mapper_framework_c.Prelude.Int.{ℤ, pos}
use mapper_framework_c.Prelude.CString.{Str, print_int}
use mapper_framework_c.Common.Cjson.{Cjson, CjsonReader}
use mapper_framework_c.Common.DataModel.{DataModel}
use mapper_framework_c.Publish.Http.{HttpRequest}
use mapper_framework_c.Publish.Mqtt.{Mosquitto, connack}
use mapper_framework_c.Publish.Otel.{Floats}
use mapper_framework_c.Publish.Publisher.{Libraries}
use mapper_framework_c.Database.Mysql.{MysqlLibrary}

-- Objects are the texts of their members.
abbrev pub plain_cjson : Cjson
plain_cjson = record {
  Node = Str;
  create_object = [];
  add_string_to_object = λ n k v. n ++ k;
  add_number_to_object = λ n k v. n ++ k ++ print_int v;
  add_item_to_object = λ n k v. n ++ k ++ v;
  create_array = [];
  add_item_to_array = λ n v. n ++ v;
  print_unformatted = λ n. some n;
}

-- Every text is an empty object.
abbrev pub empty_reader : CjsonReader
empty_reader = record {
  Root = Str;
  parse = λ s. some s;
  get_object_item = λ r k. none;
  object_items = λ r k. none;
}

abbrev pub whole_floats : Floats plain_cjson
whole_floats = record {
  Double = ℕ;
  of_ℕ = λ n. n;
  strtod = λ s. (0, s);
  add_double_to_object = λ n k v. n ++ k;
}

-- The broker answers while the second call waits.
abbrev pub broker : Mosquitto
broker = record {
  connect = λ c. pos 0;
  wait_events = λ n. if n == 1 then connack (pos 0) ∷ [] else [];
  last_events = [];
  publish = λ m. pos 0;
}

-- The second request is answered with 200.
abbrev pub answers_second : HttpRequest → ℕ → Option ℤ
answers_second r n = if n == 1 then some (pos 200) else none

abbrev pub libraries : Libraries
libraries = record {
  reader = empty_reader;
  cjson = plain_cjson;
  floats = whole_floats;
  has_curl = true;
  has_client = true;
  perform = answers_second;
  mosquitto = broker;
  perform_otel = λ u t. none;
}

abbrev pub mysql_library : MysqlLibrary
mysql_library = record {
  init = true;
  real_connect = λ c. true;
  query = λ s. true;
  stmt_init = true;
  stmt_prepare = λ s. true;
  stmt_bind_param = λ d v. true;
  stmt_execute = λ d v. true;
}

abbrev pub reading : DataModel
reading = record {
  device_name = some (b'x' ∷ []);
  property_name = none;
  namespace = none;
  value = none;
  type_name = none;
  time_stamp = pos 5;
}
