-- ===== src/Publish/Publisher.antt =====
-- data/publish/publisher.c: the choice of a publisher by the name of its method.
pub mod Choice
use mapper_framework_c.Prelude.{ℕ, Bool, true, false, Option, none, some, List, if◌then◌else◌}
use mapper_framework_c.Prelude.Int.{ℤ}
use mapper_framework_c.Prelude.CString.{Str, codes, str_case_eq}
use mapper_framework_c.Common.Const.{success, failure}
use mapper_framework_c.Common.Cjson.{Cjson, CjsonReader}
use mapper_framework_c.Common.DataModel.{DataModel}
use mapper_framework_c.Common.Outcome.{Outcome, fault, done, ◌>>=◌}
use mapper_framework_c.Publish.Http.{
  HttpPublisher, HttpRequest, HttpResult, http_publisher_new, http_publisher_publish,
}
use mapper_framework_c.Publish.Mqtt.{
  MqttPublisher, Mosquitto, MqttResult, mqtt_publisher_new, mqtt_publisher_publish,
}
use mapper_framework_c.Publish.Otel.{
  OtelPublisher, Floats, otel_publisher_new, otel_publisher_publish,
}

pub data PublishMethodType : Type 0 where
  publish_method_http publish_method_mqtt publish_method_otel publish_method_unknown :
      PublishMethodType

unfoldable pub publisher_get_type_from_string : Option Str → PublishMethodType
publisher_get_type_from_string none = publish_method_unknown
publisher_get_type_from_string (some s) =
    if str_case_eq s (codes "http")
    then publish_method_http
    else if str_case_eq s (codes "mqtt")
    then publish_method_mqtt
    else if str_case_eq s (codes "otel")
    then publish_method_otel
    else publish_method_unknown

unfoldable pub publisher_get_type_string : PublishMethodType → Str
publisher_get_type_string publish_method_http = codes "http"
publisher_get_type_string publish_method_mqtt = codes "mqtt"
publisher_get_type_string publish_method_otel = codes "otel"
publisher_get_type_string publish_method_unknown = codes "unknown"

-- What `client_handle` points at.
pub data Client : Type 0 where
  http_client : HttpPublisher → Client
  mqtt_client : MqttPublisher → Client
  otel_client : OtelPublisher → Client

pub record Publisher : Type 0 where
  pub type_of : PublishMethodType
  pub config_json : Str
  pub client_handle : Client

-- What the libraries give: a handle of libcurl, a client of libmosquitto, and what their calls do.
pub record Libraries : Type 1 where
  pub reader : CjsonReader
  pub cjson : Cjson
  pub floats : Floats cjson
  pub has_curl : Bool
  pub has_client : Bool
  pub perform : HttpRequest → ℕ → Option ℤ
  pub mosquitto : Mosquitto
  pub perform_otel : Str → Str → Option ℤ

abbrev pub boxed {ℓ} :
    {A : Type ℓ}
    → PublishMethodType
    → Str
    → (A → Client)
    → Outcome (Option A)
    → Outcome (Option Publisher)
boxed t json box fault = fault
boxed t json box (done none) = done none
boxed t json box (done (some a)) =
    done (some (record { type_of = t; config_json = json; client_handle = box a }))

unfoldable pub publisher_new :
    Libraries → PublishMethodType → Option Str → Outcome (Option Publisher)
publisher_new l t none = done none
publisher_new l publish_method_unknown (some json) = done none
publisher_new l publish_method_http (some json) =
    boxed publish_method_http json http_client (http_publisher_new l.reader l.has_curl (some json))
publisher_new l publish_method_mqtt (some json) =
    boxed publish_method_mqtt json mqtt_client
      (mqtt_publisher_new l.reader l.has_client (some json))
publisher_new l publish_method_otel (some json) =
    boxed publish_method_otel json otel_client (otel_publisher_new l.reader l.has_curl (some json))

abbrev pub http_code : HttpResult → Option ℤ
http_code r = elim r.result [ none ↦ none | some x ↦ some x.0 ]

-- The publisher after a call, and the code; `none` is the code of a loop that has not ended. A
-- handle that is not of the type is read as one of it: the behaviour is undefined.
unfoldable pub publish_by_type :
    Libraries
    → (now_ns : ℕ) → Publisher
    → DataModel
    → PublishMethodType
    → Client
    → Outcome (Publisher × Option ℤ)
publish_by_type l now_ns p dm publish_method_http (http_client h) =
    done (p, http_code (http_publisher_publish l.cjson (some h) (some dm) l.perform))
publish_by_type l now_ns p dm publish_method_mqtt (mqtt_client q) =
    let r = mqtt_publisher_publish l.cjson l.mosquitto q (some dm) in
    done (record p { client_handle = mqtt_client r.publisher }, some r.code)
publish_by_type l now_ns p dm publish_method_otel (otel_client o) =
    done
      (p, some (otel_publisher_publish l.cjson l.floats now_ns l.perform_otel (some o) (some dm)).1)
publish_by_type l now_ns p dm publish_method_unknown c = done (p, some failure)
publish_by_type l now_ns p dm t c = fault

unfoldable pub publisher_publish_data :
    Libraries → (now_ns : ℕ) → Publisher → Option DataModel → Outcome (Publisher × Option ℤ)
unfolding publish_by_type
publisher_publish_data l now_ns p none = done (p, some failure)
publisher_publish_data l now_ns p (some dm) =
    publish_by_type l now_ns p dm p.type_of p.client_handle
