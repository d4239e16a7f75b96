-- ===== src/Publish/Otel.antt =====
-- data/publish/otel/otel_publisher.c: the publisher that sends a value as a metric of OpenTelemetry.
-- Floating-point numbers, and the functions of the C library on them, are a parameter.
use mapper_framework_c.Prelude.{
  ℕ, ◌+◌, ◌*◌, ◌%◌, ◌^◌, Bool, Option, none, some, List, [], ◌∷◌, if◌then◌else◌, or_default, length,
}
use mapper_framework_c.Prelude.Int.{ℤ, pos}
use mapper_framework_c.Prelude.CString.{Str, codes, snprintf, decimal}
use mapper_framework_c.Common.Const.{success, failure}
use mapper_framework_c.Common.Cjson.{Cjson, CjsonReader}
use mapper_framework_c.Common.DataModel.{DataModel}
use mapper_framework_c.Common.Outcome.{Outcome, done, ◌>>=◌}
use mapper_framework_c.Publish.Fields.{text_field, int_field, is_delivered}

pub record OtelPublishConfig : Type 0 where
  pub endpoint : Str
  pub service_name : Str
  pub service_version : Str
  pub timeout_ms : ℤ

-- `some` is the code 0, `none` is -1.
unfoldable pub otel_parse_config : CjsonReader → Option Str → Outcome (Option OtelPublishConfig)
otel_parse_config r none = done none
otel_parse_config r (some json) = elim (r.parse json) [
  | none ↦ done none
  | some root ↦ do
    endpoint ←
        text_field (r.get_object_item root (codes "endpoint"))
          (codes "http://localhost:4318/v1/metrics")
    service_name ←
        text_field (r.get_object_item root (codes "serviceName")) (codes "kubeedge-mapper")
    service_version ← text_field (r.get_object_item root (codes "serviceVersion")) (codes "1.0.0")
    done (
        some (record {
          endpoint = endpoint;
          service_name = service_name;
          service_version = service_version;
          timeout_ms = int_field (r.get_object_item root (codes "timeout")) (pos 10000);
        }))
]

pub record OtelPublisher : Type 0 where
  pub config : OtelPublishConfig
  pub headers : List Str

-- `has_curl` says whether `curl_easy_init` gives a handle.
unfoldable pub otel_publisher_new :
    CjsonReader → (has_curl : Bool) → Option Str → Outcome (Option OtelPublisher)
unfolding otel_parse_config
otel_publisher_new r has_curl none = done none
otel_publisher_new r has_curl (some json) = do
  parsed ← otel_parse_config r (some json)
  elim parsed [
    | none ↦ done none
    | some c ↦
        if has_curl
        then done
            (some (record { config = c; headers = codes "Content-Type: application/json" ∷ [] }))
        else done none
  ]

-- The time of `clock_gettime`, in 64 bits.
unfoldable pub get_nanoseconds : (tv_sec tv_nsec : ℕ) → ℕ
get_nanoseconds tv_sec tv_nsec = (tv_sec * 1000000000 + tv_nsec) % 2 ^ 64

-- The numbers of a document. `strtod` gives the number and the text behind it.
pub record Floats (cjson : Cjson) : Type 1 where
  pub Double : Type 0
  pub of_ℕ : ℕ → Double
  pub strtod : Str → Double × Str
  pub add_double_to_object : cjson.Node → Str → Double → cjson.Node

module _ (cjson : Cjson) (floats : Floats cjson) where
  -- A text that is no number counts by its length.
  unfoldable pub numeric_value : Option Str → floats.Double
  numeric_value none = floats.of_ℕ 0
  numeric_value (some v) = elim (floats.strtod v).1 [
    | [] ↦ (floats.strtod v).0
    | c ∷ s ↦ floats.of_ℕ (length v)
  ]

  -- `{"key": …, "value": {"stringValue": …}}`
  abbrev attribute : Str → Str → cjson.Node
  attribute key value =
      cjson.add_item_to_object
        (cjson.add_string_to_object cjson.create_object (codes "key") (some key)) (codes "value")
        (cjson.add_string_to_object cjson.create_object (codes "stringValue") (some value))

  -- An array with one element.
  abbrev singleton : cjson.Node → cjson.Node
  singleton n = cjson.add_item_to_array cjson.create_array n

  abbrev resource_node : OtelPublishConfig → cjson.Node
  resource_node c =
      cjson.add_item_to_object cjson.create_object (codes "attributes")
        (singleton (attribute (codes "service.name") c.service_name))

  unfoldable pub data_point : (now_ns : ℕ) → DataModel → cjson.Node
  unfolding numeric_value
  data_point now_ns dm =
      let labels =
        singleton (attribute (codes "device_name") (or_default dm.device_name (codes "unknown"))) in
      let labelled = cjson.add_item_to_object cjson.create_object (codes "attributes") labels in
      let timed =
        cjson.add_string_to_object labelled (codes "timeUnixNano")
          (some (snprintf 32 (decimal now_ns))) in
      floats.add_double_to_object timed (codes "asDouble") (numeric_value dm.value)

  abbrev metric_node : (now_ns : ℕ) → DataModel → cjson.Node
  metric_node now_ns dm =
      let named =
        cjson.add_string_to_object
          (cjson.add_string_to_object cjson.create_object (codes "name")
            (some (or_default dm.property_name (codes "device_value"))))
          (codes "description") (some (codes "Device property value")) in
      let gauge =
        cjson.add_item_to_object cjson.create_object (codes "dataPoints")
          (singleton (data_point now_ns dm)) in
      cjson.add_item_to_object named (codes "gauge") gauge

  abbrev scope_node : cjson.Node
  scope_node =
      cjson.add_string_to_object cjson.create_object (codes "name")
        (some (codes "github.com/kubeedge/mapper-framework-c/data/publish/otel"))

  unfoldable pub metrics_document : OtelPublishConfig → (now_ns : ℕ) → DataModel → cjson.Node
  unfolding data_point
  metrics_document c now_ns dm =
      let scoped =
        cjson.add_item_to_object
          (cjson.add_item_to_object cjson.create_object (codes "scope") scope_node)
          (codes "metrics") (singleton (metric_node now_ns dm)) in
      let resource_metric =
        cjson.add_item_to_object
          (cjson.add_item_to_object cjson.create_object (codes "resource") (resource_node c))
          (codes "scopeMetrics") (singleton scoped) in
      cjson.add_item_to_object cjson.create_object (codes "resourceMetrics")
        (singleton resource_metric)

  -- The address and the text of the request, where one is made, and the code. `perform` is what the
  -- transfer gives.
  unfoldable pub otel_publisher_publish :
      (now_ns : ℕ)
      → (perform : Str → Str → Option ℤ) → Option OtelPublisher
      → Option DataModel
      → Option (Str × Str) × ℤ
  unfolding metrics_document
  otel_publisher_publish now_ns perform (some p) (some dm) =
      elim (cjson.print_unformatted (metrics_document p.config now_ns dm)) [
        | none ↦ (none, failure)
        | some json ↦ (
          some (p.config.endpoint, json),
          if is_delivered (perform p.config.endpoint json) then success else failure,
        )
      ]
  otel_publisher_publish now_ns perform p dm = (none, failure)
