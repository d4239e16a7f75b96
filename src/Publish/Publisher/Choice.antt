-- ===== src/Publish/Publisher/Choice.antt =====
-- The names of the methods, and that a publisher is used as what it was made as.
use mapper_framework_c.Prelude.{
  ℕ, ◌≡◌, ◌≢◌, refl, subst, sym, ap, ◌∙◌, ◌↔◌, ◌⊎◌, inl, inr, Bool, true, false, Option, none, some,
  arith, Option-cases, if◌then◌else◌, map,
}
use mapper_framework_c.Prelude.Int.{ℤ}
use mapper_framework_c.Prelude.CString.{Str, codes, str_eq_iff, str_case_eq, to_lower}
use mapper_framework_c.Common.Const.{success, failure, is_zero}
use mapper_framework_c.Common.DataModel.{DataModel}
use mapper_framework_c.Common.Outcome.{Outcome, fault, done}
use mapper_framework_c.Publish.Fields.{data_document, is_delivered}
use mapper_framework_c.Publish.Http.{HttpPublisher, http_publisher_publish}
use mapper_framework_c.Publish.Http.Attempts.{http_publisher_publish-Attempted}
use mapper_framework_c.Publish.Mqtt.{MqttPublisher, mqtt_publisher_publish}
use mapper_framework_c.Publish.Mqtt.Connection.{mqtt_publisher_publish-Published}
use mapper_framework_c.Publish.Otel.{OtelPublisher, metrics_document, otel_publisher_publish}
use mapper_framework_c.Publish.Publisher.{
  PublishMethodType, publish_method_http, publish_method_mqtt, publish_method_otel,
  publish_method_unknown, publisher_get_type_from_string, publisher_get_type_string, Client,
  http_client, mqtt_client, otel_client, Publisher, Libraries, boxed, publisher_new, http_code,
  publish_by_type, publisher_publish_data,
}

-- A text names at most one method.
str_case_eq-two :
    (s a b : Str)
    → str_case_eq s a ≡ true
    → str_case_eq s b ≡ true
    → map to_lower a ≡ map to_lower b
unfolding str_case_eq
str_case_eq-two s a b p q =
    sym ((str_eq_iff (map to_lower s) (map to_lower a)).0 p)
    ∙ (str_eq_iff (map to_lower s) (map to_lower b)).0 q

-- A text is read as one of the three methods exactly if it is the name of that method in any case.
pub publisher_get_type_from_string_iff :
    (s : Str) (t : PublishMethodType)
    → t ≢ publish_method_unknown
    → (publisher_get_type_from_string (some s) ≡ t)
      ↔ (str_case_eq s (publisher_get_type_string t) ≡ true)
unfolding publisher_get_type_from_string publisher_get_type_string
publisher_get_type_from_string_iff s publish_method_http h = ground arith
publisher_get_type_from_string_iff s publish_method_mqtt h =
    ground (arith, str_case_eq-two s (codes "http") (codes "mqtt"))
publisher_get_type_from_string_iff s publish_method_otel h = ground (
  arith,
  str_case_eq-two s (codes "http") (codes "otel"),
  str_case_eq-two s (codes "mqtt") (codes "otel"),
)
publisher_get_type_from_string_iff s publish_method_unknown h = absurd (h refl)

-- The handle is of the type that the publisher says.
abbrev pub client_type : Client → PublishMethodType
client_type (http_client h) = publish_method_http
client_type (mqtt_client m) = publish_method_mqtt
client_type (otel_client o) = publish_method_otel

pub record IsTyped (p : Publisher) : Type 0 where
  pub typed : client_type p.client_handle ≡ p.type_of

abbrev made_by : PublishMethodType → Str → Client → Publisher
made_by t json c = record { type_of = t; config_json = json; client_handle = c }

boxed-IsTyped :
    {A : Type 0} {p : Publisher} (t : PublishMethodType) (json : Str) (box : A → Client)
    (o : Outcome (Option A))
    → ((a : A) → client_type (box a) ≡ t)
    → boxed t json box o ≡ done (some p)
    → IsTyped p × (p.type_of ≡ t) × (p.config_json ≡ json)
boxed-IsTyped t json box fault c e = absurd cc
boxed-IsTyped t json box (done none) c e = absurd cc
boxed-IsTyped {p = p} t json box (done (some a)) c e =
    let made : made_by t json (box a) ≡ p = cc in
    subst (λ q. IsTyped q × (q.type_of ≡ t) × (q.config_json ≡ json)) made
      (record { typed = c a }, refl, refl)

-- A publisher that is made has the method and the configuration that it was made for, and a handle of
-- that method.
pub publisher_new-IsTyped :
    {p : Publisher} (l : Libraries) (t : PublishMethodType) (json : Str)
    → publisher_new l t (some json) ≡ done (some p)
    → IsTyped p × (p.type_of ≡ t) × (p.config_json ≡ json)
unfolding publisher_new
publisher_new-IsTyped l publish_method_http json e =
    boxed-IsTyped _ json http_client _ (λ a. refl) e
publisher_new-IsTyped l publish_method_mqtt json e =
    boxed-IsTyped _ json mqtt_client _ (λ a. refl) e
publisher_new-IsTyped l publish_method_otel json e =
    boxed-IsTyped _ json otel_client _ (λ a. refl) e
publisher_new-IsTyped l publish_method_unknown json e = absurd cc

-- The codes that a call can return.
abbrev pub IsCode : ℤ → Type 0
IsCode c = (c ≡ success) ⊎ (c ≡ failure)

if-IsCode : (b : Bool) {c : ℤ} → c ≡ (if b then success else failure) → IsCode c
if-IsCode true e = inl e
if-IsCode false e = inr e

http-returns :
    (l : Libraries) (h : HttpPublisher) (dm : DataModel)
    → (code : ℤ) × (http_code (http_publisher_publish l.cjson (some h) (some dm) l.perform)
        ≡ some code)
      × IsCode code
unfolding http_publisher_publish
http-returns l h dm = elim (Option-cases (l.cjson.print_unformatted (data_document l.cjson dm))) [
  | inl e ↦ (failure, rw (http_publisher_publish, e) refl, inr refl)
  | inr (json, e) ↦
      let (code, made, r, a) = http_publisher_publish-Attempted l.cjson h dm l.perform json e in
      (code, ap http_code r, elim a.outcome [ inl z ↦ inl z.0 | inr z ↦ inr z.0 ])
]

mqtt-IsCode :
    (l : Libraries) (q : MqttPublisher) (dm : DataModel)
    → IsCode (mqtt_publisher_publish l.cjson l.mosquitto q (some dm)).code
mqtt-IsCode l q dm = elim (mqtt_publisher_publish-Published l.cjson l.mosquitto q dm) [
  | inl z ↦ inr z.1
  | inr (message, e, h) ↦ if-IsCode (is_zero (l.mosquitto.publish message)) h.answer
]

otel-IsCode :
    (l : Libraries) (now_ns : ℕ) (o : OtelPublisher) (dm : DataModel)
    → IsCode (otel_publisher_publish l.cjson l.floats now_ns l.perform_otel (some o) (some dm)).1
unfolding otel_publisher_publish
otel-IsCode l now_ns o dm =
    elim (Option-cases
      (l.cjson.print_unformatted (metrics_document l.cjson l.floats o.config now_ns dm))) [
        | inl e ↦ rw (otel_publisher_publish, e) (inr refl)
        | inr (json, e) ↦
            rw (otel_publisher_publish, e)
              (if-IsCode (is_delivered (l.perform_otel o.config.endpoint json)) refl)
      ]

-- What a call on a publisher returns: a publisher of the same kind, and a code.
pub record Returned (p : Publisher) (o : Outcome (Publisher × Option ℤ)) : Type 0 where
  pub next : Publisher
  pub code : ℤ
  pub result : o ≡ done (next, some code)
  pub is_typed : IsTyped next
  pub same_type : next.type_of ≡ p.type_of
  pub is_code : IsCode code

publish_by_type-Returned :
    (l : Libraries) (now_ns : ℕ) (p : Publisher) (dm : DataModel) (c : Client)
    → p.client_handle ≡ c
    → client_type c ≡ p.type_of
    → Returned p (publish_by_type l now_ns p dm (client_type c) c)
unfolding publish_by_type
publish_by_type-Returned l now_ns p dm (http_client h) u e =
    let (code, r, k) = http-returns l h dm in
    record {
      next = p;
      code = code;
      result = ap (λ x. done (p, x)) r;
      is_typed = record { typed = ap client_type u ∙ e };
      same_type = refl;
      is_code = k;
    }
publish_by_type-Returned l now_ns p dm (mqtt_client q) u e = record {
  next = record p {
    client_handle = mqtt_client (mqtt_publisher_publish l.cjson l.mosquitto q (some dm)).publisher;
  };
  code = (mqtt_publisher_publish l.cjson l.mosquitto q (some dm)).code;
  result = refl;
  is_typed = record { typed = e };
  same_type = refl;
  is_code = mqtt-IsCode l q dm;
}
publish_by_type-Returned l now_ns p dm (otel_client o) u e = record {
  next = p;
  code = (otel_publisher_publish l.cjson l.floats now_ns l.perform_otel (some o) (some dm)).1;
  result = refl;
  is_typed = record { typed = ap client_type u ∙ e };
  same_type = refl;
  is_code = otel-IsCode l now_ns o dm;
}

-- A call on a publisher whose handle is of its type never takes the handle for another one: it
-- returns, with 0 or -1, and leaves a publisher of the same type with such a handle.
pub publisher_publish_data-Returned :
    (l : Libraries) (now_ns : ℕ) (p : Publisher) (value : Option DataModel)
    → IsTyped p
    → Returned p (publisher_publish_data l now_ns p value)
unfolding publisher_publish_data
publisher_publish_data-Returned l now_ns p none i = record {
  next = p;
  code = failure;
  result = refl;
  is_typed = i;
  same_type = refl;
  is_code = inr refl;
}
publisher_publish_data-Returned l now_ns p (some dm) i =
    subst (λ t. Returned p (publish_by_type l now_ns p dm t p.client_handle)) i.typed
      (publish_by_type-Returned l now_ns p dm p.client_handle refl i.typed)
