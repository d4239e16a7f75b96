-- ===== src/Publish/Mqtt.antt =====
-- data/publish/mqtt/mqtt_publisher.c: the publisher that sends a value by MQTT. libmosquitto is not
-- part of the repository; what its calls give is a parameter.
pub mod Connection
use mapper_framework_c.Prelude.{
  ℕ, zero, suc, ◌++◌, Bool, true, false, Option, none, some, List, [], ◌∷◌, ◌==◌, if◌then◌else◌,
  or_default,
}
use mapper_framework_c.Prelude.Int.{ℤ, pos}
use mapper_framework_c.Prelude.CString.{Str, codes, snprintf}
use mapper_framework_c.Common.Const.{success, failure, is_zero}
use mapper_framework_c.Common.Cjson.{Cjson, CjsonReader}
use mapper_framework_c.Common.DataModel.{DataModel}
use mapper_framework_c.Common.Outcome.{Outcome, fault, done, ◌>>=◌}
use mapper_framework_c.Publish.Fields.{text_field, optional_field, int_field, data_document}

pub record MqttPublishConfig : Type 0 where
  pub broker_url : Str
  pub port : ℤ
  pub client_id : Str
  pub username : Option Str
  pub password : Option Str
  pub topic_prefix : Str
  pub qos : ℤ
  pub keep_alive : ℤ

-- `some` is the code 0, `none` is -1.
unfoldable pub mqtt_parse_config : CjsonReader → Option Str → Outcome (Option MqttPublishConfig)
mqtt_parse_config r none = done none
mqtt_parse_config r (some json) = elim (r.parse json) [
  | none ↦ done none
  | some root ↦ do
    let item = r.get_object_item root
    broker_url ← text_field (item (codes "brokerUrl")) (codes "localhost")
    client_id ← text_field (item (codes "clientId")) (codes "mapper_client")
    username ← optional_field (item (codes "username"))
    password ← optional_field (item (codes "password"))
    topic_prefix ← text_field (item (codes "topicPrefix")) (codes "kubeedge/device")
    done (
        some (record {
          broker_url = broker_url;
          port = int_field (item (codes "port")) (pos 1883);
          client_id = client_id;
          username = username;
          password = password;
          topic_prefix = topic_prefix;
          qos = int_field (item (codes "qos")) (pos 1);
          keep_alive = int_field (item (codes "keepAlive")) (pos 60);
        }))
]

-- `credentials` is what `mosquitto_username_pw_set` was given.
pub record MqttPublisher : Type 0 where
  pub config : MqttPublishConfig
  pub credentials : Option (Str × Str)
  pub connected : Bool

abbrev both {ℓ} : {A B : Type ℓ} → Option A → Option B → Option (A × B)
both (some a) (some b) = some (a, b)
both a b = none

-- `has_client` says whether `mosquitto_new` gives a client.
unfoldable pub mqtt_publisher_new :
    CjsonReader → (has_client : Bool) → Option Str → Outcome (Option MqttPublisher)
unfolding mqtt_parse_config
mqtt_publisher_new r has_client none = done none
mqtt_publisher_new r has_client (some json) = do
  parsed ← mqtt_parse_config r (some json)
  elim parsed [
    | none ↦ done none
    | some c ↦
        if has_client
        then done (
            some
              (record { config = c; credentials = both c.username c.password; connected = false }))
        else done none
  ]

-- What happens on the connection while `mosquitto_loop` runs, with the codes that the callbacks get.
pub data Event : Type 0 where
  connack : ℤ → Event
  disconnect : ℤ → Event

abbrev pub mqtt_connect_callback : MqttPublisher → ℤ → MqttPublisher
mqtt_connect_callback p result = record p { connected = is_zero result }

abbrev pub mqtt_disconnect_callback : MqttPublisher → ℤ → MqttPublisher
mqtt_disconnect_callback p rc = record p { connected = false }

abbrev handle_event : MqttPublisher → Event → MqttPublisher
handle_event p (connack result) = mqtt_connect_callback p result
handle_event p (disconnect rc) = mqtt_disconnect_callback p rc

unfoldable pub mosquitto_loop : MqttPublisher → List Event → MqttPublisher
mosquitto_loop p [] = p
mosquitto_loop p (e ∷ es) = mosquitto_loop (handle_event p e) es

-- The message handed to `mosquitto_publish`.
pub record Message : Type 0 where
  pub topic : Str
  pub payload : Str
  pub message_qos : ℤ

-- What the library gives: the code of `mosquitto_connect`, the events of the calls of
-- `mosquitto_loop` by their number, those of the last call, and the code of `mosquitto_publish`.
pub record Mosquitto : Type 0 where
  pub connect : MqttPublishConfig → ℤ
  pub wait_events : ℕ → List Event
  pub last_events : List Event
  pub publish : Message → ℤ

-- The loop that waits; `left` is `50 - wait_count`. It gives the number of calls too.
unfoldable pub wait_connected :
    Mosquitto → MqttPublisher → (left wait_count : ℕ) → MqttPublisher × ℕ
unfolding mosquitto_loop
wait_connected m p zero wait_count = (p, wait_count)
wait_connected m p (suc left) wait_count =
    let rest =
      wait_connected m (mosquitto_loop p (m.wait_events wait_count)) left (suc wait_count) in
    if p.connected then (p, wait_count) else rest

abbrev pub code_of : MqttPublisher → MqttPublisher × ℤ
code_of p = (p, if p.connected then success else failure)

unfoldable pub mqtt_ensure_connected : Mosquitto → MqttPublisher → MqttPublisher × ℤ
unfolding wait_connected
mqtt_ensure_connected m p =
    if p.connected
    then (p, success)
    else if is_zero (m.connect p.config)
    then code_of (wait_connected m p 50 0).0
    else (p, failure)

unfoldable pub mqtt_topic : MqttPublishConfig → DataModel → Str
mqtt_topic c dm = snprintf 256 (
    c.topic_prefix
    ++ b'/' ∷ or_default dm.device_name (codes "unknown")
    ++ b'/' ∷ or_default dm.property_name (codes "data"))

abbrev pub mqtt_message : MqttPublishConfig → DataModel → Str → Message
mqtt_message c dm json = record { topic = mqtt_topic c dm; payload = json; message_qos = c.qos }

-- The publisher after a call, the code returned, and the message handed over, if one was.
pub record MqttResult : Type 0 where
  pub publisher : MqttPublisher
  pub code : ℤ
  pub message : Option Message

unfoldable pub mqtt_send : Mosquitto → MqttPublisher → Message → MqttResult
mqtt_send m p message =
    if is_zero (m.publish message)
    then record {
      publisher = mosquitto_loop p m.last_events;
      code = success;
      message = some message;
    }
    else record { publisher = p; code = failure; message = some message }

-- Behind the test of the connection.
unfoldable pub mqtt_publish_connected :
    (cjson : Cjson) → Mosquitto → DataModel → MqttPublisher → MqttResult
unfolding mqtt_send mqtt_topic
mqtt_publish_connected cjson m dm p = elim (cjson.print_unformatted (data_document cjson dm)) [
  | none ↦ record { publisher = p; code = failure; message = none }
  | some json ↦ mqtt_send m p (mqtt_message p.config dm json)
]

unfoldable pub mqtt_publisher_publish :
    (cjson : Cjson) → Mosquitto → MqttPublisher → Option DataModel → MqttResult
unfolding mqtt_ensure_connected mqtt_publish_connected
mqtt_publisher_publish cjson m p none = record { publisher = p; code = failure; message = none }
mqtt_publisher_publish cjson m p (some dm) =
    let (q, code) = mqtt_ensure_connected m p in
    if is_zero code
    then mqtt_publish_connected cjson m dm q
    else record { publisher = q; code = failure; message = none }
