-- ===== src/Publish/Mqtt/Connection.antt =====
-- The connection of the MQTT publisher, and what is sent over it.
use mapper_framework_c.Prelude.{
  ℕ, zero, suc, ◌+◌, ◌≤◌, ◌<◌, ◌≡◌, refl, subst, ◌∙◌, Bool, true, false, ◌⊎◌, inl, inr, List, [],
  ◌∷◌, none, some, arith, Bool-cases, Option-cases, if_holds, if◌then◌else◌, length,
}
use mapper_framework_c.Prelude.Int.{ℤ}
use mapper_framework_c.Prelude.CString.{Str, length-snprintf-lt}
use mapper_framework_c.Common.Const.{success, failure, is_zero}
use mapper_framework_c.Common.Cjson.{Cjson}
use mapper_framework_c.Common.DataModel.{DataModel}
use mapper_framework_c.Publish.Fields.{data_document}
use mapper_framework_c.Publish.Mqtt.{
  MqttPublishConfig, MqttPublisher, Event, connack, disconnect, Message, Mosquitto, MqttResult,
  mosquitto_loop, wait_connected, mqtt_ensure_connected, mqtt_topic, mqtt_message, mqtt_send,
  mqtt_publish_connected, mqtt_publisher_publish,
}

mosquitto_loop-config :
    (es : List Event) (p : MqttPublisher) → (mosquitto_loop p es).config ≡ p.config
unfolding mosquitto_loop
mosquitto_loop-config [] p = refl
mosquitto_loop-config (connack c ∷ es) p = mosquitto_loop-config es _
mosquitto_loop-config (disconnect c ∷ es) p = mosquitto_loop-config es _

-- The wait: as many calls as it takes, and all if it takes more.
record Waited (p : MqttPublisher) (bound : ℕ) (r : MqttPublisher × ℕ) : Type 0 where
  same_config : r.0.config ≡ p.config
  bounded : r.1 ≤ bound
  given_up : r.0.connected ≡ false → r.1 ≡ bound

wait_connected-Waited :
    (m : Mosquitto) (p : MqttPublisher) (left wait_count : ℕ)
    → Waited p (wait_count + left) (wait_connected m p left wait_count)
unfolding wait_connected
wait_connected-Waited m p zero wait_count = record {
  same_config = refl;
  bounded = omega arith;
  given_up = λ h. omega arith;
}
wait_connected-Waited m p (suc left) wait_count =
    let es = m.wait_events wait_count in
    let w = wait_connected-Waited m (mosquitto_loop p es) left (suc wait_count) in
    if_holds (Waited p (wait_count + suc left)) p.connected
      (λ y. record { same_config = refl; bounded = omega arith; given_up = λ h. cc })
      (λ n. record {
        same_config = w.same_config ∙ mosquitto_loop-config es p;
        bounded = omega (arith, w.bounded);
        given_up = λ h. omega (arith, w.given_up h);
      })

-- The wait for the connection ends after at most 50 calls of the library, and short of 50 only when
-- the connection is there.
pub wait_connected-bound :
    (m : Mosquitto) (p : MqttPublisher)
    → ((wait_connected m p 50 0).1 ≤ 50)
      × ((wait_connected m p 50 0).1 < 50 → (wait_connected m p 50 0).0.connected ≡ true)
wait_connected-bound m p =
    let w = wait_connected-Waited m p 50 0 in
    (
      w.bounded,
      λ l. elim (Bool-cases (wait_connected m p 50 0).0.connected) [
        | inl y ↦ y
        | inr n ↦ absurd (omega (arith, w.given_up n))
      ],
    )

-- The result of the test of the connection: the code says whether there is one.
pub record Ensured (p : MqttPublisher) (r : MqttPublisher × ℤ) : Type 0 where
  pub same_config : r.0.config ≡ p.config
  pub reported : r.1 ≡ (if r.0.connected then success else failure)

pub mqtt_ensure_connected-Ensured :
    (m : Mosquitto) (p : MqttPublisher) → Ensured p (mqtt_ensure_connected m p)
unfolding mqtt_ensure_connected
mqtt_ensure_connected-Ensured m p =
    if_holds (Ensured p) p.connected (λ y. record { same_config = refl; reported = cc })
      (λ n.
        if_holds (Ensured p) (is_zero (m.connect p.config))
          (λ z. record {
            same_config = (wait_connected-Waited m p 50 0).same_config;
            reported = refl;
          })
          (λ z. record { same_config = refl; reported = cc }))

-- A message that was handed to the library, by a publisher with the state `q`.
pub record Handed (cjson : Cjson) (m : Mosquitto) (c : MqttPublishConfig) (dm : DataModel)
    (q : MqttPublisher) (message : Message) (code : ℤ) : Type 0 where
  pub is_connected : q.connected ≡ true
  pub has_topic : message.topic ≡ mqtt_topic c dm
  pub fits : length message.topic < 256
  pub has_document : cjson.print_unformatted (data_document cjson dm) ≡ some message.payload
  pub has_qos : message.message_qos ≡ c.qos
  pub answer : code ≡ (if is_zero (m.publish message) then success else failure)

-- What a call gives: -1 without a message, or the answer for the one message.
abbrev pub Published :
    Cjson → Mosquitto → MqttPublishConfig → DataModel → MqttPublisher → MqttResult → Type 0
Published cjson m c dm q r =
    ((r.message ≡ none) × (r.code ≡ failure))
    ⊎ ((message : Message) × (r.message ≡ some message) × Handed cjson m c dm q message r.code)

mqtt_send-Published :
    (cjson : Cjson) (m : Mosquitto) (dm : DataModel) (q : MqttPublisher) (json : Str)
    → cjson.print_unformatted (data_document cjson dm) ≡ some json
    → q.connected ≡ true
    → Published cjson m q.config dm q (mqtt_send m q (mqtt_message q.config dm json))
unfolding mqtt_send mqtt_topic
mqtt_send-Published cjson m dm q json e y =
    let message = mqtt_message q.config dm json in
    let f = length-snprintf-lt 256 _ (omega arith) in
    if_holds (Published cjson m q.config dm q) (is_zero (m.publish message))
      (λ z. inr (
        message,
        refl,
        record {
          is_connected = y;
          has_topic = refl;
          fits = f;
          has_document = e;
          has_qos = refl;
          answer = cc;
        },
      ))
      (λ z. inr (
        message,
        refl,
        record {
          is_connected = y;
          has_topic = refl;
          fits = f;
          has_document = e;
          has_qos = refl;
          answer = cc;
        },
      ))

mqtt_publish_connected-Published :
    (cjson : Cjson) (m : Mosquitto) (dm : DataModel) (q : MqttPublisher)
    → q.connected ≡ true
    → Published cjson m q.config dm q (mqtt_publish_connected cjson m dm q)
unfolding mqtt_publish_connected
mqtt_publish_connected-Published cjson m dm q y =
    elim (Option-cases (cjson.print_unformatted (data_document cjson dm))) [
      | inl e ↦ rw (mqtt_publish_connected, e) (inl (refl, refl))
      | inr (json, e) ↦ rw (mqtt_publish_connected, e) (mqtt_send-Published cjson m dm q json e y)
    ]

connected-zero :
    (b : Bool) {code : ℤ} → code ≡ (if b then success else failure) → is_zero code ≡ true → b ≡ true
connected-zero true e z = refl
connected-zero false e z = absurd cc

-- A call on a value returns -1 and hands nothing to the library, or it hands over one message while
-- the publisher is connected, and returns 0 exactly if the library takes it. The message has the
-- document of the value, the configured quality of service, and the topic that the configuration
-- and the value say, cut to 255 bytes.
pub mqtt_publisher_publish-Published :
    (cjson : Cjson) (m : Mosquitto) (p : MqttPublisher) (dm : DataModel)
    → Published cjson m p.config dm
        (mqtt_ensure_connected m p).0
        (mqtt_publisher_publish cjson m p (some dm))
unfolding mqtt_publisher_publish
mqtt_publisher_publish-Published cjson m p dm =
    let i = mqtt_ensure_connected-Ensured m p in
    let q = (mqtt_ensure_connected m p).0 in
    if_holds (Published cjson m p.config dm q) (is_zero (mqtt_ensure_connected m p).1)
      (λ z.
        subst (λ c. Published cjson m c dm q (mqtt_publish_connected cjson m dm q)) i.same_config
          (mqtt_publish_connected-Published cjson m dm q (connected-zero q.connected i.reported z)))
      (λ z. inl (refl, refl))
