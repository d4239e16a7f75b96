-- ===== src/Tests/Publishing.antt =====
-- Witnesses of what holds for the publishers and the conversions.
use mapper_framework_c.Prelude.{ℕ, ◌≡◌, refl, false, none, some, [], arith}
use mapper_framework_c.Prelude.Int.{ℤ, pos, negsuc}
use mapper_framework_c.Prelude.CString.{Str, codes}
use mapper_framework_c.Common.Const.{success}
use mapper_framework_c.Common.Dataconverter.{Unpack, convert_to_int64, int64_to_string}
use mapper_framework_c.Common.Dataconverter.RoundTrip.{of_negsuc, convert_to_int64-int64_to_string}
use mapper_framework_c.Publish.Fields.{data_document}
use mapper_framework_c.Publish.Http.{HttpPublisher, http_publisher_publish, http_request}
use mapper_framework_c.Publish.Http.Attempts.{Attempted, http_publisher_publish-Attempted}
use mapper_framework_c.Publish.Mqtt.{MqttPublisher, mqtt_ensure_connected, mqtt_publisher_publish}
use mapper_framework_c.Publish.Mqtt.Connection.{Published, mqtt_publisher_publish-Published}
use mapper_framework_c.Publish.Publisher.{
  Publisher, publish_method_mqtt, mqtt_client, publisher_publish_data,
}
use mapper_framework_c.Publish.Publisher.Choice.{IsTyped, Returned, publisher_publish_data-Returned}
use mapper_framework_c.Tests.Libraries.{plain_cjson, broker, answers_second, libraries, reading}

abbrev http_sample : HttpPublisher
http_sample = record {
  config = record {
    endpoint = codes "http://h";
    method = codes "PUT";
    auth_token = none;
    content_type = codes "application/json";
    timeout_ms = pos 10000;
    retry_count = pos 3;
  };
  headers = [];
}

abbrev document : Str
document = data_document plain_cjson reading

http_publisher_publish-Attempted_example :
    (code : ℤ) × (made : ℕ) × (http_publisher_publish plain_cjson
        (some http_sample)
        (some reading)
        answers_second
      ≡ record { request = some (http_request http_sample document); result = some (code, made) })
    × Attempted (answers_second (http_request http_sample document)) (pos 3) 0 code made
http_publisher_publish-Attempted_example =
    http_publisher_publish-Attempted plain_cjson http_sample reading answers_second document refl

abbrev mqtt_sample : MqttPublisher
mqtt_sample = record {
  config = record {
    broker_url = codes "localhost";
    port = pos 1883;
    client_id = codes "mapper_client";
    username = none;
    password = none;
    topic_prefix = codes "kubeedge/device";
    qos = pos 1;
    keep_alive = pos 60;
  };
  credentials = none;
  connected = false;
}

mqtt_publisher_publish-Published_example :
    Published plain_cjson broker mqtt_sample.config reading
      (mqtt_ensure_connected broker mqtt_sample).0
      (mqtt_publisher_publish plain_cjson broker mqtt_sample (some reading))
mqtt_publisher_publish-Published_example =
    mqtt_publisher_publish-Published plain_cjson broker mqtt_sample reading

abbrev publisher_sample : Publisher
publisher_sample = record {
  type_of = publish_method_mqtt;
  config_json = codes "{}";
  client_handle = mqtt_client mqtt_sample;
}

abbrev sample-IsTyped : IsTyped publisher_sample
sample-IsTyped = record { typed = refl }

publisher_publish_data-Returned_example :
    Returned publisher_sample (publisher_publish_data libraries 7 publisher_sample (some reading))
publisher_publish_data-Returned_example =
    publisher_publish_data-Returned libraries 7 publisher_sample (some reading) sample-IsTyped

convert_to_int64-int64_to_string_example :
    ((int64_to_string (negsuc 41) 32).0 ≡ success)
    × (convert_to_int64 (some (int64_to_string (negsuc 41) 32).1) ≡ (success, some (negsuc 41)))
convert_to_int64-int64_to_string_example =
    convert_to_int64-int64_to_string (negsuc 41) 32 (of_negsuc (omega arith)) (omega arith)

abbrev bytes : Unpack
bytes = record { Value = Str; unpack = λ t s. some s }
