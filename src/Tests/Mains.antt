-- ===== src/Tests/Mains.antt =====
-- Witnesses of what holds for `main`.
use mapper_framework_c.Prelude.{arith, ℕ, ◌≡◌, refl, Bool, true, false, ◌==◌, none, some, [], ◌∷◌}
use mapper_framework_c.Prelude.Int.{pos}
use mapper_framework_c.Prelude.CString.{codes, str_eq, str_case_eq}
use mapper_framework_c.Common.Outcome.{done}
use mapper_framework_c.Common.ConfigMapType.{DeviceModel}
use mapper_framework_c.Device.Types.{DeviceManager}
use mapper_framework_c.Database.Env.{Env, setenv, non_empty}
use mapper_framework_c.Publish.Mqtt.{mqtt_publisher_new, mqtt_parse_config}
use mapper_framework_c.Publish.Publisher.{
  Publisher, publish_method_mqtt, mqtt_client, publisher_new, publisher_get_type_from_string,
}
use mapper_framework_c.Main.Setup.{setup_publisher}
use mapper_framework_c.Main.Setup.Chosen.{Chosen, setup_publisher-Chosen}
use mapper_framework_c.Main.Devices.{Allocations, init_devices}
use mapper_framework_c.Main.Devices.Built.{Filled, init_devices-built}
use mapper_framework_c.Device.Manager.Slots.{HasRoom}
use mapper_framework_c.Main.Wait.{wait_uds_ready}
use mapper_framework_c.Main.Wait.Ready.{Ends, wait_uds_ready-Ends}
use mapper_framework_c.Main.Shutdown.{Outcomes}
use mapper_framework_c.Tests.Samples.{sensor_instance}
use mapper_framework_c.Tests.Libraries.{libraries}

abbrev mqtt_env : Env
mqtt_env =
    setenv (setenv (λ n. none) (codes "PUBLISH_METHOD") (codes "MQTT")) (codes "PUBLISH_CONFIG")
      (codes "{}")

abbrev mqtt_publisher : Publisher
mqtt_publisher = record {
  type_of = publish_method_mqtt;
  config_json = codes "{}";
  client_handle = mqtt_client (record {
    config = record {
      broker_url = codes "localhost";
      port = pos 1883;
      client_id = codes "mapper_client";
      username = none;
      password = none;
      topic_prefix = codes "kubeedge/device";
      qos = pos 1;
      keep_alive = pos 60;
    };
    credentials = none;
    connected = false;
  });
}

mqtt_is_set_up : setup_publisher libraries mqtt_env ≡ done (some mqtt_publisher)
unfolding setup_publisher publisher_new publisher_get_type_from_string str_case_eq str_eq
    mqtt_publisher_new mqtt_parse_config
mqtt_is_set_up = refl

setup_publisher-Chosen_example :
    Chosen
      (non_empty (mqtt_env (codes "PUBLISH_METHOD")))
      (non_empty (mqtt_env (codes "PUBLISH_CONFIG")))
      mqtt_publisher
setup_publisher-Chosen_example = setup_publisher-Chosen libraries mqtt_env mqtt_is_set_up

abbrev all_succeed : Allocations
all_succeed = record {
  device_alloc = λ i. true;
  mutex_ok = λ i. true;
  client_alloc = λ i. true;
  realloc_ok = λ i. true;
}

abbrev thermometer : DeviceModel
thermometer = record {
  id = none;
  name = some (codes "thermometer");
  namespace = none;
  description = none;
  properties = [];
}

abbrev empty_manager : DeviceManager
empty_manager = record { devices = []; capacity = 10; slots = 10; stopped = false }

empty-HasRoom : HasRoom empty_manager
empty-HasRoom = record { sized = refl; positive = omega arith; within = omega arith }

init_devices-built_example :
    Filled all_succeed
      (thermometer ∷ [])
      0
      (sensor_instance ∷ [])
      empty_manager
      (init_devices all_succeed (thermometer ∷ []) 0 (sensor_instance ∷ []) empty_manager)
init_devices-built_example =
    init_devices-built all_succeed (thermometer ∷ []) 0 (sensor_instance ∷ []) empty_manager
      empty-HasRoom (λ k. refl)

-- The socket is there at the third poll.
abbrev third_poll : ℕ → Bool
third_poll n = n == 2

wait_uds_ready-Ends_example : Ends third_poll 3000 0 (wait_uds_ready third_poll 3000)
wait_uds_ready-Ends_example = wait_uds_ready-Ends third_poll 3000

-- The registration fails.
abbrev unregistered : Outcomes
unregistered = record {
  config_parsed = true;
  mysql_made = true;
  publisher_made = false;
  manager_made = true;
  grpc_server_made = true;
  grpc_thread_made = true;
  registered = false;
  start_thread_made = true;
  has_http_port = true;
  http_server_made = true;
}
