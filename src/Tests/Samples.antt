-- ===== src/Tests/Samples.antt =====
-- The devices and the world that the witnesses use.
use mapper_framework_c.Prelude.{ℕ, true, false, Option, none, some, List, [], ◌∷◌}
use mapper_framework_c.Prelude.Int.{pos}
use mapper_framework_c.Prelude.CString.{Str, codes}
use mapper_framework_c.Common.Const.{success, device_status_ok, device_status_unknown}
use mapper_framework_c.Common.ConfigMapType.{
  ProtocolConfig, DeviceProperty, Twin, DeviceInstance, DeviceModel, embedded, no_value,
}
use mapper_framework_c.Common.Cjson.{Cjson}
use mapper_framework_c.Device.Types.{Device, DeviceManager}
use mapper_framework_c.Device.World.{World}

abbrev pub threshold : DeviceProperty
threshold = record {
  name = some (codes "threshold");
  property_name = some (codes "threshold");
  model_name = none;
  protocol = none;
  visitors = none;
  report_to_cloud = true;
  collect_cycle = pos 1000;
  report_cycle = pos 1000;
  p_property = none;
}

-- A twin whose desired value is not yet reported.
abbrev pub wanted : Twin
wanted = record {
  property_name = some (codes "threshold");
  property = some (embedded 0);
  observed_desired = record no_value { value = some (codes "7") };
  reported = no_value;
}

abbrev pub settled_twin : Twin
settled_twin = record wanted { reported = record no_value { value = some (codes "7") } }

abbrev pub nameless : Twin
nameless = record wanted { property_name = none }

abbrev pub modbus : ProtocolConfig
modbus = record {
  protocol_name = some (codes "modbus");
  config_data = some (codes "{\"ip\":\"10.0.0.2\",\"port\":502}");
}

abbrev pub sensor_instance : DeviceInstance
sensor_instance = record {
  id = some (codes "1");
  name = some (codes "sensor");
  namespace = some (codes "default");
  protocol_name = some (codes "modbus");
  p_protocol = modbus;
  model = some (codes "thermometer");
  twins = wanted ∷ [];
  properties = threshold ∷ [];
  methods = [];
  status = record { report_to_cloud = false; report_cycle = pos 0 };
}

abbrev pub thermometer : DeviceModel
thermometer = record {
  id = none;
  name = some (codes "thermometer");
  namespace = some (codes "default");
  description = none;
  properties = [];
}

abbrev pub sensor : Device
sensor = record {
  instance_of = sensor_instance;
  model = thermometer;
  client = some (record { protocol_config = modbus });
  status = some device_status_unknown;
  stop_chan = false;
  data_thread = none;
  data_thread_running = false;
}

abbrev pub running_sensor : Device
running_sensor = record sensor {
  status = some device_status_ok;
  data_thread = some 5;
  data_thread_running = true;
}

abbrev pub with_twins : List Twin → Device
with_twins ts = record sensor { instance_of = record sensor_instance { twins = ts } }

abbrev pub named_device : Str → Device
named_device s = record sensor { instance_of = record sensor_instance { name = some s } }

-- A manager that holds the devices, with an array of 10.
abbrev pub managing : List Device → DeviceManager
managing ds = record { devices = ds; capacity = 10; slots = 10; stopped = false }

-- A full manager.
abbrev pub full : DeviceManager
full = record { devices = sensor ∷ []; capacity = 1; slots = 1; stopped = false }

-- A world in which every command ends with that wait status.
abbrev pub world : Option ℕ → World
world status = record {
  getenv = λ s. none;
  system = λ c. status;
  iso_time = codes "2025-01-01T00:00:00Z";
  seconds = 1;
  db = record { connected = true; add_data = λ row. success };
  has_publisher = true;
}

-- cJSON by texts, as far as the tests need it: only the values are kept.
abbrev pub plain_json : Cjson
plain_json = record {
  Node = Str;
  create_object = [];
  add_string_to_object = λ node key value. node;
  add_number_to_object = λ node key value. node;
  add_item_to_object = λ node key item. node;
  create_array = [];
  add_item_to_array = λ array item. array;
  print_unformatted = λ node. some (codes "{}");
}
