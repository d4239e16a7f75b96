-- ===== src/Tests/Files.antt =====
-- Witnesses of what holds for the configuration file and for the messages.
use mapper_framework_c.Prelude.{none, if◌then◌else◌, ◌≡◌, refl, true, some, [], ◌∷◌, arith}
use mapper_framework_c.Prelude.Int.{pos}
use mapper_framework_c.Prelude.CString.{codes, str_eq, atoi}
use mapper_framework_c.Common.ConfigMapType.{DeviceInstance}
use mapper_framework_c.Parse.ResourceId.{get_resource_id}
use mapper_framework_c.Device.Panel.{dev_panel_has_device}
use mapper_framework_c.Parse.FromGrpc.{SpecMessage, DeviceMessage}
use mapper_framework_c.Parse.FromGrpc.Instance.{get_device_from_grpc}
use mapper_framework_c.Parse.FromGrpc.Linking.{get_device_from_grpc-Linked}
use mapper_framework_c.GrpcServer.{answered, refused, no_model, device_register}
use mapper_framework_c.GrpcServer.Registered.{device_register_lem}
use mapper_framework_c.Device.Rebuild.Links.{Linked}
use mapper_framework_c.Parse.TwinConv.{
  conv_twins_to_grpc, conv_grpc_to_twins, twin_to_grpc, find_source, update_twin,
}
use mapper_framework_c.Common.ConfigMapType.{Twin, no_value}
use mapper_framework_c.Parse.TwinConv.RoundTrip.{conv_grpc_to_twins-conv_twins_to_grpc}
use mapper_framework_c.Config.{Config, empty_config, config_parse}
use mapper_framework_c.Config.Sections.{ConfigFits, config_parse-ConfigFits}
use mapper_framework_c.Config.Document.{document, config_parse-document}
use mapper_framework_c.Tests.Samples.{
  wanted, settled_twin, sensor, sensor_instance, thermometer, managing, plain_json,
}

-- A twin without its values.
abbrev valueless : Twin → Twin
valueless t = record t { observed_desired = no_value; reported = no_value }

conv_grpc_to_twins-conv_twins_to_grpc_example :
    conv_grpc_to_twins (conv_twins_to_grpc (wanted ∷ [])) (valueless wanted ∷ [])
    ≡ some (wanted ∷ [])
conv_grpc_to_twins-conv_twins_to_grpc_example =
    conv_grpc_to_twins-conv_twins_to_grpc valueless (wanted ∷ []) (λ t. (refl, refl)) refl

one_message :
    conv_grpc_to_twins (twin_to_grpc wanted ∷ []) (settled_twin ∷ [])
    ≡ some (update_twin settled_twin (twin_to_grpc wanted) ∷ [])
unfolding conv_grpc_to_twins find_source str_eq twin_to_grpc
one_message = refl

abbrev sample_config : Config
sample_config = record empty_config {
  grpc_server = record { socket_path = codes "/tmp/mapper.sock" };
  mysql = record (empty_config.mysql) { enabled = true; addr = codes "db"; port = pos 3306 };
}

sample-ConfigFits : ConfigFits sample_config
sample-ConfigFits = record {
  server = record { texts = omega arith };
  common = record {
    texts =
        (omega arith, omega arith, omega arith, omega arith, omega arith, omega arith, omega arith);
  };
  mysql = record { texts = (omega arith, omega arith, omega arith, omega arith, omega arith) };
}

sample_port : atoi (codes "3306") ≡ pos 3306
unfolding atoi
sample_port = refl

config_parse-document_example :
    config_parse (document (codes "3306") sample_config) ≡ some sample_config
config_parse-document_example =
    config_parse-document (codes "3306") sample_config sample-ConfigFits sample_port

config_parse-ConfigFits_example : ConfigFits sample_config
config_parse-ConfigFits_example =
    config_parse-ConfigFits (document (codes "3306") sample_config) sample_config
      (config_parse-document (codes "3306") sample_config sample-ConfigFits sample_port)

abbrev sensor_spec : SpecMessage
sensor_spec = record {
  device_model_reference = some (codes "thermometer");
  protocol = some (record { protocol_name = some (codes "modbus"); config_data = none });
  properties =
      record {
        name = codes "threshold";
        desired = none;
        visitors = none;
        collect_cycle = pos 1000;
        report_cycle = pos 1000;
        report_to_cloud = true;
      }
      ∷ [];
  methods = [];
}

abbrev sensor_message : DeviceMessage
sensor_message = record {
  name = codes "sensor";
  namespace = some (codes "default");
  spec = some sensor_spec;
  status = none;
}

get_device_from_grpc-Linked_example :
    (inst : DeviceInstance) × (get_device_from_grpc plain_json sensor_message
        (some thermometer)
        sensor_instance
      ≡ some inst)
    × Linked inst.properties inst.twins
get_device_from_grpc-Linked_example =
    get_device_from_grpc-Linked plain_json sensor_message thermometer sensor_instance refl refl

device_register_lem_example :
    device_register plain_json (managing (sensor ∷ [])) (some sensor_message) sensor_instance ≡ (
      if dev_panel_has_device
        (managing (sensor ∷ []))
        (some (get_resource_id (some (codes "default")) (some (codes "sensor")) 256))
      then answered (some (codes "sensor"))
      else refused no_model)
device_register_lem_example =
    device_register_lem plain_json (managing (sensor ∷ [])) sensor_message sensor_instance refl refl
      refl (omega arith, tt)
