-- ===== src/Tests/Grpc.antt =====
-- Witnesses of what holds for the gRPC server, and for the manager behind it.
use mapper_framework_c.Prelude.{◌≡◌, refl, true, false, none, some, List, [], ◌∷◌}
use mapper_framework_c.Prelude.CString.{codes, str_eq}
use mapper_framework_c.Prelude.Int.{pos}
use mapper_framework_c.Device.Twins.{has_name}
use mapper_framework_c.GrpcServer.DirectWrite.{
  positive_or, get_apply_timeout_ms, get_device_timeout_ms, map_offset_by_prop, write_modbus_direct,
}
use mapper_framework_c.GrpcServer.DirectWrite.Registers.{all_failed}
use mapper_framework_c.GrpcServer.Apply.{
  CloudDevice, Delays, apply_value, apply_properties, apply_property, wish, match_index, match_name,
  apply_at, by_index, device_deal_twin_with_timeout, dealt, apply_directly,
}
use mapper_framework_c.GrpcServer.Apply.Found.{
  write_all, apply_desired_to_device_with_timeout, apply_desired_to_device, local_device,
  apply_to_device,
}
use mapper_framework_c.Device.Manager.{device_manager_get, find_named}
use mapper_framework_c.Device.DealTwin.{
  device_deal_twin, deal_request, is_simulated, pending, exit_code,
}
use mapper_framework_c.Device.World.{sim_temperature_enabled}
use mapper_framework_c.Device.JsonScan.{resolve_offset_by_name}
use mapper_framework_c.GrpcServer.Apply.Twins.{Takes, apply_value-named, apply_value-misplaced}
use mapper_framework_c.GrpcServer.Update.{
  not_applied, update_device, update_found, update_normally, fall_back, is_forced,
}
use mapper_framework_c.GrpcServer.Update.{sync, sync_named}
use mapper_framework_c.GrpcServer.Update.Synced.{sync_named-settles}
use mapper_framework_c.GrpcServer.Update.Answered.{InTime, update_device-all_failed}
use mapper_framework_c.Device.DataThread.{thread_twin}
use mapper_framework_c.Device.Simulate.{simulation_start}
use mapper_framework_c.GrpcServer.Server.{GrpcServer, Surroundings, Started, start}
use mapper_framework_c.GrpcServer.Server.Balance.{Event, started, stopped, run}
use mapper_framework_c.Tests.Samples.{wanted, nameless, sensor, sensor_instance, managing, world}

abbrev asked : CloudDevice
asked = record {
  name = codes "sensor";
  namespace = codes "default";
  spec = some (record { name = codes "threshold"; desired = some (codes "9") } ∷ []);
}

abbrev quick : Delays
quick = record { apply_ms = pos 5; deal_ms = λ k. pos 5 }

quick-InTime : InTime (world (some 256)) quick
unfolding get_apply_timeout_ms get_device_timeout_ms positive_or
quick-InTime = record { apply_in_time = refl; deals_in_time = λ k. refl }

refused :
    (update_device (world (some 256)) quick (some (managing (sensor ∷ []))) (some asked)).status
    ≡ not_applied
unfolding update_device update_found update_normally fall_back write_all write_modbus_direct
    map_offset_by_prop is_forced apply_desired_to_device_with_timeout apply_desired_to_device
    local_device device_manager_get find_named str_eq apply_to_device apply_properties
    apply_property wish apply_value match_index match_name apply_at by_index
    device_deal_twin_with_timeout device_deal_twin deal_request is_simulated sim_temperature_enabled
    pending resolve_offset_by_name exit_code get_apply_timeout_ms get_device_timeout_ms positive_or
    dealt apply_directly
refused = refl

update_device-all_failed_example :
    all_failed
      (world (some 256))
      (update_device (world (some 256)) quick (some (managing (sensor ∷ []))) (some asked)).effects
    ≡ true
update_device-all_failed_example =
    update_device-all_failed (world (some 256)) quick (some (managing (sensor ∷ []))) (some asked)
      quick-InTime refused

apply_value-named_example :
    Takes
      (nameless ∷ wanted ∷ [])
      (apply_value
        (world (some 0))
        (pos 5)
        sensor_instance
        0
        (codes "threshold")
        (codes "9")
        (nameless ∷ wanted ∷ [])).twins
      1
      wanted
      (codes "9")
unfolding str_eq
apply_value-named_example =
    apply_value-named (world (some 0)) (pos 5) sensor_instance 0 (codes "threshold") (codes "9")
      (nameless ∷ []) [] wanted refl refl

apply_value-misplaced_example :
    Takes
      (wanted ∷ [])
      (apply_value
        (world (some 0))
        (pos 5)
        sensor_instance
        0
        (codes "humidity")
        (codes "9")
        (wanted ∷ [])).twins
      0
      wanted
      (codes "9")
    × (has_name (codes "humidity") wanted ≡ false)
unfolding str_eq
apply_value-misplaced_example =
    apply_value-misplaced (world (some 0)) (pos 5) sensor_instance 0 (codes "humidity") (codes "9")
      (wanted ∷ []) refl refl

abbrev stopped_server : GrpcServer
stopped_server = record {
  cfg = record { sock_path = codes "/tmp/mapper.sock"; protocol = codes "uds" };
  address = none;
  stopped = true;
}

abbrev fine : Surroundings
fine = record { exists = false; unlink_ok = true; build_ok = true; stat_ok = λ k. true }

-- It starts, is stopped, and starts again, after which it is stopped twice.
abbrev restarts : List Event
restarts = started fine ∷ stopped ∷ []

abbrev served_again : Started
served_again = start fine (run restarts stopped_server).0

not_simulated : is_simulated (world none) wanted ≡ false
unfolding is_simulated sim_temperature_enabled
not_simulated = refl

sync_named-settles_example :
    (sync_named (world (some 0)) (codes "threshold") (codes "9") (nameless ∷ wanted ∷ [])
      ≡ nameless ∷ sync (world (some 0)) (codes "9") wanted ∷ [])
    × (thread_twin
          (world none)
          sensor_instance
          simulation_start
          (sync (world (some 0)) (codes "9") wanted)
        ≡ record {
          twin = sync (world (some 0)) (codes "9") wanted;
          simulation = simulation_start;
          effects = [];
        })
unfolding str_eq
sync_named-settles_example =
    sync_named-settles (world (some 0)) (world none) sensor_instance simulation_start
      (codes "threshold") (codes "9") (nameless ∷ []) [] wanted refl refl not_simulated
