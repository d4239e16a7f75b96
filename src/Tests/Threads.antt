-- ===== src/Tests/Threads.antt =====
-- Witnesses of what holds for the data thread, the writes of twins and the lifecycle.
use mapper_framework_c.Prelude.{length, ◌≡◌, ◌≢◌, refl, false, some, [], ◌∷◌}
use mapper_framework_c.Prelude.CString.{str_eq}
use mapper_framework_c.Recorder.{recorder_row}
use mapper_framework_c.Device.JsonScan.{resolve_offset_by_name}
use mapper_framework_c.Common.Const.{success, failure, is_zero}
use mapper_framework_c.Device.World.{run_command, sim_temperature_enabled}
use mapper_framework_c.Device.Simulate.{simulation_start}
use mapper_framework_c.Device.DealTwin.{
  Write, exit_code, is_simulated, pending, record_effects, publish_effects, deal_request,
  device_deal_twin,
}
use mapper_framework_c.Device.DealTwin.Settles.{device_deal_twin-settles, device_deal_twin-failure}
use mapper_framework_c.Device.DataThread.{thread_twin, dealt_step, data_thread_round, pass_twins}
use mapper_framework_c.Device.DataThread.Settles.{commands, data_thread_round-settles}
use mapper_framework_c.Device.Lifecycle.{not_created, device_start, device_stop, device_restart}
use mapper_framework_c.Device.Lifecycle.Running.{Begun, Halted, Restarted, lifecycle-IsConsistent}
use mapper_framework_c.Tests.Samples.{wanted, sensor_instance, sensor, running_sensor, world}

-- The first round of a running sensor with a pending write runs one command.
first_round :
    length (commands (data_thread_round (world (some 0)) running_sensor simulation_start).effects)
    ≡ 1
unfolding data_thread_round pass_twins thread_twin dealt_step device_deal_twin deal_request
    exit_code is_simulated pending resolve_offset_by_name str_eq sim_temperature_enabled
    record_effects publish_effects recorder_row
first_round = refl

data_thread_round-settles_example :
    commands
      (data_thread_round
        (world (some 0))
        (data_thread_round (world (some 0)) running_sensor simulation_start).device
        simulation_start).effects
    ≡ []
data_thread_round-settles_example =
    data_thread_round-settles (world (some 0)) (world (some 0)) running_sensor simulation_start
      simulation_start (λ c. unfold exit_code in refl) refl

deal_code : (device_deal_twin (world (some 0)) sensor_instance wanted).code ≡ success
unfolding device_deal_twin deal_request exit_code is_simulated pending resolve_offset_by_name str_eq
    sim_temperature_enabled
deal_code = refl

device_deal_twin-settles_example :
    device_deal_twin
      (world (some 0))
      sensor_instance
      (device_deal_twin (world (some 0)) sensor_instance wanted).twin
    ≡ record {
      twin = (device_deal_twin (world (some 0)) sensor_instance wanted).twin;
      code = success;
      effects = [];
    }
device_deal_twin-settles_example =
    device_deal_twin-settles (world (some 0)) (world (some 0)) sensor_instance wanted deal_code refl

deal_fails : (device_deal_twin (world (some 256)) sensor_instance wanted).code ≢ success
unfolding device_deal_twin deal_request exit_code is_simulated pending resolve_offset_by_name str_eq
    sim_temperature_enabled
deal_fails = cc

device_deal_twin-failure_example :
    (r : Write) × (deal_request (world (some 256)) sensor_instance wanted ≡ some r)
    × (is_zero (exit_code (some 256)) ≡ false)
    × (device_deal_twin (world (some 256)) sensor_instance wanted
        ≡ record { twin = wanted; code = failure; effects = run_command r.command ∷ [] })
device_deal_twin-failure_example =
    device_deal_twin-failure (world (some 256)) sensor_instance wanted deal_fails

-- The handle is not 0 although no thread is created.
lifecycle-IsConsistent_example :
    Begun sensor.data_thread_running
      (not_created (some 5))
      (device_start (not_created (some 5)) sensor)
    × Halted (device_stop sensor)
    × Restarted (not_created (some 5)) (device_restart (not_created (some 5)) sensor)
lifecycle-IsConsistent_example =
    lifecycle-IsConsistent (not_created (some 5)) sensor
      (record { thread = refl; healthy = λ h. absurd (cc) })
