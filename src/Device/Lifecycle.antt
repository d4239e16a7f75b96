-- ===== src/Device/Lifecycle.antt =====
-- device/device.c, lines 608 to 711 and 983 to 1000: start, stop and restart of a device. Each runs under the
-- mutex of the device up to the join of the thread, so here it is one step.
pub mod Running
use mapper_framework_c.Prelude.{
  ℕ, Bool, true, false, not, ◌&&◌, if◌then◌else◌, is_some, Option, none, some,
}
use mapper_framework_c.Prelude.Int.{ℤ}
use mapper_framework_c.Prelude.CString.{Str}
use mapper_framework_c.Common.Const.{
  success, failure, is_zero, device_status_ok, device_status_offline,
}
use mapper_framework_c.Common.Outcome.{Outcome, fault, done, ◌>>=◌}
use mapper_framework_c.Driver.{CustomizedClient, init_device, stop_device}
use mapper_framework_c.Device.Types.{Device}
use mapper_framework_c.Device.Status.{device_set_status}
use mapper_framework_c.Device.Rebuild.{device_runtime_rebuild}

abbrev init_client : Option CustomizedClient → ℤ
init_client none = success
init_client (some c) = init_device (some c)

-- What `pthread_create` does: it makes the thread and gives its handle, or it fails, and then the
-- handle is undefined. It is some number, `none` for 0.
pub data Creation : Type 0 where
  created : (handle : ℕ) → Creation
  not_created : (left : Option ℕ) → Creation

unfoldable pub create_thread : Creation → Device → Device × ℤ
create_thread (not_created left) d = (
  device_set_status (record d { data_thread = left; data_thread_running = false })
      device_status_offline,
  failure,
)
create_thread (created handle) d = (record d { data_thread = some handle }, success)

start_stopped : Creation → Device → Device × ℤ
unfolding create_thread
start_stopped thread d =
    if not (is_zero (init_client d.client))
    then (device_set_status d device_status_offline, failure)
    else create_thread thread
        (record (device_set_status d device_status_ok) { data_thread_running = true })

unfoldable pub device_start : Creation → Device → Device × ℤ
unfolding start_stopped
device_start thread d =
    let rebuilt = record d { instance_of = device_runtime_rebuild d.instance_of } in
    if d.data_thread_running then (rebuilt, success) else start_stopped thread rebuilt

-- A handle without a thread is what a `pthread_create` that failed has left.
abbrev pub is_stale : Device → Bool
is_stale d = is_some d.data_thread && not d.data_thread_running

-- `StopDevice` changes nothing, and its code is not read. The running thread is cancelled and joined;
-- to do so with a handle that is not a thread's is undefined.
unfoldable pub device_stop : Device → Outcome (Device × ℤ)
device_stop d =
    let stopped = record d { stop_chan = true; data_thread_running = false } in
    let offline = device_set_status stopped device_status_offline in
    if is_stale d then fault else done (record offline { data_thread = none }, success)

-- The two tests of a restart, each on the state and the code of the call before it.
abbrev pub after_start : Device × ℤ → Device × ℤ
after_start (started, start_code) =
    if not (is_zero start_code) then (started, failure) else (started, success)

abbrev pub after_stop : Creation → Device × ℤ → Device × ℤ
after_stop thread (stopped, stop_code) =
    if not (is_zero stop_code)
    then (stopped, failure)
    else after_start (device_start thread stopped)

unfoldable pub device_restart : Creation → Device → Outcome (Device × ℤ)
device_restart thread d = device_stop d >>= (λ r. done (after_stop thread r))

-- Placeholders of the source, at its end.
unfoldable pub device_init_from_config : Option Device → (config_path : Option Str) → ℤ
device_init_from_config (some d) (some path) = success
device_init_from_config _ _ = failure

unfoldable pub device_register_to_edge : Option Device → ℤ
device_register_to_edge none = failure
device_register_to_edge (some d) = success
