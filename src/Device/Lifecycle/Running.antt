-- ===== src/Device/Lifecycle/Running.antt =====
-- Which states the lifecycle reaches.
use mapper_framework_c.Prelude.{
  Bool, if_holds, subst, Option-cases, ℕ, ◌≡◌, refl, ap, sym, ◌∙◌, true, false, inl, inr, is_some,
  Option, none, some,
}
use mapper_framework_c.Prelude.Int.{ℤ}
use mapper_framework_c.Common.Const.{success, failure, device_status_ok, device_status_offline}
use mapper_framework_c.Common.Outcome.{Outcome, fault, done}
use mapper_framework_c.Driver.{CustomizedClient, init_device}
use mapper_framework_c.Device.Types.{Device}
use mapper_framework_c.Device.Status.{device_set_status, device_status_update_lem}
use mapper_framework_c.Device.Rebuild.{device_runtime_rebuild}
use mapper_framework_c.Device.Lifecycle.{
  Creation, created, not_created, is_stale, init_client, create_thread, start_stopped, after_start,
  device_start, device_stop, device_restart,
}

-- The flag says whether there is a thread, and a running device has status "ok".
pub record IsConsistent (d : Device) : Type 0 where
  pub thread : d.data_thread_running ≡ is_some d.data_thread
  pub healthy : d.data_thread_running ≡ true → d.status ≡ some device_status_ok

-- The end of a start, by whether the device ran and by what `pthread_create` does: it runs on, it
-- runs on the new thread, or it does not run, is offline and has an undefined handle.
pub data Begun : (ran : Bool) → Creation → Device × ℤ → Type 0 where
  runs_on :
      {thread : Creation} {d : Device}
      → IsConsistent d
      → d.data_thread_running ≡ true
      → Begun true thread (d, success)
  begins :
      {handle : ℕ} {d : Device}
      → IsConsistent d
      → d.data_thread_running ≡ true
      → d.data_thread ≡ some handle
      → Begun false (created handle) (d, success)
  fails :
      {left : Option ℕ} {d : Device}
      → d.data_thread_running ≡ false
      → d.status ≡ some device_status_offline
      → d.data_thread ≡ left
      → Begun false (not_created left) (d, failure)

-- The end of a stop.
pub data Halted : Outcome (Device × ℤ) → Type 0 where
  halted :
      {d : Device}
      → IsConsistent d
      → d.data_thread_running ≡ false
      → d.status ≡ some device_status_offline
      → Halted (done (d, success))

-- The end of a restart, which is that of a start of a stopped device.
pub data Restarted (thread : Creation) : Outcome (Device × ℤ) → Type 0 where
  restarted : {r : Device × ℤ} → Begun false thread r → Restarted thread (done r)

init_client-success : (c : Option CustomizedClient) → init_client c ≡ success
unfolding init_device
init_client-success none = refl
init_client-success (some c) = refl

-- The final state of a start of a device that does not run.
abbrev running_on : ℕ → Device → Device
running_on handle d = record d {
  status = some device_status_ok;
  data_thread = some handle;
  data_thread_running = true;
}

abbrev offline : Device → Device
offline d = record d { status = some device_status_offline; data_thread_running = false }

set_ok :
    (d : Device)
    → device_set_status d device_status_ok ≡ record d { status = some device_status_ok }
set_ok d = ap (λ (r : Device × ℤ). r.0) (device_status_update_lem d (some device_status_ok))

set_offline :
    (d : Device)
    → device_set_status d device_status_offline ≡ record d { status = some device_status_offline }
set_offline d =
    ap (λ (r : Device × ℤ). r.0) (device_status_update_lem d (some device_status_offline))

start_stopped-create :
    (thread : Creation) (d : Device)
    → start_stopped thread d
      ≡ create_thread thread
          (record d { status = some device_status_ok; data_thread_running = true })
unfolding start_stopped
start_stopped-create thread d =
    rw (init_client-success d.client)
      (ap (λ e. create_thread thread (record e { data_thread_running = true })) (set_ok d))

start_stopped-created :
    (handle : ℕ) (d : Device) → start_stopped (created handle) d ≡ (running_on handle d, success)
start_stopped-created handle d =
    start_stopped-create (created handle) d ∙ (unfold create_thread in refl)

abbrev left_with : Option ℕ → Device → Device
left_with left d = record (offline d) { data_thread = left }

start_stopped-not_created :
    (left : Option ℕ) (d : Device)
    → start_stopped (not_created left) d ≡ (left_with left d, failure)
start_stopped-not_created left d =
    start_stopped-create (not_created left) d
    ∙ (unfold create_thread in
        ap (λ (e : Device). (e, failure))
          (set_offline (record d {
            status = some device_status_ok;
            data_thread = left;
            data_thread_running = false;
          })))

abbrev rebuilt : Device → Device
rebuilt d = record d { instance_of = device_runtime_rebuild d.instance_of }

abbrev stopped : Device → Device
stopped d = record (offline d) { stop_chan = true; data_thread = none }

device_stop_sound : (d : Device) → is_stale d ≡ false → device_stop d ≡ done (stopped d, success)
unfolding device_stop
device_stop_sound d h = rw h (
    ap (λ (e : Device). done (record e { data_thread = none }, success))
      (set_offline (record d { stop_chan = true; data_thread_running = false })))

IsConsistent-sound : (d : Device) → IsConsistent d → is_stale d ≡ false
IsConsistent-sound d c = elim (Option-cases d.data_thread) [
  | inl e ↦ rw e refl
  | inr (h, e) ↦ rw (c.thread, e) refl
]

start_stopped-Begun : (thread : Creation) (d : Device) → Begun false thread (start_stopped thread d)
start_stopped-Begun (created handle) d =
    rw (start_stopped-created handle d)
      (begins (record { thread = refl; healthy = λ h. refl }) refl refl)
start_stopped-Begun (not_created left) d =
    rw (start_stopped-not_created left d) (fails refl refl refl)

device_start-Begun :
    (thread : Creation) (d : Device)
    → IsConsistent d
    → Begun d.data_thread_running thread (device_start thread d)
unfolding device_start
device_start-Begun thread d c =
    if_holds Start d.data_thread_running
      (λ y.
        subst (λ (b : Bool). Begun b thread (rebuilt d, success)) (sym y)
          (runs_on (record { thread = c.thread; healthy = c.healthy }) y))
      (λ n.
        subst (λ (b : Bool). Begun b thread (start_stopped thread (rebuilt d))) (sym n)
          (start_stopped-Begun thread (rebuilt d)))
  where
    Start : Device × ℤ → Type 0
    Start r = Begun d.data_thread_running thread r

after_start-Begun :
    (thread : Creation) (r : Device × ℤ) → Begun false thread r → Begun false thread (after_start r)
after_start-Begun (created handle) r (begins c y h) = begins c y h
after_start-Begun (not_created left) r (fails n o h) = fails n o h

-- A start, a stop and a restart of a consistent device, whatever `pthread_create` does. A stop joins
-- the thread, if there is one, and leaves a consistent device that is offline. A start of a running
-- device leaves it running; any other start, and a restart, returns 0 and leaves the device
-- consistent and running on the new thread if the thread is created, or else returns -1 and leaves
-- it offline and not running, with the handle that `pthread_create` left.
pub lifecycle-IsConsistent :
    (thread : Creation) (d : Device)
    → IsConsistent d
    → Begun d.data_thread_running thread (device_start thread d)
      × Halted (device_stop d)
      × Restarted thread (device_restart thread d)
unfolding device_restart
lifecycle-IsConsistent thread d c =
    let stop = device_stop_sound d (IsConsistent-sound d c) in
    (
      device_start-Begun thread d c,
      rw stop (halted (record { thread = refl; healthy = cc }) refl refl),
      rw (stop, device_restart)
          (restarted (
            after_start-Begun thread (device_start thread (stopped d))
              (device_start-Begun thread (stopped d) (record { thread = refl; healthy = cc })))),
    )

-- After a failed start that leaves a handle, the next stop cancels and joins what is no thread.
device_stop-stale : (handle : ℕ) (d : Device) → device_stop (left_with (some handle) d) ≡ fault
unfolding device_stop
device_stop-stale handle d = refl
