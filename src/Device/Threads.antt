-- ===== src/Device/Threads.antt =====
-- The data thread of a device and the thread that starts and stops it (device/device.c, lines 159 to
-- 217 and 608 to 711), a step of one of them at a time. Starts and stops of a device are made by one
-- thread at a time: they are made under the mutex of the manager.
pub mod Safety
pub mod Stopping
use mapper_framework_c.Prelude.{◌≡◌, Bool, true, false, Option, none, some}

pub data Party : Type 0 where
  worker controller : Party

-- Where the data thread is. It is cancelled where it can be: in `usleep`, in `system` within a
-- round, and in the logging at its beginning and end.
pub data WorkerAt : Type 0 where
  no_thread testing locking checking in_round sleeping finished cancelled : WorkerAt

-- Where the other thread is: outside of the functions, in `device_start`, or in `device_stop`.
pub data ControllerAt : Type 0 where
  idle start_locking starting stop_locking stopping cancelling joining : ControllerAt

-- `ok` says whether the status is "ok"; `pending` whether the thread has a cancellation request.
pub record State : Type 0 where
  pub at_worker : WorkerAt
  pub at_controller : ControllerAt
  pub owner : Option Party
  pub running : Bool
  pub ok : Bool
  pub pending : Bool

abbrev pub is_cancellation_point : WorkerAt → Bool
is_cancellation_point testing = true
is_cancellation_point in_round = true
is_cancellation_point sleeping = true
is_cancellation_point p = false

abbrev pub has_ended : WorkerAt → Bool
has_ended finished = true
has_ended cancelled = true
has_ended p = false

pub data Step (s : State) : State → Type 0 where
  test_on : s.at_worker ≡ testing → s.running ≡ true → Step s (record s { at_worker = locking })
  test_off : s.at_worker ≡ testing → s.running ≡ false → Step s (record s { at_worker = finished })
  lock :
      s.at_worker ≡ locking
      → s.owner ≡ none
      → Step s (record s { at_worker = checking; owner = some worker })
  skip :
      s.at_worker ≡ checking
      → s.ok ≡ false
      → Step s (record s { at_worker = sleeping; owner = none })
  begin_round : s.at_worker ≡ checking → s.ok ≡ true → Step s (record s { at_worker = in_round })
  end_round : s.at_worker ≡ in_round → Step s (record s { at_worker = sleeping; owner = none })
  wake : s.at_worker ≡ sleeping → Step s (record s { at_worker = testing })
  -- A cancelled thread keeps what it has locked.
  be_cancelled :
      s.pending ≡ true
      → is_cancellation_point s.at_worker ≡ true
      → Step s (record s { at_worker = cancelled })
  call_start : s.at_controller ≡ idle → Step s (record s { at_controller = start_locking })
  lock_start :
      s.at_controller ≡ start_locking
      → s.owner ≡ none
      → Step s (record s { at_controller = starting; owner = some controller })
  already_running :
      s.at_controller ≡ starting
      → s.running ≡ true
      → Step s (record s { at_controller = idle; owner = none })
  create :
      s.at_controller ≡ starting
      → s.running ≡ false
      → Step s (record s {
        at_worker = testing;
        at_controller = idle;
        owner = none;
        running = true;
        ok = true;
      })
  create_fails :
      s.at_controller ≡ starting
      → s.running ≡ false
      → Step s (record s { at_controller = idle; owner = none; ok = false })
  call_stop : s.at_controller ≡ idle → Step s (record s { at_controller = stop_locking })
  lock_stop :
      s.at_controller ≡ stop_locking
      → s.owner ≡ none
      → Step s (record s { at_controller = stopping; owner = some controller })
  set_flags :
      s.at_controller ≡ stopping
      → Step s (record s { at_controller = cancelling; owner = none; running = false; ok = false })
  no_cancel :
      s.at_controller ≡ cancelling
      → s.at_worker ≡ no_thread
      → Step s (record s { at_controller = idle })
  cancel :
      s.at_controller ≡ cancelling
      → ¬ (s.at_worker ≡ no_thread)
      → Step s (record s { at_controller = joining; pending = true })
  join :
      s.at_controller ≡ joining
      → has_ended s.at_worker ≡ true
      → Step s (record s { at_worker = no_thread; at_controller = idle; pending = false })

-- A new device.
abbrev pub fresh : State
fresh = record {
  at_worker = no_thread;
  at_controller = idle;
  owner = none;
  running = false;
  ok = false;
  pending = false;
}

pub data Reach : State → Type 0 where
  start : Reach fresh
  later : {s t : State} → Reach s → Step s t → Reach t
