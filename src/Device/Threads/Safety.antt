-- ===== src/Device/Threads/Safety.antt =====
-- Who holds the mutex of the device, and when the data thread can be cancelled.
use mapper_framework_c.Prelude.{
  ◌↔◌, ◌≡◌, ◌≢◌, Bool, true, false, not, ◌&&◌, Option, none, some, arith,
}
use mapper_framework_c.Device.Threads.{
  Party, worker, controller, WorkerAt, no_thread, checking, in_round, cancelled, ControllerAt,
  starting, stopping, cancelling, joining, State, has_ended, Step, test_on, test_off, lock, skip,
  begin_round, end_round, wake, be_cancelled, call_start, lock_start, already_running, create,
  create_fails, call_stop, lock_stop, set_flags, no_cancel, cancel, join, Reach, start, later,
}

-- The data thread is between its lock and its unlock.
abbrev pub worker_inside : WorkerAt → Bool
worker_inside checking = true
worker_inside in_round = true
worker_inside p = false

abbrev pub controller_inside : ControllerAt → Bool
controller_inside starting = true
controller_inside stopping = true
controller_inside p = false

-- Behind the flags of a stop.
abbrev pub is_stopped : ControllerAt → Bool
is_stopped cancelling = true
is_stopped joining = true
is_stopped p = false

abbrev pub is_round : WorkerAt → Bool
is_round in_round = true
is_round p = false

abbrev pub is_none : WorkerAt → Bool
is_none no_thread = true
is_none p = false

abbrev pub is_joining : ControllerAt → Bool
is_joining joining = true
is_joining p = false

abbrev owner_of : Bool → Bool → Option Party
owner_of true c = some worker
owner_of false true = some controller
owner_of false false = none

-- The owner of the mutex is the thread that is inside; behind the flags of a stop no round is
-- under way; otherwise there is a thread that has not ended exactly if the flag is set.
pub record Inv (s : State) : Type 0 where
  pub one_inside : (worker_inside s.at_worker && controller_inside s.at_controller) ≡ false
  pub owned : s.owner ≡ owner_of (worker_inside s.at_worker) (controller_inside s.at_controller)
  pub flags : is_stopped s.at_controller ≡ true → (s.running ≡ false) × (s.ok ≡ false)
  pub quiet : is_stopped s.at_controller ≡ true → is_round s.at_worker ≡ false
  pub alive :
      is_stopped s.at_controller ≡ false
      → (has_ended s.at_worker ≡ false) × (s.running ≡ not (is_none s.at_worker))
  pub waited : is_joining s.at_controller ≡ true → is_none s.at_worker ≡ false
  pub requested : s.pending ≡ true → is_joining s.at_controller ≡ true

pub Step-Inv : {s t : State} → Step s t → Inv s → Inv t
Step-Inv (test_on a b) i = ground arith
Step-Inv (test_off a b) i = ground arith
Step-Inv (lock a b) i = ground arith
Step-Inv (skip a b) i = ground arith
Step-Inv (begin_round a b) i = ground arith
Step-Inv (end_round a) i = ground arith
Step-Inv (wake a) i = ground arith
Step-Inv (be_cancelled a b) i = ground arith
Step-Inv (call_start a) i = ground arith
Step-Inv (lock_start a b) i = ground arith
Step-Inv (already_running a b) i = ground arith
Step-Inv (create a b) i = ground arith
Step-Inv (create_fails a b) i = ground arith
Step-Inv (call_stop a) i = ground arith
Step-Inv (lock_stop a b) i = ground arith
Step-Inv (set_flags a) i = ground arith
Step-Inv (no_cancel a b) i = ground arith
Step-Inv (cancel a b) i = ground arith
Step-Inv (join a b) i = ground arith

pub Reach-Inv : {s : State} → Reach s → Inv s
Reach-Inv start = ground arith
Reach-Inv (later r d) = Step-Inv d (Reach-Inv r)

-- In every state that is reached, the mutex of the device is never held by both threads, and it is
-- held by the one that is between its lock and its unlock.
pub owner-Reach :
    {s : State}
    → Reach s
    → (s.owner ≡ some worker ↔ worker_inside s.at_worker ≡ true)
      × (s.owner ≡ some controller ↔ controller_inside s.at_controller ≡ true)
owner-Reach r = let i = Reach-Inv r in ground arith

-- In every state that is reached where the data thread has a request to be cancelled, it is in no
-- round, so that no command of a device is cut, and no round will begin.
pub pending-Reach :
    {s : State} → Reach s → s.pending ≡ true → (s.at_worker ≢ in_round) × (s.ok ≡ false)
pending-Reach r p = let i = Reach-Inv r in ground arith

-- In every state that is reached where the data thread was cancelled, it does not hold the mutex of
-- the device.
pub cancelled-Reach : {s : State} → Reach s → s.at_worker ≡ cancelled → s.owner ≢ some worker
cancelled-Reach r p = let i = Reach-Inv r in ground arith
