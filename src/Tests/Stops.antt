-- ===== src/Tests/Stops.antt =====
-- Witnesses of what holds for the data thread and the thread that stops it.
use mapper_framework_c.Prelude.{◌↔◌, ◌≡◌, ◌≢◌, refl, true, false, none, some, arith}
use mapper_framework_c.Device.Threads.{
  worker, controller, in_round, sleeping, cancelled, idle, joining, State, test_on, lock,
  begin_round, end_round, be_cancelled, call_start, lock_start, create, call_stop, lock_stop,
  set_flags, cancel, Reach, start, later,
}
use mapper_framework_c.Device.Threads.Safety.{
  worker_inside, controller_inside, owner-Reach, pending-Reach, cancelled-Reach,
}

-- A device was started, and its data thread is in a round.
abbrev in_first_round : State
in_first_round = record {
  at_worker = in_round;
  at_controller = idle;
  owner = some worker;
  running = true;
  ok = true;
  pending = false;
}

first_round-Reach : Reach in_first_round
first_round-Reach =
    later
      (later
        (later
          (later (later (later start (call_start refl)) (lock_start refl refl)) (create refl refl))
          (test_on refl refl))
        (lock refl refl))
      (begin_round refl refl)

-- The data thread sleeps, and the stop waits for it.
abbrev waiting : State
waiting = record {
  at_worker = sleeping;
  at_controller = joining;
  owner = none;
  running = false;
  ok = false;
  pending = true;
}

waiting-Reach : Reach waiting
waiting-Reach =
    later
      (later
        (later (later (later first_round-Reach (end_round refl)) (call_stop refl))
          (lock_stop refl refl))
        (set_flags refl))
      (cancel refl (ground arith))

owner-Reach_example :
    (in_first_round.owner ≡ some worker ↔ worker_inside in_first_round.at_worker ≡ true)
    × (in_first_round.owner ≡ some controller
        ↔ controller_inside in_first_round.at_controller ≡ true)
owner-Reach_example = owner-Reach first_round-Reach

pending-Reach_example : (waiting.at_worker ≢ in_round) × (waiting.ok ≡ false)
pending-Reach_example = pending-Reach waiting-Reach refl

abbrev cut : State
cut = record waiting { at_worker = cancelled }

cancelled-Reach_example : cut.owner ≢ some worker
cancelled-Reach_example =
    cancelled-Reach {s = cut} (later waiting-Reach (be_cancelled refl refl)) refl
