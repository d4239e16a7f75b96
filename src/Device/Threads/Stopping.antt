-- ===== src/Device/Threads/Stopping.antt =====
-- A stop of a device ends, whatever its data thread does meanwhile.
use mapper_framework_c.Prelude.{ℕ, ◌+◌, ◌≡◌, Bool, true, false, none}
use mapper_framework_c.Device.Threads.{
  WorkerAt, no_thread, testing, locking, checking, in_round, sleeping, ControllerAt, idle, stopping,
  cancelling, joining, State, Step,
}

-- In `device_stop`, with the mutex taken.
abbrev pub is_stopping : ControllerAt → Bool
is_stopping stopping = true
is_stopping cancelling = true
is_stopping joining = true
is_stopping p = false

-- What a stop leaves: no thread, the mutex free and the flag off.
pub record Stopped (s : State) : Type 0 where
  pub returned : s.at_controller ≡ idle
  pub no_worker : s.at_worker ≡ no_thread
  pub free : s.owner ≡ none
  pub off : s.running ≡ false

-- Every run from `s` comes to such a state: there is a step, and each leads on.
pub data Returns : State → Type 0 where
  done : {s : State} → Stopped s → Returns s
  next : {s t : State} → Step s t → ((u : State) → Step s u → Returns u) → Returns s

-- How many steps the data thread can make while the mutex is with the stop,
abbrev before_flags : WorkerAt → ℕ
before_flags sleeping = 2
before_flags testing = 1
before_flags p = 0

-- and when the flag is off.
abbrev behind_flags : WorkerAt → ℕ
behind_flags in_round = 5
behind_flags locking = 5
behind_flags checking = 4
behind_flags sleeping = 3
behind_flags testing = 2
behind_flags p = 0

abbrev phase : ControllerAt → WorkerAt → ℕ
phase stopping w = 20 + before_flags w
phase cancelling w = 10 + behind_flags w
phase joining w = behind_flags w
phase p w = 0

data CanStep (s : State) : Type 0 where
  can : {t : State} → Step s t → CanStep s
