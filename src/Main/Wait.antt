-- ===== src/Main/Wait.antt =====
-- main.c, lines 40 to 52 and 170 to 179: the signals, and the wait for the socket.
pub mod Ready
use mapper_framework_c.Prelude.{
  ℕ, zero, suc, ◌+◌, Bool, true, false, ltb, ◌==◌, Option, none, some, if◌then◌else◌,
}
use mapper_framework_c.Prelude.Int.{ℤ}
use mapper_framework_c.Common.Const.{success, failure}

-- `running`, and how many signals there were.
pub record Signals : Type 0 where
  pub running : Bool
  pub received : ℕ

-- What a signal leaves; the code is that of `_exit`, where it ends the program.
unfoldable pub signal_handler : (sig : ℕ) → Signals → Signals × Option ℕ
signal_handler sig s =
    if s.received == 0
    then (record { running = false; received = 1 }, none)
    else (record s { received = suc s.received }, some (128 + sig))

-- The loop; `stat_ok` is what `stat` finds at each poll, by its number. It gives the code and the
-- number of polls; `none` where the fuel is used up.
unfoldable pub wait_loop :
    (stat_ok : ℕ → Bool) → (timeout_ms fuel waited polls : ℕ) → Option (ℤ × ℕ)
wait_loop stat_ok timeout_ms zero waited polls = none
wait_loop stat_ok timeout_ms (suc fuel) waited polls =
    let rest = wait_loop stat_ok timeout_ms fuel (waited + 100) (suc polls) in
    if ltb waited timeout_ms
    then if stat_ok polls then some (success, suc polls) else rest
    else some (failure, polls)

unfoldable pub wait_uds_ready : (stat_ok : ℕ → Bool) → (timeout_ms : ℕ) → Option (ℤ × ℕ)
wait_uds_ready stat_ok timeout_ms = wait_loop stat_ok timeout_ms (suc timeout_ms) 0 0
