-- ===== src/Device/Simulate.antt =====
-- device/device.c, lines 142 to 155: the simulated temperature.
pub mod Wave
use mapper_framework_c.Prelude.{ℕ, zero, suc, Bool, ◌-◌, leb, if◌then◌else◌}
use mapper_framework_c.Prelude.Int.{ℤ, pos, negsuc, leb_ℤ, ◌+ℤ◌}

abbrev pub up : ℤ
up = pos 1

abbrev pub down : ℤ
down = negsuc 0

pub record Simulation : Type 0 where
  pub current : ℤ
  pub direction : ℤ

turned : Simulation → ℤ
turned s =
    if leb_ℤ (pos 100) s.current then down else if leb_ℤ s.current (pos 1) then up else s.direction

-- The value returned is the new `current`.
unfoldable pub simulate_temperature_data : Simulation → Simulation
unfolding turned ◌+ℤ◌
simulate_temperature_data s =
    let direction = turned s in record { current = s.current +ℤ direction; direction = direction }

-- The initial values of `device_data_thread`.
abbrev pub simulation_start : Simulation
simulation_start = record { current = pos 1; direction = up }

-- The state after `n` rounds of the collection loop.
pub simulate_rounds : ℕ → Simulation
simulate_rounds zero = simulation_start
simulate_rounds (suc n) = simulate_temperature_data (simulate_rounds n)
