-- ===== src/Device/Simulate/Wave.antt =====
-- The simulated temperature is a triangle wave between 1 and 100 with period 198.
use mapper_framework_c.Prelude.{
  ℕ, zero, suc, ◌+◌, ◌-◌, ◌%◌, ◌≤◌, ◌≡◌, refl, leb, if◌then◌else◌, arith,
}
use mapper_framework_c.Prelude.Int.{pos}
use mapper_framework_c.Device.Simulate.{
  up, down, Simulation, simulate_temperature_data, simulate_rounds,
}

-- The value at place `k` of a period.
abbrev pub wave : ℕ → ℕ
wave k = if leb k 99 then 1 + k else 199 - k

-- At place `k` the value is that of the wave, and between the turning points the direction is that
-- of the side.
record At (k : ℕ) (s : Simulation) : Type 0 where
  value : s.current ≡ pos (wave k)
  rising : 1 ≤ k → k ≤ 98 → s.direction ≡ up
  falling : 100 ≤ k → s.direction ≡ down

next : ℕ → ℕ
next k = if leb 197 k then 0 else k + 1

step-At : (k : ℕ) (s : Simulation) → k ≤ 197 → At k s → At (next k) (simulate_temperature_data s)
unfolding simulate_temperature_data next
step-At k s h a = ground arith

next-mod : (n : ℕ) → suc n % 198 ≡ next (n % 198)
unfolding next
next-mod n = ground arith

simulate_rounds-At : (n : ℕ) → At (n % 198) (simulate_rounds n)
unfolding simulate_rounds
simulate_rounds-At zero = record {
  value = refl;
  rising = λ h k. refl;
  falling = λ h. absurd (omega arith);
}
simulate_rounds-At (suc n) =
    rw (next-mod n) (step-At (n % 198) (simulate_rounds n) (omega arith) (simulate_rounds-At n))

-- After `n` rounds the temperature is the wave at `n % 198`, so it lies from 1 to 100.
pub simulate_rounds-wave :
    (n : ℕ)
    → ((simulate_rounds n).current ≡ pos (wave (n % 198)))
      × (1 ≤ wave (n % 198))
      × (wave (n % 198) ≤ 100)
simulate_rounds-wave n = ((simulate_rounds-At n).value, ground arith, ground arith)
