-- ===== src/Device/Manager/Registry.antt =====
-- The manager keeps its contract: the queues of its devices by name are the state of the contract.
use mapper_framework_c.Prelude.{◌≡◌, true, Option, none, some, List, [], ◌∷◌}
use mapper_framework_c.Prelude.Int.{ℤ}
use mapper_framework_c.Common.Outcome.{Outcome, done, ◌>>=◌}
use mapper_framework_c.Device.Types.{Device, DeviceManager}
use mapper_framework_c.Device.Manager.{
  device_manager_add, device_manager_remove, device_manager_get,
}
use mapper_framework_c.Device.Manager.Contract.{Request, add, remove, get, Reply, code, device}

data Headed (ds : List Device) : Option Device → Type 0 where
  first : (d : Device) (rest : List Device) → ds ≡ d ∷ rest → Headed ds (some d)
  nobody : ds ≡ [] → Headed ds none

abbrev pub answer_code : Outcome (DeviceManager × ℤ) → Outcome (DeviceManager × Reply)
answer_code o = o >>= (λ r. done (r.0, code r.1))

abbrev pub serve : DeviceManager → Request → Outcome (DeviceManager × Reply)
serve m (add d) = answer_code (device_manager_add true m (some d))
serve m (remove id) = answer_code (done (device_manager_remove m (some id)))
serve m (get id) = done (m, device (device_manager_get m (some id)))

abbrev pub serve_all : DeviceManager → List Request → Outcome (List Reply)
serve_all m [] = done []
serve_all m (q ∷ qs) = serve m q >>= (λ r. serve_all r.0 qs >>= (λ replies. done (r.1 ∷ replies)))
