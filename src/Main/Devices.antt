-- ===== src/Main/Devices.antt =====
-- main.c, lines 346 to 374: the devices that the registration gave are made and put into the manager.
pub mod Built
use mapper_framework_c.Prelude.{
  ℕ, suc, Bool, true, false, Option, none, some, List, [], ◌∷◌, ◌++◌, if◌then◌else◌,
}
use mapper_framework_c.Prelude.CString.{Str, str_eq}
use mapper_framework_c.Common.Outcome.{Outcome, done, ◌>>=◌}
use mapper_framework_c.Common.ConfigMapType.{DeviceInstance, DeviceModel}
use mapper_framework_c.Device.Types.{Device, DeviceManager}
use mapper_framework_c.Device.New.{device_new}
use mapper_framework_c.Device.Manager.{device_manager_add}

-- Which allocations succeed, by the number of the instance.
pub record Allocations : Type 0 where
  pub device_alloc : ℕ → Bool
  pub mutex_ok : ℕ → Bool
  pub client_alloc : ℕ → Bool
  pub realloc_ok : ℕ → Bool

abbrev pub same_name : Option Str → Option Str → Bool
same_name (some a) (some b) = str_eq a b
same_name a b = false

-- The first model of the name that the instance has.
unfoldable pub find_model : List DeviceModel → DeviceInstance → Option DeviceModel
find_model [] inst = none
find_model (m ∷ ms) inst =
    let rest = find_model ms inst in if same_name m.name inst.model then some m else rest

-- The device of the instance numbered `i`, where a model is found and it can be made.
unfoldable pub build_device :
    Allocations → List DeviceModel → (i : ℕ) → DeviceInstance → Option Device
unfolding find_model
build_device a models i inst = elim (find_model models inst) [
  | none ↦ none
  | some model ↦
      device_new (a.device_alloc i) (a.mutex_ok i) (a.client_alloc i) (some inst) (some model)
]

-- A device that the manager does not take is freed.
abbrev pub add_built : (realloc_ok : Bool) → DeviceManager → Option Device → Outcome DeviceManager
add_built realloc_ok m none = done m
add_built realloc_ok m (some d) = device_manager_add realloc_ok m (some d) >>= (λ r. done r.0)

unfoldable pub init_devices :
    Allocations
    → List DeviceModel
    → (i : ℕ) → List DeviceInstance
    → DeviceManager
    → Outcome DeviceManager
init_devices a models i [] m = done m
init_devices a models i (inst ∷ insts) m =
    add_built (a.realloc_ok i) m (build_device a models i inst)
    >>= (λ next. init_devices a models (suc i) insts next)
