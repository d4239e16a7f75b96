-- ===== src/Main/Devices/Built.antt =====
-- The manager has the devices that could be made, in the order of the instances.
use mapper_framework_c.Prelude.{
  ℕ, suc, arith, ◌≡◌, refl, sym, ap, ◌∙◌, true, false, inl, inr, Option-cases, if_holds, Option,
  none, some, List, [], ◌∷◌, ◌++◌,
}
use mapper_framework_c.Prelude.CString.{Str, str_eq_iff}
use mapper_framework_c.Common.Outcome.{Outcome, fault, done, ◌>>=◌}
use mapper_framework_c.Common.ConfigMapType.{DeviceInstance, DeviceModel}
use mapper_framework_c.Device.Types.{Device, DeviceManager}
use mapper_framework_c.Device.New.{device_new}
use mapper_framework_c.Prelude.Int.{ℤ}
use mapper_framework_c.Device.Manager.{device_manager_add}
use mapper_framework_c.Device.Manager.Slots.{HasRoom, Joined, joined, device_manager_add-Joined}
use mapper_framework_c.Main.Devices.{
  Allocations, same_name, find_model, build_device, add_built, init_devices,
}

-- Two names that are there, and are the same text.
pub data SameText (x y : Option Str) : Type 0 where
  same_text : (text : Str) → x ≡ some text → y ≡ some text → SameText x y

-- The first model of a list that has a name, if there is one.
pub data FirstNamed (name : Option Str) : List DeviceModel → Option DeviceModel → Type 0 where
  here :
      {m : DeviceModel} {ms : List DeviceModel}
      → SameText m.name name
      → FirstNamed name (m ∷ ms) (some m)
  there :
      {m : DeviceModel} {ms : List DeviceModel} {o : Option DeviceModel}
      → ¬ SameText m.name name
      → FirstNamed name ms o
      → FirstNamed name (m ∷ ms) o
  nowhere : FirstNamed name [] none

-- The devices that come of the instances, of which the first has the number `i`.
pub data Built (a : Allocations) (models : List DeviceModel)
    : (i : ℕ) → List DeviceInstance → List Device → Type 0 where
  over : {i : ℕ} → Built a models i [] []
  no_model :
      {i : ℕ} {inst : DeviceInstance} {insts : List DeviceInstance} {ds : List Device}
      → FirstNamed inst.model models none
      → Built a models (suc i) insts ds
      → Built a models i (inst ∷ insts) ds
  not_made :
      {i : ℕ} {inst : DeviceInstance} {insts : List DeviceInstance} {ds : List Device}
      (m : DeviceModel)
      → FirstNamed inst.model models (some m)
      → device_new (a.device_alloc i) (a.mutex_ok i) (a.client_alloc i) (some inst) (some m) ≡ none
      → Built a models (suc i) insts ds
      → Built a models i (inst ∷ insts) ds
  made :
      {i : ℕ} {inst : DeviceInstance} {insts : List DeviceInstance} {ds : List Device}
      (m : DeviceModel) (d : Device)
      → FirstNamed inst.model models (some m)
      → device_new (a.device_alloc i) (a.mutex_ok i) (a.client_alloc i) (some inst) (some m)
        ≡ some d
      → Built a models (suc i) insts ds
      → Built a models i (inst ∷ insts) (d ∷ ds)

-- The end of the loop: the devices that were there, and behind them those that come of the instances.
pub data Filled (a : Allocations) (models : List DeviceModel) (i : ℕ) (insts : List DeviceInstance)
    (m : DeviceManager) : Outcome DeviceManager → Type 0 where
  filled :
      {after : DeviceManager} (ds : List Device)
      → Built a models i insts ds
      → after.devices ≡ m.devices ++ ds
      → HasRoom after
      → Filled a models i insts m (done after)

same_name-SameText : (x y : Option Str) → same_name x y ≡ true → SameText x y
same_name-SameText (some a) (some b) h = same_text a refl (ap some (sym ((str_eq_iff a b).0 h)))
same_name-SameText none y h = absurd (cc h)
same_name-SameText (some a) none h = absurd (cc h)

same_name-different : (x y : Option Str) → same_name x y ≡ false → ¬ SameText x y
same_name-different (some a) (some b) h (same_text t e f) =
    absurd (ground (arith, h, (str_eq_iff a b).1 (cc (e, f))))
same_name-different none y h (same_text t e f) = absurd (cc e)
same_name-different (some a) none h (same_text t e f) = absurd (cc f)

find_model-FirstNamed :
    (models : List DeviceModel) (inst : DeviceInstance)
    → FirstNamed inst.model models (find_model models inst)
unfolding find_model
find_model-FirstNamed [] inst = nowhere
find_model-FirstNamed (m ∷ ms) inst =
    if_holds (FirstNamed inst.model (m ∷ ms)) (same_name m.name inst.model)
      (λ y. here (same_name-SameText m.name inst.model y))
      (λ n. there (same_name-different m.name inst.model n) (find_model-FirstNamed ms inst))

append_nil : (xs : List Device) → xs ++ [] ≡ xs
append_nil [] = refl
append_nil (x ∷ xs) = ap (λ ys. x ∷ ys) (append_nil xs)

append-one :
    (xs : List Device) (x : Device) (ys : List Device) → (xs ++ x ∷ []) ++ ys ≡ xs ++ x ∷ ys
append-one [] x ys = refl
append-one (y ∷ xs) x ys = ap (λ zs. y ∷ zs) (append-one xs x ys)

-- The step of the loop for an instance, with what the rest of the loop does.
module _ (a : Allocations) (models : List DeviceModel) (i : ℕ) (inst : DeviceInstance)
    (insts : List DeviceInstance) (m : DeviceManager) (r : HasRoom m)
    (goes_on : DeviceManager → Outcome DeviceManager)
    (rest : (next : DeviceManager)
      → HasRoom next
      → Filled a models (suc i) insts next (goes_on next)) where
  skipped :
      (o : Outcome DeviceManager)
      → ((ds : List Device) → Built a models (suc i) insts ds → Built a models i (inst ∷ insts) ds)
      → Filled a models (suc i) insts m o
      → Filled a models i (inst ∷ insts) m o
  skipped (done after) skip (filled ds b e room) = filled ds (skip ds b) e room
  skipped fault skip f = elim f [ ]

  behind_one :
      {next : DeviceManager} (d : Device) (o : Outcome DeviceManager)
      → next.devices ≡ m.devices ++ d ∷ []
      → ((ds : List Device)
          → Built a models (suc i) insts ds
          → Built a models i (inst ∷ insts) (d ∷ ds))
      → Filled a models (suc i) insts next o
      → Filled a models i (inst ∷ insts) m o
  behind_one d (done after) e more (filled ds b f room) =
      filled (d ∷ ds) (more ds b) (f ∙ ap (λ xs. xs ++ ds) e ∙ append-one m.devices d ds) room
  behind_one d fault e more f = elim f [ ]

  joined_one :
      (d : Device) (o : Outcome (DeviceManager × ℤ))
      → ((ds : List Device)
          → Built a models (suc i) insts ds
          → Built a models i (inst ∷ insts) (d ∷ ds))
      → Joined m d o
      → Filled a models i (inst ∷ insts) m (o >>= (λ p. done p.0) >>= goes_on)
  joined_one d (done p) more (joined {after} room e) =
      behind_one d (goes_on after) e more (rest after room)
  joined_one d fault more j = elim j [ ]

  step :
      (model : Option DeviceModel)
      → FirstNamed inst.model models model
      → Filled a models i (inst ∷ insts) m (
          add_built true m (elim model [
            | none ↦ none
            | some found ↦
                device_new
                  (a.device_alloc i)
                  (a.mutex_ok i)
                  (a.client_alloc i)
                  (some inst)
                  (some found)
          ])
          >>= goes_on)
  step none f = skipped (goes_on m) (λ ds b. no_model f b) (rest m r)
  step (some found) f = elim (Option-cases new) [
    | inl e ↦ rw e (skipped (goes_on m) (λ ds b. not_made found f e b) (rest m r))
    | inr (d, e) ↦ rw e (
        joined_one d (device_manager_add true m (some d)) (λ ds b. made found d f e b)
          (device_manager_add-Joined m d r))
  ]
    where
      new : Option Device
      new = device_new (a.device_alloc i) (a.mutex_ok i) (a.client_alloc i) (some inst) (some found)

-- Where the array of the manager has room and can always grow, the loop ends, and the manager has
-- the devices it had and behind them, in the order of the instances, one device for each instance
-- that has a model and whose device can be made, made of the instance and of the first model that
-- has the name which the instance gives. No addition writes outside of the array.
pub init_devices-built :
    (a : Allocations) (models : List DeviceModel) (i : ℕ) (insts : List DeviceInstance)
    (m : DeviceManager)
    → HasRoom m
    → ((k : ℕ) → a.realloc_ok k ≡ true)
    → Filled a models i insts m (init_devices a models i insts m)
unfolding init_devices build_device
init_devices-built a models i [] m r h = filled [] over (sym (append_nil m.devices)) r
init_devices-built a models i (inst ∷ insts) m r h = rw (h i) (
    step a models i inst insts m r (λ next. init_devices a models (suc i) insts next)
      (λ next room. init_devices-built a models (suc i) insts next room h) (find_model models inst)
      (find_model-FirstNamed models inst))
