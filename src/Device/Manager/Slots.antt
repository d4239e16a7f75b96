-- ===== src/Device/Manager/Slots.antt =====
-- The array of the manager has room for the devices, as long as memory lasts.
use mapper_framework_c.Prelude.{
  suc, ◌<◌, ◌≤◌, ◌≡◌, inl, inr, Option-cases, Bool, true, false, not, leb, if_holds, refl, subst,
  ◌*◌, some, List, [], ◌∷◌, ◌++◌, arith, length, length-append,
}
use mapper_framework_c.Prelude.CString.{Str}
use mapper_framework_c.Prelude.Int.{ℤ}
use mapper_framework_c.Common.Const.{success, failure}
use mapper_framework_c.Common.Outcome.{Outcome, fault, done}
use mapper_framework_c.Device.Types.{Device, DeviceManager}
use mapper_framework_c.Device.Manager.{
  device_manager_new, push_device, device_manager_add, device_manager_remove, remove_named,
}

-- The array has the size that the manager believes, and the devices lie inside it.
pub record HasRoom (m : DeviceManager) : Type 0 where
  pub sized : m.capacity ≡ m.slots
  pub positive : 0 < m.capacity
  pub within : length m.devices ≤ m.slots

length-remove_named :
    (id : Str) (ds : List Device) {rest : List Device}
    → remove_named id ds ≡ some rest
    → length ds ≡ suc (length rest)
unfolding remove_named
length-remove_named id [] h = cc
length-remove_named id (d ∷ ds) h = elim (Option-cases (remove_named id ds)) [
  | inl e ↦ ground arith
  | inr (r, e) ↦ ground (arith, length-remove_named id ds e)
]

device_manager_new-HasRoom :
    (alloc array_alloc mutex_ok : Bool) {m : DeviceManager}
    → device_manager_new alloc array_alloc mutex_ok ≡ some m
    → HasRoom m
unfolding device_manager_new
device_manager_new-HasRoom alloc array_alloc mutex_ok e = ground arith

-- The outcome of an addition that stores its device inside the array, behind the others.
pub data Joined (m : DeviceManager) (d : Device) : Outcome (DeviceManager × ℤ) → Type 0 where
  joined :
      {after : DeviceManager}
      → HasRoom after
      → after.devices ≡ m.devices ++ d ∷ []
      → Joined m d (done (after, success))

-- An addition for which `realloc` has memory stores the device behind the others, inside the array.
pub device_manager_add-Joined :
    (m : DeviceManager) (d : Device) → HasRoom m → Joined m d (device_manager_add true m (some d))
unfolding device_manager_add
device_manager_add-Joined m d r =
    if_holds (Joined m d) (not (leb m.capacity (length m.devices))) (λ y. stored y) (λ n. grown n)
  where
    doubled : DeviceManager
    doubled = record m { capacity = m.capacity * 2; slots = m.capacity * 2 }

    stored : not (leb m.capacity (length m.devices)) ≡ true → Joined m d (push_device m d)
    stored y =
        if_holds (Joined m d) (leb m.slots (length m.devices)) (λ z. absurd (ground (arith, r)))
          (λ n.
            joined
              (record {
                sized = r.sized;
                positive = r.positive;
                within = ground (arith, length-append m.devices (d ∷ []));
              })
              refl)

    grown : not (leb m.capacity (length m.devices)) ≡ false → Joined m d (push_device doubled d)
    grown n =
        if_holds (Joined m d) (leb (m.capacity * 2) (length m.devices))
          (λ z. absurd (ground (arith, r)))
          (λ l.
            joined
              (record {
                sized = refl;
                positive = ground (arith, r);
                within = ground (arith, length-append m.devices (d ∷ []));
              })
              refl)

pub device_manager_remove-HasRoom :
    (m : DeviceManager) (id : Str) → HasRoom m → HasRoom (device_manager_remove m (some id)).0
unfolding device_manager_remove
device_manager_remove-HasRoom m id r = elim (Option-cases (remove_named id m.devices)) [
  | inl e ↦ rw (e, device_manager_remove) r
  | inr (rest, e) ↦
      rw (e, device_manager_remove)
        (record {
          sized = r.sized;
          positive = r.positive;
          within = omega (arith, length-remove_named id m.devices e, r.within);
        })
]

-- What a program does with a manager while memory lasts.
pub data Reach : DeviceManager → Type 0 where
  created :
      {m : DeviceManager} (alloc array_alloc mutex_ok : Bool)
      → device_manager_new alloc array_alloc mutex_ok ≡ some m
      → Reach m
  added :
      {m after : DeviceManager} {c : ℤ} (d : Device)
      → Reach m
      → device_manager_add true m (some d) ≡ done (after, c)
      → Reach after
  taken : {m : DeviceManager} (id : Str) → Reach m → Reach (device_manager_remove m (some id)).0

added-HasRoom :
    {m after : DeviceManager} {c : ℤ} {d : Device} → Joined m d (done (after, c)) → HasRoom after
added-HasRoom (joined r e) = r

room : {m : DeviceManager} → Reach m → HasRoom m
room (created alloc array_alloc mutex_ok e) =
    device_manager_new-HasRoom alloc array_alloc mutex_ok e
room (added {m} d r e) =
    added-HasRoom (subst (Joined m d) e (device_manager_add-Joined m d (room r)))
room (taken {m} id r) = device_manager_remove-HasRoom m id (room r)

-- While `realloc` has memory, every manager that is reached by creation, additions and removals
-- has an array of the size that it believes, with all devices inside, and the next addition, which
-- may make the array grow, stores its device inside the array, behind the others, and returns 0.
pub Reach-HasRoom :
    {m : DeviceManager} (d : Device)
    → Reach m
    → HasRoom m × Joined m d (device_manager_add true m (some d))
Reach-HasRoom {m} d r = (room r, device_manager_add-Joined m d (room r))

-- If `realloc` fails for a full manager, the addition returns -1 but leaves the capacity doubled, so
-- the next addition asks for no memory and stores its device outside of the array.
pub device_manager_add_overrun :
    (m : DeviceManager) (d e : Device) (realloc_ok : Bool)
    → HasRoom m
    → length m.devices ≡ m.capacity
    → (device_manager_add false m (some d) ≡ done (record m { capacity = m.capacity * 2 }, failure))
      × (device_manager_add realloc_ok (record m { capacity = m.capacity * 2 }) (some e) ≡ fault)
unfolding device_manager_add
device_manager_add_overrun m d e realloc_ok r full = ground arith
