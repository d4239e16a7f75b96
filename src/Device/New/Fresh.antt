-- ===== src/Device/New/Fresh.antt =====
-- What a new device is like.
use mathlib.Core.Path.{subst₂}
use mapper_framework_c.Prelude.{
  ◌≡◌, refl, sym, ◌∙◌, Bool, true, false, not, ◌&&◌, Bool-cases, inl, inr, is_some, Option, none,
  some, List, [], ◌∷◌, map, arith,
}
use mapper_framework_c.Prelude.CString.{codes}
use mapper_framework_c.Common.Const.{device_status_unknown}
use mapper_framework_c.Common.ConfigMapType.{
  DeviceProperty, Twin, DeviceInstance, DeviceModel, ProtocolConfig,
}
use mapper_framework_c.Driver.{CustomizedClient, new_client}
use mapper_framework_c.Device.Types.{Device}
use mapper_framework_c.Device.Rebuild.{add_twins, add_methods, is_empty}
use mapper_framework_c.Device.Rebuild.Links.{
  RefsValid, target, RefsValid-of_Linked, add_methods-same, twins_from-Linked,
}
use mapper_framework_c.Device.Lifecycle.Running.{IsConsistent}
use mapper_framework_c.Device.New.{
  copy_twin, copy_instance, client_for, fresh, with_client, device_new,
}

copy_ref-valid :
    (ps qs : List DeviceProperty) (t : Twin)
    → is_some (copy_twin ps t).property ≡ true
    → is_some (target qs (copy_twin ps t)) ≡ true
unfolding copy_twin
copy_ref-valid ps qs t h = ground arith

copy_twins-RefsValid :
    (ps qs : List DeviceProperty) (ts : List Twin) → RefsValid qs (map (copy_twin ps) ts)
copy_twins-RefsValid ps qs [] = tt
copy_twins-RefsValid ps qs (t ∷ ts) = (copy_ref-valid ps qs t, copy_twins-RefsValid ps qs ts)

add_twins-RefsValid :
    (inst : DeviceInstance)
    → RefsValid inst.properties inst.twins
    → RefsValid inst.properties (add_twins inst).twins
add_twins-RefsValid inst v =
    elim (Bool-cases (is_empty inst.twins && not (is_empty inst.properties))) [
      | inl y ↦ rw y (RefsValid-of_Linked inst.properties _ (twins_from-Linked [] inst.properties))
      | inr n ↦ rw n v
    ]

add_twins-properties : (inst : DeviceInstance) → (add_twins inst).properties ≡ inst.properties
add_twins-properties inst = ground arith

built-RefsValid :
    (inst : DeviceInstance)
    → RefsValid inst.properties inst.twins
    → RefsValid (add_methods (add_twins inst)).properties (add_methods (add_twins inst)).twins
built-RefsValid inst v =
    let same = add_methods-same (add_twins inst) in
    subst₂ (λ ps ts. RefsValid ps ts) (sym (same.1 ∙ add_twins-properties inst)) (sym same.0)
      (add_twins-RefsValid inst v)

built-same :
    (inst : DeviceInstance)
    → ((add_methods (add_twins inst)).namespace ≡ inst.namespace)
      × ((add_methods (add_twins inst)).name ≡ inst.name)
built-same inst = ground arith

with_client-some :
    (inst : DeviceInstance) (model : DeviceModel) (o : Option (Option CustomizedClient))
    {d : Device}
    → with_client inst model o ≡ some d
    → (c : Option CustomizedClient) × (o ≡ some c) × (d ≡ fresh inst model c)
unfolding with_client
with_client-some inst model none h = cc
with_client-some inst model (some c) h = (c, refl, cc)

client_for-some :
    (client_alloc : Bool) (p : ProtocolConfig) {c : Option CustomizedClient}
    → client_for client_alloc p ≡ some c
    → is_some c ≡ is_some p.protocol_name
unfolding client_for new_client
client_for-some client_alloc p h = ground arith

device_new-some :
    (device_alloc mutex_ok client_alloc : Bool) (inst : DeviceInstance) (model : DeviceModel)
    {d : Device}
    → device_new device_alloc mutex_ok client_alloc (some inst) (some model) ≡ some d
    → with_client
        (copy_instance inst)
        model
        (client_for client_alloc (copy_instance inst).p_protocol)
      ≡ some d
unfolding device_new
device_new-some false mutex_ok client_alloc inst model h = cc
device_new-some true false client_alloc inst model h = cc
device_new-some true true client_alloc inst model h = h

-- A device that is made from an instance and a model has the name of the instance, but the
-- namespace "test", whatever the instance has. It is consistent, does not run and is of unknown
-- status, no pointer of a twin leads outside its properties, and it has a client exactly if the
-- instance names a protocol.
pub device_new_lem :
    (device_alloc mutex_ok client_alloc : Bool) (inst : DeviceInstance) (model : DeviceModel)
    (d : Device)
    → device_new device_alloc mutex_ok client_alloc (some inst) (some model) ≡ some d
    → (d.instance_of.name ≡ inst.name)
      × (d.instance_of.namespace ≡ some (codes "test"))
      × IsConsistent d
      × (d.data_thread_running ≡ false)
      × (d.status ≡ some device_status_unknown)
      × RefsValid d.instance_of.properties d.instance_of.twins
      × (is_some d.client ≡ is_some inst.p_protocol.protocol_name)
unfolding fresh copy_instance
device_new_lem device_alloc mutex_ok client_alloc inst model d h =
    let copied = copy_instance inst in
    let (c, made, e) =
      with_client-some copied model _
        (device_new-some device_alloc mutex_ok client_alloc inst model h) in
    rw e (
      (built-same copied).1,
      (built-same copied).0,
      record { thread = refl; healthy = cc },
      refl,
      refl,
      built-RefsValid copied (copy_twins-RefsValid inst.properties copied.properties inst.twins),
      client_for-some client_alloc copied.p_protocol made,
    )
